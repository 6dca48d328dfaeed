-- ===== src/Payments/Admission.antt =====
-- What a voucher that `addVoucherUnlocked` of payments/channel.go adds does to its channel.
use go_hop_exchange.Prelude.{
  ℕ, ◌≡◌, refl, ap, sym, ◌∙◌, subst, inl, inr, false, Option, none, some, [], ◌∷◌, ◌==◌, Bool-cases,
  ℤ, pos_part, neg_part, ◌+ℤ◌, ◌≤ℤ◌, ltb_ℤ, int_laws, ok,
}
use go_hop_exchange.Payments.Types.{
  failed≢given, Voucher, ChannelInfo, given, ◌>>=◌, wrap, bind-given, wrap-given, given_inj,
}
use go_hop_exchange.Payments.Env.{
  Env, Actor, ActorState, of_result, of_error, after, of_result-given, after-given,
}
use go_hop_exchange.Payments.Lanes.{
  Lane, Lanes, lane_at, set_lane, lane_of, lane_state, redeemed_sum,
}
use go_hop_exchange.Payments.Redeemed.{
  lane_state-append, lane_state_ahead, redeemed-set_lane, redeemed-set_lane_new,
}
use go_hop_exchange.Payments.Store.{by_address, vouchers_for_paych, put_channel_info}
use go_hop_exchange.Payments.Vouchers.{
  check_against, contains_voucher, with_new_voucher, delta_to, paych_lanes, read_lanes,
  check_voucher_valid, append_voucher, add_to_channel, add_voucher,
}
use go_hop_exchange.Payments.Messages.{load_actor_state}
use go_hop_exchange.Payments.Solvency.{Fits, check_against-Fits}

delta_grows :
    (lanes : Lanes) (sv : Voucher) (o : Option Lane)
    → lane_at sv.lane lanes ≡ o
    → redeemed_sum (set_lane sv.lane (lane_of sv) lanes) ≡ redeemed_sum lanes +ℤ delta_to sv o
delta_grows lanes sv none e =
    let q = redeemed-set_lane_new sv.lane (lane_of sv) lanes e in
    omega (int_laws, ap pos_part q, ap neg_part q)
delta_grows lanes sv (some x) e =
    let q = redeemed-set_lane sv.lane (lane_of sv) x lanes e in
    omega (int_laws, ap pos_part q, ap neg_part q)

module _ {W : Type 0} (env : Env W) (w : W) (addr : ℕ) (sv : Voucher) where
  paych_lanes-given :
      (st : ActorState) (ci : ChannelInfo) (lanes : Lanes)
      → by_address env w addr ≡ given ci
      → paych_lanes env w st addr ≡ given lanes
      → (chain : Lanes) × (env.lanes w st ≡ ok chain) × (lane_state chain ci.vouchers ≡ given lanes)
  unfolding paych_lanes vouchers_for_paych
  paych_lanes-given st ci lanes found h =
      let (chain, read, h') = bind-given (of_result (env.lanes w st)) _ h in
      (chain, of_result-given (env.lanes w st) read, rw (found, vouchers_for_paych) at h')

  -- The lanes and the balance that a check reads: of the actor at the address, under its stored
  -- vouchers.
  pub record Read (ci : ChannelInfo) (lanes : Lanes) (balance : ℤ) : Type 0 where
    pub act : Actor
    pub st : ActorState
    pub chain : Lanes
    pub actor : env.get_actor w addr ≡ ok act
    pub holds : act.balance ≡ balance
    pub onchain : env.lanes w st ≡ ok chain
    pub stored : lane_state chain ci.vouchers ≡ given lanes

  pub read_lanes-Read :
      (ci : ChannelInfo) (r : Lanes × ℤ)
      → by_address env w addr ≡ given ci
      → read_lanes env w addr sv ≡ given r
      → Read ci r.0 r.1
  unfolding read_lanes
  read_lanes-Read ci r found h =
      let (act, actor, h1) = bind-given (of_result (env.get_actor w addr)) _ h in
      let (st, loaded, h2) =
        bind-given (wrap "loadActorState" (load_actor_state env w addr)) _ h1 in
      let (from, key, h3) = bind-given (of_result (env.account_key w st.from)) _ h2 in
      let (bytes, signing, h4) = bind-given (of_result (env.signing_bytes sv)) _ h3 in
      let (u, verified, h5) = bind-given (of_error (env.verify sv from bytes)) _ h4 in
      let (lanes, laned, same) = bind-given (wrap "laneState" (paych_lanes env w st addr)) _ h5 in
      let (chain, onchain, stored) =
        paych_lanes-given st ci lanes found (wrap-given "laneState" _ laned) in
      let e = given_inj same in
      record {
        act = act;
        st = st;
        chain = chain;
        actor = of_result-given (env.get_actor w addr) actor;
        holds = ap (λ q. q.1) e;
        onchain = onchain;
        stored = stored ∙ ap (λ q. given q.0) e;
      }

  -- What the addition of a voucher to a channel amounts to.
  pub record Admitted (ci : ChannelInfo) (delta : ℤ) (w' : W) : Type 0 where
    pub lanes : Lanes
    pub lanes' : Lanes
    pub balance : ℤ
    pub before : Read ci lanes balance
    -- The lanes of the chain under the vouchers of the channel and the new one.
    pub behind : lane_state before.chain (with_new_voucher sv balance ci).vouchers ≡ given lanes'
    pub grows : redeemed_sum lanes' ≡ redeemed_sum lanes +ℤ delta
    pub solvent : redeemed_sum lanes' ≤ℤ balance
    pub written : w' ≡ (put_channel_info env w (with_new_voucher sv balance ci)).0

  append_voucher-given :
      (ci : ChannelInfo) (min_delta delta balance : ℤ) (lanes : Lanes)
      → (append_voucher env w ci sv min_delta (lanes, balance)).1 ≡ given delta
      → (delta_to sv (lane_at sv.lane lanes) ≡ delta)
        × ((append_voucher env w ci sv min_delta (lanes, balance)).0
            ≡ (put_channel_info env w (with_new_voucher sv balance ci)).0)
  unfolding append_voucher
  append_voucher-given ci min_delta delta balance lanes h =
      elim (Bool-cases (ltb_ℤ (delta_to sv (lane_at sv.lane lanes)) min_delta)) [
        | inl low ↦ absurd (failed≢given (rw low at h))
        | inr enough ↦
            let (a, put, same, moved) =
              after-given (put_channel_info env w (with_new_voucher sv balance ci))
                (λ w' _. (w', given (delta_to sv (lane_at sv.lane lanes)))) (rw enough at h) in
            (given_inj same, rw enough moved)
      ]

  admit :
      (ci : ChannelInfo) (delta balance : ℤ) (lanes : Lanes) (w' : W)
      → Read ci lanes balance
      → Fits lanes balance sv
      → delta_to sv (lane_at sv.lane lanes) ≡ delta
      → w' ≡ (put_channel_info env w (with_new_voucher sv balance ci)).0
      → Admitted ci delta w'
  unfolding with_new_voucher
  admit ci delta balance lanes w' before fits change written = record {
    lanes = lanes;
    lanes' = set_lane sv.lane (lane_of sv) lanes;
    balance = balance;
    before = before;
    behind =
        lane_state-append before.chain ci.vouchers _
        ∙ ap (λ q. q >>= λ m. lane_state m (record { voucher = sv; submitted = false } ∷ []))
            before.stored
        ∙ lane_state_ahead lanes (record { voucher = sv; submitted = false }) fits.plain fits.ahead;
    grows =
        delta_grows lanes sv (lane_at sv.lane lanes) refl
        ∙ ap (λ d. redeemed_sum lanes +ℤ d) change;
    solvent = fits.covered;
    written = written;
  }

  add_to_channel_fresh :
      (ci : ChannelInfo) (min_delta : ℤ)
      → contains_voucher sv ci.vouchers ≡ false
      → add_to_channel env addr sv min_delta w ci
        ≡ after
            (w, check_voucher_valid env w addr sv)
            (λ w r. append_voucher env w ci sv min_delta r)
  unfolding add_to_channel
  add_to_channel_fresh ci min_delta fresh = rw fresh

  add_voucher_fresh :
      (ci : ChannelInfo) (min_delta : ℤ)
      → by_address env w addr ≡ given ci
      → contains_voucher sv ci.vouchers ≡ false
      → add_voucher env w addr sv min_delta
        ≡ after
            (w, check_voucher_valid env w addr sv)
            (λ w r. append_voucher env w ci sv min_delta r)
  unfolding add_voucher
  add_voucher_fresh ci min_delta found fresh =
      ap (λ q. after (w, wrap "looking for channel" q) (add_to_channel env addr sv min_delta)) found
      ∙ add_to_channel_fresh ci min_delta fresh

  check_voucher_valid-given :
      (r : Lanes × ℤ)
      → check_voucher_valid env w addr sv ≡ given r
      → (r' : Lanes × ℤ) × (read_lanes env w addr sv ≡ given r')
        × (check_against r'.0 r'.1 sv ≡ given r)
  unfolding check_voucher_valid
  check_voucher_valid-given r h = elim (Bool-cases (sv.channel_addr == addr)) [
    | inr other ↦ absurd (failed≢given (rw other at h))
    | inl same ↦
        bind-given (read_lanes env w addr sv) (λ r. check_against r.0 r.1 sv) (rw same at h)
  ]

  -- A voucher that is new to its channel and is added: the lanes of the chain under the vouchers that
  -- are then stored redeem together what they redeemed before and the value that is returned, and no
  -- more than the balance of the channel's actor; the channel is written with the voucher behind the
  -- others.
  pub add_voucher-Admitted :
      (ci : ChannelInfo) (min_delta delta : ℤ)
      → by_address env w addr ≡ given ci
      → contains_voucher sv ci.vouchers ≡ false
      → (add_voucher env w addr sv min_delta).1 ≡ given delta
      → Admitted ci delta (add_voucher env w addr sv min_delta).0
  add_voucher-Admitted ci min_delta delta found fresh h =
      let step = add_voucher_fresh ci min_delta found fresh in
      let (r, valid, appended, moved) =
        after-given (w, check_voucher_valid env w addr sv)
          (λ w r. append_voucher env w ci sv min_delta r) (ap (λ q. q.1) (sym step) ∙ h) in
      let (r', read, checked) = check_voucher_valid-given r valid in
      let (fits, e) = check_against-Fits r'.0 r'.1 sv r checked in
      let (change, put) =
        append_voucher-given ci min_delta delta r'.1 r'.0 (
          subst (λ q. (append_voucher env w ci sv min_delta q).1 ≡ given delta) (sym e) appended) in
      admit ci delta r'.1 r'.0 _ (read_lanes-Read ci r' found read) fits change (
        ap (λ q. q.0) step
        ∙ moved
        ∙ ap (λ q. (append_voucher env w ci sv min_delta q).0) (sym e)
        ∙ put)

-- ===== src/Payments/Covering.antt =====
-- When `GetChannel` of payments/manager.go answers without a request for funds.
use go_hop_exchange.Prelude.{
  ℕ, ◌≡◌, refl, ap, sym, subst, ◌∙◌, inl, inr, Option, none, some, List, [], ◌∷◌, ◌==◌, ℤ, pos,
  ◌-ℤ◌, ◌<ℤ◌, ltb_ℤ, ltb_ℤ→lt, is_zero, Bool-cases, Option-cases, eq_of_some, none≢some,
}
use go_hop_exchange.Payments.Types.{
  crashed≢given, ChannelInfo, Answer, given, failed, crashed, ◌>>=◌, wrap, Answer-cases, bind-given,
  wrap-given, given_inj,
}
use go_hop_exchange.Payments.Env.{Env, ActorState}
use go_hop_exchange.Payments.Lanes.{Lanes, redeemed_sum}
use go_hop_exchange.Payments.Store.{by_channel_id, outbound_active_by_from_to}
use go_hop_exchange.Payments.Messages.{load_actor_state}
use go_hop_exchange.Payments.Vouchers.{paych_lanes}
use go_hop_exchange.Payments.Requests.{FundsReq, filter_queue, merged_sum}
use go_hop_exchange.Payments.Funds.{
  AvailableFunds, available_funds, current_available_funds, Task, waits, done, started,
}
use go_hop_exchange.Payments.Queue.{Processed, finish, process_active, process_queue}
use go_hop_exchange.Payments.Access.{
  Access, open_at, requests, deref, address_of, choose, get_channel,
}

module _ {W : Type 0} (env : Env W) where
  -- The funds that a run reports are those of the world that it leaves.
  abbrev Reports : ℕ → Processed W → Type 0
  Reports id p = (queued : ℤ) × (p.funds ≡ current_available_funds env p.world id queued)

  finish-Reports :
      (queue : List FundsReq) (id : ℕ) (amt : ℤ) (r : W × Answer Task) (p : Processed W)
      → finish env queue id amt r ≡ some p
      → Reports id p
  unfolding finish
  finish-Reports queue id amt (w, given waits) p h = subst (Reports id) (eq_of_some h) (amt, refl)
  finish-Reports queue id amt (w, given (done res)) p h =
      subst (Reports id) (eq_of_some h) (pos 0, refl)
  finish-Reports queue id amt (w, given (started res wait)) p h =
      subst (Reports id) (eq_of_some h) (pos 0, refl)
  finish-Reports queue id amt (w, failed e) p h = absurd (none≢some h)
  finish-Reports queue id amt (w, crashed) p h = absurd (none≢some h)

  process_active-Reports :
      (w : W) (from to id : ℕ) (queue : List FundsReq) (p : Processed W)
      → process_active env w from to queue id ≡ some p
      → Reports id p
  unfolding process_active
  process_active-Reports w from to id [] p h = subst (Reports id) (eq_of_some h) (pos 0, refl)
  process_active-Reports w from to id (r ∷ rs) p h =
      let amt = merged_sum (pos 0) (r ∷ rs) in
      elim (Bool-cases (is_zero amt)) [
        | inl zero ↦ subst (Reports id) (eq_of_some (rw zero at h)) (amt, refl)
        | inr some_sum ↦ finish-Reports (r ∷ rs) id amt _ p (rw some_sum at h)
      ]

  -- What is redeemed by the lanes of a channel, which is nothing before it is on the chain.
  abbrev pub Redeemed : W → ℤ → Option ℕ → Type 0
  Redeemed w redeemed none = redeemed ≡ pos 0
  Redeemed w redeemed (some addr) =
      (st : ActorState) × (lanes : Lanes) × (load_actor_state env w addr ≡ given st)
      × (paych_lanes env w st addr ≡ given lanes)
      × (redeemed ≡ redeemed_sum lanes)

  by_address-Redeemed :
      (w : W) (queued : ℤ) (ci : ChannelInfo) (f : AvailableFunds) (o : Option ℕ)
      → (elim o [
        | none ↦ given (some (available_funds ci queued (pos 0)))
        | some addr ↦
            (load_actor_state env w addr >>= λ st. paych_lanes env w st addr >>= λ lanes.
            given (some (available_funds ci queued (redeemed_sum lanes))))
      ])
        ≡ given (some f)
      → Redeemed w f.voucher_redeemed_amt o × (f.confirmed_amt ≡ ci.amount)
  unfolding available_funds
  by_address-Redeemed w queued ci f none h =
      let e = eq_of_some (given_inj h) in
      (sym (ap (λ q. q.voucher_redeemed_amt) e), sym (ap (λ q. q.confirmed_amt) e))
  by_address-Redeemed w queued ci f (some addr) h =
      let (st, loaded, h1) = bind-given (load_actor_state env w addr) _ h in
      let (lanes, laned, same) = bind-given (paych_lanes env w st addr) _ h1 in
      let e = eq_of_some (given_inj same) in
      (
        (st, lanes, loaded, laned, sym (ap (λ q. q.voucher_redeemed_amt) e)),
        sym (ap (λ q. q.confirmed_amt) e),
      )

  current_funds-Redeemed :
      (w : W) (id : ℕ) (queued : ℤ) (f : AvailableFunds)
      → current_available_funds env w id queued ≡ given (some f)
      → (ci : ChannelInfo) × (by_channel_id env w id ≡ given ci)
        × Redeemed w f.voucher_redeemed_amt ci.channel
        × (f.confirmed_amt ≡ ci.amount)
  unfolding current_available_funds
  current_funds-Redeemed w id queued f h = elim (Bool-cases (id == 0)) [
    | inl unset ↦ absurd (none≢some (given_inj (rw unset at h)))
    | inr set ↦
        let (ci, found, rest) = bind-given (by_channel_id env w id) _ (rw set at h) in
        let (redeemed, confirmed) = by_address-Redeemed w queued ci f ci.channel rest in
        (ci, found, redeemed, confirmed)
  ]

  -- An address that `GetChannel` answers with, and what covers the amount.
  pub record Covers (from to : ℕ) (w : W) (amt : ℤ) (a : ℕ) (p : Processed W) : Type 0 where
    pub ci : ChannelInfo
    pub found : outbound_active_by_from_to env w from to ≡ given ci
    pub address : ci.channel ≡ some a
    pub ci' : ChannelInfo
    pub after_run : by_channel_id env p.world ci.channel_id ≡ given ci'
    pub redeemed : ℤ
    pub by_lanes : Redeemed p.world redeemed ci'.channel
    pub covered : amt <ℤ ci'.amount -ℤ redeemed

  choose-open_at :
      (ci : ChannelInfo) (amt : ℤ) (o : Option AvailableFunds) (a : ℕ)
      → choose ci amt o ≡ given (open_at a)
      → (f : AvailableFunds) × (o ≡ some f)
        × (ci.channel ≡ some a)
        × (amt <ℤ f.confirmed_amt -ℤ f.voucher_redeemed_amt)
  unfolding choose
  choose-open_at ci amt none a h = absurd (crashed≢given h)
  choose-open_at ci amt (some f) a h =
      elim (Bool-cases (ltb_ℤ amt (f.confirmed_amt -ℤ f.voucher_redeemed_amt))) [
        | inr low ↦ absurd (not_open (given_inj (rw low at h)))
        | inl enough ↦
            let (b, addressed, same) = bind-given (address_of ci) _ (rw enough at h) in
            (
              f,
              refl,
              address ci.channel b addressed ∙ ap some (open_inj (given_inj same)),
              ltb_ℤ→lt amt (f.confirmed_amt -ℤ f.voucher_redeemed_amt) enough,
            )
      ]
    where
      not_open : requests ≡ open_at a → ⊥
      not_open h = cc

      open_inj : {b : ℕ} → open_at b ≡ open_at a → b ≡ a
      open_inj h = cc

      address : (o : Option ℕ) (b : ℕ) → deref o ≡ given b → o ≡ some b
      address none b h = absurd (crashed≢given h)
      address (some x) b h = ap some (given_inj h)

  -- `GetChannel` answers with an address, and asks for no funds, only for an active channel between
  -- the two addresses that is at this address on the chain, where the confirmed amount less what its
  -- lanes redeem is above the amount: as the store has it once the queue was run.
  pub get_channel-Covers :
      (w : W) (from to : ℕ) (queue : List FundsReq) (amt : ℤ) (p : Processed W) (a : ℕ)
      → get_channel env w from to queue amt ≡ some (some p, given (open_at a))
      → Covers from to w amt a p
  unfolding get_channel process_queue
  get_channel-Covers w from to queue amt p a h =
      elim (Answer-cases (outbound_active_by_from_to env w from to)) [
        | inr (inr gone) ↦ absurd (none≢some (rw (gone, get_channel) at h))
        | inr (inl (e, lost)) ↦
            absurd (none≢some (ap (λ q. q.0) (eq_of_some (rw (lost, get_channel) at h))))
        | inl (ci, found) ↦ elim (Option-cases (process_queue env w from to queue ci.channel_id)) [
          | inl panic ↦ absurd (none≢some (rw panic at (rw (found, get_channel) at h)))
          | inr (p', ran) ↦
              covering ci p' found ran (eq_of_some (rw ran at (rw (found, get_channel) at h)))
        ]
      ]
    where
      covering :
          (ci : ChannelInfo) (p' : Processed W)
          → outbound_active_by_from_to env w from to ≡ given ci
          → process_queue env w from to queue ci.channel_id ≡ some p'
          → ◌≡◌ {A = Option (Processed W) × Answer Access}
              (some p', (wrap "unable to get channel available funds" p'.funds >>= choose ci amt))
              (some p, given (open_at a))
          → Covers from to w amt a p
      covering ci p' found ran e =
          let same = eq_of_some (ap (λ q. q.0) e) in
          let (o, wrapped, chosen) =
            bind-given (wrap "unable to get channel available funds" p'.funds) (choose ci amt)
              (ap (λ q. q.1) e) in
          let (f, there, address, above) = choose-open_at ci amt o a chosen in
          let (queued, reported) =
            process_active-Reports w from to ci.channel_id (filter_queue queue) p' ran in
          let (ci', after_run, by_lanes, confirmed) =
            current_funds-Redeemed p'.world ci.channel_id queued f (
              sym reported
              ∙ wrap-given "unable to get channel available funds" _ wrapped
              ∙ ap given there) in
          subst (Covers from to w amt a) same (record {
            ci = ci;
            found = found;
            address = address;
            ci' = ci';
            after_run = after_run;
            redeemed = f.voucher_redeemed_amt;
            by_lanes = by_lanes;
            covered = subst (λ x. amt <ℤ x -ℤ f.voucher_redeemed_amt) confirmed above;
          })

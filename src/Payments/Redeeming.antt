-- ===== src/Payments/Redeeming.antt =====
-- payments/manager.go: the vouchers that are worth submitting, the settling of a channel, and the
-- collection of those that have settled.
use Prim.Native.String.{String, ◌++◌ as ◌<>◌}
use go_hop_exchange.Prelude.{
  ℕ, Bool, true, false, Option, none, some, List, [], ◌∷◌, ◌==◌, if◌then◌else◌, ℤ, ltb_ℤ, length,
}
use go_hop_exchange.Payments.Types.{
  Voucher, VoucherInfo, ChannelInfo, text, Answer, given, failed, crashed, ◌>>=◌, wrap,
}
use go_hop_exchange.Payments.Env.{Env, Receipt, of_result, after}
use go_hop_exchange.Payments.Store.{
  by_address, vouchers_for_paych, put_channel_info, list_settling_channels, set_channel_settling_at,
}
use go_hop_exchange.Payments.Messages.{
  load_actor_state, mpool_push, settle_message, collect_message,
}
use go_hop_exchange.Payments.Vouchers.{check_voucher_spendable, submit_voucher}
use go_hop_exchange.Payments.Funds.{mutate_channel_info}

-- `bestByLane`, at most one voucher for a lane.
unfoldable pub best_at : ℕ → List Voucher → Option Voucher
best_at lane [] = none
best_at lane (v ∷ vs) = if v.lane == lane then some v else best_at lane vs

unfoldable pub set_best : Voucher → List Voucher → List Voucher
set_best v [] = v ∷ []
set_best v (x ∷ xs) = let rest = set_best v xs in if x.lane == v.lane then v ∷ xs else x ∷ rest

abbrev pub is_better : Voucher → Option Voucher → Bool
is_better v none = true
is_better v (some x) = ltb_ℤ x.amount v.amount

-- One spendable voucher of the loop of `bestSpendableByLane`.
unfoldable pub keep_best : List Voucher → Voucher → List Voucher
unfolding best_at set_best
keep_best best v = if is_better v (best_at v.lane best) then set_best v best else best

-- The loop of `bestSpendableByLane`, where a test says what is spendable.
unfoldable pub best_of :
    (Voucher → Answer Bool) → List Voucher → List VoucherInfo → Answer (List Voucher)
unfolding keep_best
best_of spendable best [] = given best
best_of spendable best (v ∷ vs) = elim (spendable v.voucher) [
  | given true ↦ best_of spendable (keep_best best v.voucher) vs
  | given false ↦ best_of spendable best vs
  | failed e ↦ failed e
  | crashed ↦ crashed
]

-- What a submission adds to the messages of those behind it.
unfoldable pub counted : {W : Type 0} → W → Answer ℕ → W × Answer (List ℕ) → W × Answer (List ℕ)
counted w (given mcid) rest = (rest.0, (rest.1 >>= λ mcids. given (mcid ∷ mcids)))
counted w (failed _) rest = rest
counted w crashed rest = (w, crashed)

module _ {W : Type 0} (env : Env W) where
  -- `bestSpendableByLane`, with the secret and the proof that it passes on, which are none.
  unfoldable pub best_spendable_by_lane : W → ℕ → ℕ → Answer (List Voucher)
  unfolding vouchers_for_paych check_voucher_spendable best_of
  best_spendable_by_lane w to addr =
      vouchers_for_paych env w addr
      >>= best_of (λ sv. check_voucher_spendable env w to addr sv 0) []

  -- The loop of `SubmitAllVouchers`: the messages that are sent, whose go-routines call `Done`; a
  -- voucher that is not submitted is passed over.
  unfoldable pub submit_each : W → ℕ → List Voucher → W × Answer (List ℕ)
  unfolding submit_voucher counted
  submit_each w addr [] = (w, given [])
  submit_each w addr (v ∷ vs) =
      let (w', r) = submit_voucher env w addr v 0 in
      let rest = submit_each w' addr vs in counted w' r rest

  -- `SubmitAllVouchers` up to `Wait`: how often `Done` is waited for, and how often it is called.
  unfoldable pub submit_all_vouchers : W → ℕ → ℕ → W × Answer (ℕ × ℕ)
  unfolding best_spendable_by_lane submit_each
  submit_all_vouchers w to addr =
      after (w, (by_address env w addr >>= λ _. best_spendable_by_lane w to addr))
        (λ w best. elim best [
          | [] ↦ (w, failed (text "no vouchers to redeem"))
          | v ∷ vs ↦
              after (submit_each w addr (v ∷ vs))
                (λ w' mcids. (w', given (length (v ∷ vs), length mcids)))
        ])

  -- `settle`: the channel is marked, and the error of the store is returned.
  unfoldable pub settle_channel : W → ℕ → W × Answer ℕ
  unfolding by_address mpool_push put_channel_info
  settle_channel w addr =
      after (w, by_address env w addr)
        (λ w ci. after (mpool_push env w (settle_message ci.control addr)) (λ w smsg.
          after (put_channel_info env w (record ci { settling = true }))
            (λ w' _. (w', given (env.message_cid smsg)))))

  -- The wait of `Settle` and of `collectForEpoch` for a message, with what they make of its errors.
  unfoldable pub await :
      (Answer Receipt → Answer Receipt) → (ℕ → String) → W → ℕ → W × Answer (Unit {0})
  await unread exited w mcid =
      let (w', r) = env.wait_msg w mcid in
      (
        w',
        (unread (of_result r) >>= λ receipt.
            if receipt.exit_code == 0 then given tt else failed (text (exited receipt.exit_code))),
      )

  -- The end of `Settle`, once the message is confirmed: from when on the channel can be collected.
  unfoldable pub store_settling_at : W → ℕ → W × Answer (Unit {0})
  unfolding by_address load_actor_state set_channel_settling_at
  store_settling_at w addr =
      after {A = ℤ × ChannelInfo}
        (
          w,
          (load_actor_state env w addr >>= λ st.
              by_address env w addr >>= λ ci. given (st.settling_at, ci)),
        )
        (λ w r. after (set_channel_settling_at env w r.1 r.0) (λ w' _. (w', given tt)))

  -- `Settle`
  unfoldable pub settle : W → ℕ → W × Answer (Unit {0})
  unfolding by_address settle_channel await store_settling_at
  settle w addr =
      after (w, by_address env w addr)
        (λ w _. after (settle_channel w addr) (λ w mcid.
          after (await (λ a. a) (λ code. "payment execution failed") w mcid)
            (λ w _. store_settling_at w addr)))

  -- `collect`
  unfoldable pub collect : W → ℕ → W × Answer ℕ
  unfolding by_address mpool_push
  collect w addr =
      after (w, by_address env w addr)
        (λ w ci.
          after (mpool_push env w (collect_message ci.control addr))
            (λ w' smsg. (w', given (env.message_cid smsg))))

  -- The wait of `collectForEpoch`.
  unfoldable pub await_collect : W → ℕ → ℕ → W × Answer (Unit {0})
  unfolding await
  await_collect w addr mcid =
      await (wrap ("waiting to collect channel " <> env.show addr))
        (λ code. "collecting channel " <> env.show addr <> " failed with code " <> env.show code) w
        mcid

  -- One channel of `collectForEpoch`, which is due.
  unfoldable pub collect_due : W → ChannelInfo → W × Answer (Unit {0})
  unfolding collect await_collect mutate_channel_info
  collect_due w sci = elim sci.channel [
    | none ↦ (w, crashed)
    | some addr ↦ after (collect w addr) (λ w mcid. after (await_collect w addr mcid) (λ w _. (
      mutate_channel_info env w sci.channel_id (λ ci. record ci { settling = false }),
      given tt,
    )))
  ]

  abbrev pub is_due : ℤ → ChannelInfo → Bool
  is_due epoch sci = ltb_ℤ sci.settling_at epoch

  -- The loop of `collectForEpoch`, which ends at the first error.
  unfoldable pub collect_each : W → ℤ → List ChannelInfo → W × Answer (Unit {0})
  unfolding collect_due
  collect_each w epoch [] = (w, given tt)
  collect_each w epoch (sci ∷ rest) = elim (is_due epoch sci) [
    | true ↦ after (collect_due w sci) (λ w' _. collect_each w' epoch rest)
    | false ↦ collect_each w epoch rest
  ]

  -- `collectForEpoch`
  unfoldable pub collect_for_epoch : W → ℤ → W × Answer (Unit {0})
  unfolding list_settling_channels collect_each
  collect_for_epoch w epoch =
      after (w, list_settling_channels env w) (λ w cis. collect_each w epoch cis)

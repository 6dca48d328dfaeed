-- ===== src/Retrieval/Settling.antt =====
-- retrieval/manager.go: `SettlePaymentChannels`, which a provider's events run. The payment manager is
-- an argument.
use Prim.Native.String.{String}
use go_hop_exchange.Prelude.{
  ℕ, Bool, true, false, Option, none, some, if◌then◌else◌, ℤ, pos, ◌-ℤ◌, leb_ℤ, Result, ok, err,
}
use go_hop_exchange.Deal.Status.{Status, completed, cancelled, errored}
use go_hop_exchange.Provider.Chart.{ProviderState}

-- The calls of `payments.Manager`; of the funds there are the confirmed and the redeemed amount.
pub record Payments (W : Type 0) : Type 0 where
  pub channel_available_funds : W → ℕ → W × Result (ℤ × ℤ)
  pub submit_all_vouchers : W → ℕ → W × Option String
  pub settle : W → ℕ → W × Option String

abbrev pub is_final : Status → Bool
is_final completed = true
is_final cancelled = true
is_final errored = true
is_final _ = false

module _ {W : Type 0} (pay : Payments W) where
  -- The end of the go-routine, with the funds that it read at its begin.
  unfoldable pub settle_if_spent : W → ℕ → ℤ × ℤ → W
  settle_if_spent w ch (confirmed, redeemed) =
      if leb_ℤ (confirmed -ℤ redeemed) (pos 0) then (pay.settle w ch).0 else w

  -- The go-routine; its errors are logged only.
  unfoldable pub redeem : W → ℕ → W
  unfolding settle_if_spent
  redeem w ch =
      let (w1, funds) = pay.channel_available_funds w ch in
      elim funds [
        | err e ↦ w1
        | ok f ↦
            let (w2, e) = pay.submit_all_vouchers w1 ch in
            elim e [ some e ↦ w2 | none ↦ settle_if_spent w2 ch f ]
      ]

  -- The subscriber.
  unfoldable pub settle_payment_channels : W → ProviderState → W
  unfolding redeem
  settle_payment_channels w ds = elim (is_final ds.status) [
    | false ↦ w
    | true ↦ elim ds.pay_ch [ none ↦ w | some ch ↦ redeem w ch ]
  ]

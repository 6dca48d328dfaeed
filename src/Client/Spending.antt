-- ===== src/Client/Spending.antt =====
-- What a client pays: the handlers and actions of retrieval/client/fsm.go that touch its funds.
use go_hop_exchange.Prelude.{
  ℕ, ◌^◌, ◌≤◌, ◌<◌, ◌≡◌, refl, ap, inl, inr, Bool, true, false, ◌&&◌, not, Option, none, some,
  arith, ℤ, pos, ◌+ℤ◌, ◌*ℤ◌, ◌≤ℤ◌, ◌<ℤ◌, int_laws, *ℤ_mono, ltb_ℤ, leb_ℤ, ltb, ltb→ge, leb_ℤ→gt,
  if◌then◌else◌, from_int64, from_int64_small, Result-cases, Bool-cases, eq_of_some, none≢some,
  map-eq-some,
}
use native.Mathlib.Nat.{le_refl}
use go_hop_exchange.Client.Chart.{ClientState, PaymentInfo, Event, payment_sent}
use go_hop_exchange.Client.Handlers.{
  DealEnvironment, calc_amount_to_send, send_voucher, pay_with, on_send_funds,
}

-- The price of the data received so far, and of the unsealing.
abbrev pub price_of_received : ClientState → ℤ
price_of_received ds = pos ds.total_received *ℤ ds.price_per_byte +ℤ ds.unseal_price

if_le :
    (b : Bool) (x y z : ℤ) → (b ≡ true → x ≤ℤ z) → (b ≡ false → y ≤ℤ z) → (if b then x else y) ≤ℤ z
if_le true x y z hx hy = hx refl
if_le false x y z hx hy = hy refl

price-mono :
    (a b p u : ℕ) → a ≤ b → b < 2 ^ 63 → from_int64 a *ℤ pos p +ℤ pos u ≤ℤ pos b *ℤ pos p +ℤ pos u
price-mono a b p u h small =
    rw (from_int64_small a (omega arith)) (omega (int_laws, *ℤ_mono a b p h))

price-nonneg : (a p u : ℕ) → pos 0 ≤ℤ pos a *ℤ pos p +ℤ pos u
unfolding ◌*ℤ◌ ◌+ℤ◌
price-nonneg a p u = ground arith

-- The amount of a payment that an event tells of.
paid_amount : Event → Option ℤ
paid_amount (payment_sent amount) = some amount
paid_amount _ = none

send_voucher-amount :
    {W : Type 0} (env : DealEnvironment W) (w w' : W) (ds : ClientState) (pay_ch voucher : ℕ)
    (price amount : ℤ)
    → send_voucher env w ds pay_ch price voucher ≡ (w', payment_sent amount)
    → price ≡ amount
unfolding send_voucher paid_amount
send_voucher-amount env w w' ds pay_ch voucher price amount h =
    elim (Result-cases (env.send_data_transfer_voucher w ds.channel_id ds.id pay_ch voucher).1) [
      | inl (e, lost) ↦
          absurd (none≢some (ap (λ q. paid_amount q.1) (rw (lost, send_voucher) at h)))
      | inr (t, sent) ↦ eq_of_some (ap (λ q. paid_amount q.1) (rw (sent, send_voucher) at h))
    ]

pay_with-amount :
    {W : Type 0} (env : DealEnvironment W) (w w' : W) (ds : ClientState) (price amount : ℤ)
    (info : PaymentInfo)
    → pay_with env w ds price info ≡ (w', payment_sent amount)
    → price ≡ amount
unfolding pay_with paid_amount
pay_with-amount env w w' ds price amount info h =
    let call = env.create_voucher w info.pay_ch price info.lane in
    elim (Result-cases call.1) [
      | inl (e, bad) ↦ absurd (none≢some (ap (λ q. paid_amount q.1) (rw (bad, pay_with) at h)))
      | inr (v, good) ↦ elim (Bool-cases (ltb_ℤ (pos 0) v.shortfall)) [
        | inl short ↦
            absurd (none≢some (ap (λ q. paid_amount q.1) (rw (good, pay_with, short) at h)))
        | inr covered ↦
            send_voucher-amount env call.0 w' ds info.pay_ch v.voucher price amount
              (rw (good, pay_with, covered) at h)
      ]
    ]

-- Where `SendFunds` ends with a payment, it is of the amount due, which is more than was spent.
on_send_funds-amount :
    {W : Type 0} (env : DealEnvironment W) (w w' : W) (ds : ClientState) (amount : ℤ)
    → on_send_funds env w ds ≡ some (w', payment_sent amount)
    → (leb_ℤ (calc_amount_to_send ds) ds.funds_spent ≡ false) × (calc_amount_to_send ds ≡ amount)
unfolding on_send_funds paid_amount
on_send_funds-amount env w w' ds amount h =
    elim (Bool-cases (leb_ℤ (calc_amount_to_send ds) ds.funds_spent)) [
      | inl enough ↦
          absurd
            (none≢some (ap (λ q. paid_amount q.1) (eq_of_some (rw (enough, on_send_funds) at h))))
      | inr more ↦
          let price = calc_amount_to_send ds in
          let (info, has, paid) =
            map-eq-some (pay_with env w ds price) ds.payment_info (rw (more, on_send_funds) at h) in
          (more, pay_with-amount env w w' ds price amount info paid)
    ]

module _ (ds : ClientState) (p u : ℕ) (price : ds.price_per_byte ≡ pos p)
    (unseal : ds.unseal_price ≡ pos u) (small : ds.total_received < 2 ^ 63) where
  amount-le :
      (bytes : ℕ)
      → bytes ≤ ds.total_received
      → from_int64 bytes *ℤ ds.price_per_byte +ℤ ds.unseal_price ≤ℤ price_of_received ds
  amount-le bytes h = rw (price, unseal) (price-mono bytes ds.total_received p u h small)

  nothing-le : pos 0 ≤ℤ price_of_received ds
  nothing-le = rw (price, unseal) (price-nonneg ds.total_received p u)

  -- What is sent is never more than the price of what was received.
  calc-le : calc_amount_to_send ds ≤ℤ price_of_received ds
  unfolding calc_amount_to_send
  calc-le =
      if_le (leb_ℤ ds.unseal_price ds.unseal_funds_paid && not ds.all_blocks_received) _ _
        (price_of_received ds)
        (λ _.
          if_le (ltb ds.total_received ds.current_interval) _ _ (price_of_received ds)
            (λ _. nothing-le) (λ e. amount-le ds.current_interval (ltb→ge _ _ e)))
        (λ _. amount-le ds.total_received (le_refl _))

  -- A payment is sent only for more than was spent before, and never for more than the price of the
  -- bytes received and the unsealing: for prices that are not negative and fewer than 2^63 bytes.
  pub on_send_funds-bounded :
      {W : Type 0} (env : DealEnvironment W) (w w' : W) (amount : ℤ)
      → on_send_funds env w ds ≡ some (w', payment_sent amount)
      → (ds.funds_spent <ℤ amount) × (amount ≤ℤ price_of_received ds)
  unfolding on_send_funds
  on_send_funds-bounded env w w' amount h =
      let (more, same) = on_send_funds-amount env w w' ds amount h in
      (rw (← same) (leb_ℤ→gt (calc_amount_to_send ds) ds.funds_spent more), rw (← same) calc-le)

-- ===== src/Provider/Payments.antt =====
-- When a payment lets a transfer go on: `processPayment` of retrieval/validators.go against the
-- schedule of the deal.
use Prim.Native.String.{String}
use go_hop_exchange.Prelude.{
  ℕ, suc, ◌^◌, ◌<◌, ◌≡◌, ◌≢◌, sym, ap, ◌∙◌, ◌⊎◌, inl, inr, true, false, Option, some, ℤ, pos, ◌+ℤ◌,
  ◌*ℤ◌, ◌≤ℤ◌, ◌<ℤ◌, ltb_ℤ, ltb_ℤ→lt, subst, from_int64, from_int64_small, Result-cases, ok,
  Bool-cases, Option-cases, eq_of_some, none≢some,
}
use go_hop_exchange.Deal.Params.{interval_lower_bound}
use go_hop_exchange.Deal.Schedule.{boundary, Fits}
use go_hop_exchange.Deal.Intervals.{interval-neighbours}
use go_hop_exchange.Deal.Offer.{Response}
use go_hop_exchange.Provider.Chart.{ProviderState}
use go_hop_exchange.Provider.Revalidator.{
  Identifier, Payment, Signal, owed_response, pause, resume, failed, Env, payment_owed,
}
use go_hop_exchange.Provider.Meter.{settle_payment, process_payment}
use go_hop_exchange.Provider.Owed.{Covered, Missing, payment_owed-Covered, payment_owed-Missing}

failed≢pause : {e : String} → failed e ≢ pause
failed≢pause h = cc

failed≢resume : {e : String} → failed e ≢ resume
failed≢resume h = cc

resume≢pause : resume ≢ pause
resume≢pause h = cc

module _ {W : Type 0} (env : Env W) (id : Identifier) (payment : Payment) where
  settle_payment-pause :
      (w : W) (d : ProviderState) (received owed : ℤ)
      → (settle_payment env w d id payment received owed).1 ≡ pause
      → ltb_ℤ (pos 0) owed ≡ true
  unfolding settle_payment
  settle_payment-pause w d received owed h = elim (Bool-cases (ltb_ℤ (pos 0) owed)) [
    | inl owes ↦ owes
    | inr covered ↦ absurd (resume≢pause (rw covered at h))
  ]

  settle_payment-resume :
      (w : W) (d : ProviderState) (received owed : ℤ)
      → (settle_payment env w d id payment received owed).1 ≡ resume
      → ltb_ℤ (pos 0) owed ≡ false
  unfolding settle_payment
  settle_payment-resume w d received owed h = elim (Bool-cases (ltb_ℤ (pos 0) owed)) [
    | inl owes ↦ absurd (resume≢pause (sym (rw owes at h)))
    | inr covered ↦ covered
  ]

  settle_payment-response :
      (w : W) (d : ProviderState) (received owed : ℤ)
      → ltb_ℤ (pos 0) owed ≡ true
      → (settle_payment env w d id payment received owed).0
        ≡ some (owed_response d.id d.status owed)
  unfolding settle_payment
  settle_payment-response w d received owed h = rw h

module _ {W : Type 0} (env : Env W) (w : W) (id : Identifier) (payment : Payment) where
  -- A payment that was looked at to its end: the deal was found and the voucher was added.
  pub record Settled (reply : Option Response × Signal × W) : Type 0 where
    pub d : ProviderState
    pub received : ℤ
    pub owed : ℤ
    pub found : env.get w id ≡ ok d
    pub added :
        (env.add_voucher_inbound w payment.payment_channel payment.payment_voucher).1 ≡ ok received
    pub owes : payment_owed d (d.funds_received +ℤ received) ≡ some owed
    pub outcome :
        settle_payment env
          (env.add_voucher_inbound w payment.payment_channel payment.payment_voucher).0
          d
          id
          payment
          received
          owed
        ≡ reply

  process_payment-Settled :
      (reply : Option Response × Signal × W)
      → process_payment env w id payment ≡ some reply
      → ((e : String) × (reply.1 ≡ failed e)) ⊎ Settled reply
  unfolding process_payment
  process_payment-Settled reply h = elim (Result-cases (env.get w id)) [
    | inl (e, lost) ↦ inl (e, sym (ap (λ r. r.1) (eq_of_some (rw (lost, process_payment) at h))))
    | inr (d, found) ↦
        let call = env.add_voucher_inbound w payment.payment_channel payment.payment_voucher in
        elim (Result-cases call.1) [
          | inl (e, bad) ↦
              inl (e, sym (ap (λ r. r.1) (eq_of_some (rw (found, process_payment, bad) at h))))
          | inr (received, added) ↦
              elim (Option-cases (payment_owed d (d.funds_received +ℤ received))) [
                | inl hangs ↦ absurd (none≢some (rw (found, process_payment, added, hangs) at h))
                | inr (owed, owes) ↦ inr (record {
                  d = d;
                  received = received;
                  owed = owed;
                  found = found;
                  added = added;
                  owes = owes;
                  outcome = eq_of_some (rw (found, process_payment, added, owes) at h);
                })
              ]
        ]
  ]

  -- A payment lets the transfer go on only if the voucher was added and the funds of the deal, with
  -- it, cover the unsealing and the whole transfer up to the lower bound of the current interval.
  process_payment-resume :
      (reply : Option Response × Signal × W)
      → process_payment env w id payment ≡ some reply
      → reply.1 ≡ resume
      → (d : ProviderState) × (received : ℤ) × (env.get w id ≡ ok d)
        × ((env.add_voucher_inbound w payment.payment_channel payment.payment_voucher).1
            ≡ ok received)
        × Covered d (d.funds_received +ℤ received)
  process_payment-resume reply h resumed = elim (process_payment-Settled reply h) [
    | inl (e, bad) ↦ absurd (failed≢resume (sym bad ∙ resumed))
    | inr s ↦ (
      s.d,
      s.received,
      s.found,
      s.added,
      payment_owed-Covered s.d _ s.owed s.owes (
          settle_payment-resume env id payment after s.d s.received s.owed
            (ap (λ r. r.1) s.outcome ∙ resumed)),
    )
  ]
    where
      after : W
      after = (env.add_voucher_inbound w payment.payment_channel payment.payment_voucher).0

  -- A payment that does not suffice pauses the transfer, and the answer asks for exactly what is
  -- missing: to the price of unsealing while that is not met, and otherwise to the price of unsealing
  -- and of the transfer up to the lower bound of the current interval. It asks for more than 0.
  pub process_payment-pause :
      (reply : Option Response × Signal × W)
      → process_payment env w id payment ≡ some reply
      → reply.1 ≡ pause
      → (d : ProviderState) × (received : ℤ) × (owed : ℤ) × (env.get w id ≡ ok d)
        × ((env.add_voucher_inbound w payment.payment_channel payment.payment_voucher).1
            ≡ ok received)
        × (reply.0 ≡ some (owed_response d.id d.status owed))
        × (pos 0 <ℤ owed)
        × Missing d (d.funds_received +ℤ received) owed
  process_payment-pause reply h paused = elim (process_payment-Settled reply h) [
    | inl (e, bad) ↦ absurd (failed≢pause (sym bad ∙ paused))
    | inr s ↦
        let owes =
          settle_payment-pause env id payment after s.d s.received s.owed
            (ap (λ r. r.1) s.outcome ∙ paused) in
        (
          s.d,
          s.received,
          s.owed,
          s.found,
          s.added,
          sym (ap (λ r. r.0) s.outcome)
              ∙ settle_payment-response env id payment after s.d s.received s.owed owes,
          ltb_ℤ→lt (pos 0) s.owed owes,
          payment_owed-Missing s.d _ s.owed s.owes,
        )
  ]
    where
      after : W
      after = (env.add_voucher_inbound w payment.payment_channel payment.payment_voucher).0

ok-inj {ℓ} : {A : Type ℓ} {a b : A} → ok a ≡ ok b → a ≡ b
ok-inj h = cc

-- The credit of a client: where a payment lets a transfer go on at the boundary k + 1 of the
-- schedule, everything up to boundary k is paid for, and the unsealing. The deal and the voucher are
-- the ones that the environment gives; the interval is not 0, the sums stay below 2^64 and the paid
-- part below 2^63.
pub resume_pays_boundary :
    {W : Type 0} (env : Env W) (w : W) (id : Identifier) (payment : Payment)
    (reply : Option Response × Signal × W) (d : ProviderState) (received : ℤ) (k : ℕ)
    → env.get w id ≡ ok d
    → (env.add_voucher_inbound w payment.payment_channel payment.payment_voucher).1 ≡ ok received
    → 0 < d.payment_interval
    → Fits d.params (boundary d.params (suc k))
    → boundary d.params k < 2 ^ 63
    → d.current_interval ≡ boundary d.params (suc k)
    → process_payment env w id payment ≡ some reply
    → reply.1 ≡ resume
    → d.unseal_price +ℤ pos (boundary d.params k) *ℤ d.price_per_byte
      ≤ℤ d.funds_received +ℤ received
resume_pays_boundary env w id payment reply d received k found added positive fits small here h
      resumed =
    let (d', received', found', added', covered) =
      process_payment-resume env w id payment reply h resumed in
    let same = ok-inj (sym found' ∙ found) in
    let paid = ok-inj (sym added' ∙ added) in
    let c : Covered d (d.funds_received +ℤ received) =
      subst (λ q. Covered d (d.funds_received +ℤ q)) paid
        (subst (λ q. Covered q (q.funds_received +ℤ received')) same covered) in
    let low : c.low ≡ boundary d.params k = eq_of_some (
      sym c.bound
      ∙ ap (interval_lower_bound d.params) here
      ∙ (interval-neighbours d.params k positive fits).0) in
    subst (λ q. d.unseal_price +ℤ q *ℤ d.price_per_byte ≤ℤ d.funds_received +ℤ received)
      (ap from_int64 low ∙ from_int64_small (boundary d.params k) small) c.transfer

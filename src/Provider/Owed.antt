-- ===== src/Provider/Owed.antt =====
-- What `paymentOwed` of retrieval/validators.go asks for.
use go_hop_exchange.Prelude.{
  ℕ, ◌≡◌, inl, inr, true, false, some, arith, ℤ, pos, ◌+ℤ◌, ◌-ℤ◌, ◌*ℤ◌, ◌≤ℤ◌, ◌<ℤ◌, int_laws,
  -ℤ_parts, ltb_ℤ, ltb_ℤ→ge, ltb_ℤ→lt, subst, from_int64, Bool-cases, Option-cases, eq_of_some,
  none≢some, +ℤ_cancel,
}
use go_hop_exchange.Deal.Params.{interval_lower_bound}
use go_hop_exchange.Provider.Chart.{ProviderState}
use go_hop_exchange.Provider.Revalidator.{payment_owed}

-- What a total has to cover: the unsealing, and the transfer up to the lower bound.
pub record Covered (d : ProviderState) (total : ℤ) : Type 0 where
  pub low : ℕ
  pub bound : interval_lower_bound d.params d.current_interval ≡ some low
  pub unsealing : d.unseal_price ≤ℤ total
  pub transfer : d.unseal_price +ℤ from_int64 low *ℤ d.price_per_byte ≤ℤ total

-- What is missing to it.
pub data Missing (d : ProviderState) (total owed : ℤ) : Type 0 where
  unsealing : total <ℤ d.unseal_price → total +ℤ owed ≡ d.unseal_price → Missing d total owed
  transfer :
      (low : ℕ)
      → interval_lower_bound d.params d.current_interval ≡ some low
      → d.unseal_price ≤ℤ total
      → total +ℤ owed ≡ d.unseal_price +ℤ from_int64 low *ℤ d.price_per_byte
      → Missing d total owed

not_covered : (u t : ℤ) → ltb_ℤ (pos 0) (u -ℤ t) ≡ false → ltb_ℤ t u ≡ true → ⊥
not_covered u t h k = omega (arith, ltb_ℤ→ge (pos 0) (u -ℤ t) h, ltb_ℤ→lt t u k, -ℤ_parts u t)

covers : (cost total unseal : ℤ) → cost -ℤ (total -ℤ unseal) ≤ℤ pos 0 → unseal +ℤ cost ≤ℤ total
covers cost total unseal h = omega int_laws

fills : (cost total unseal : ℤ) → total +ℤ (cost -ℤ (total -ℤ unseal)) ≡ unseal +ℤ cost
fills cost total unseal = omega int_laws

pub payment_owed-Covered :
    (d : ProviderState) (total owed : ℤ)
    → payment_owed d total ≡ some owed
    → ltb_ℤ (pos 0) owed ≡ false
    → Covered d total
unfolding payment_owed
payment_owed-Covered d total owed h covered = elim (Bool-cases (ltb_ℤ total d.unseal_price)) [
  | inl short ↦
      let e : d.unseal_price -ℤ total ≡ owed = eq_of_some (rw short at h) in
      absurd (not_covered d.unseal_price total (rw (← e) at covered) short)
  | inr paid ↦ elim (Option-cases (interval_lower_bound d.params d.current_interval)) [
    | inl lost ↦ absurd (none≢some (rw (paid, lost) at h))
    | inr (low, bound) ↦
        let cost = from_int64 low *ℤ d.price_per_byte in
        let e : cost -ℤ (total -ℤ d.unseal_price) ≡ owed = eq_of_some (rw (paid, bound) at h) in
        record {
          low = low;
          bound = bound;
          unsealing = ltb_ℤ→ge total d.unseal_price paid;
          transfer = covers cost total d.unseal_price (ltb_ℤ→ge (pos 0) _ (rw (← e) at covered));
        }
  ]
]

pub payment_owed-Missing :
    (d : ProviderState) (total owed : ℤ) → payment_owed d total ≡ some owed → Missing d total owed
unfolding payment_owed
payment_owed-Missing d total owed h = elim (Bool-cases (ltb_ℤ total d.unseal_price)) [
  | inl short ↦
      let e : d.unseal_price -ℤ total ≡ owed = eq_of_some (rw short at h) in
      unsealing (ltb_ℤ→lt total d.unseal_price short)
        (subst (λ o. total +ℤ o ≡ d.unseal_price) e (+ℤ_cancel total d.unseal_price))
  | inr paid ↦ elim (Option-cases (interval_lower_bound d.params d.current_interval)) [
    | inl lost ↦ absurd (none≢some (rw (paid, lost) at h))
    | inr (low, bound) ↦
        let cost = from_int64 low *ℤ d.price_per_byte in
        let e : cost -ℤ (total -ℤ d.unseal_price) ≡ owed = eq_of_some (rw (paid, bound) at h) in
        transfer low bound (ltb_ℤ→ge total d.unseal_price paid)
          (subst (λ o. total +ℤ o ≡ d.unseal_price +ℤ cost) e (fills cost total d.unseal_price))
  ]
]

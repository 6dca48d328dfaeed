-- ===== src/Payments/Best.antt =====
-- What payments/manager.go picks for redemption.
use go_hop_exchange.Prelude.{
  ℕ, ◌≡◌, refl, ap, sym, ◌∙◌, subst, ◌⊎◌, inl, inr, Bool, true, false, Option, none, some, List, [],
  ◌∷◌, arith, ◌==◌, if◌then◌else◌, Bool-cases, All, ==_self, ◌≤ℤ◌, ltb_ℤ→ge, ltb_ℤ→lt,
}
use go_hop_exchange.Payments.Types.{
  failed≢given, crashed≢given, Voucher, VoucherInfo, Answer, given, Answer-cases, given_inj,
}
use go_hop_exchange.Payments.Redeeming.{best_at, set_best, is_better, keep_best, best_of}

best_at-set_best :
    (lane : ℕ) (v : Voucher) (m : List Voucher)
    → best_at lane (set_best v m) ≡ (if v.lane == lane then some v else best_at lane m)
unfolding best_at set_best
best_at-set_best lane v [] = refl
best_at-set_best lane v (x ∷ m) = ground (arith, best_at-set_best lane v m)

-- A lane has a voucher that is worth at least this one.
abbrev pub Bested : Voucher → Option Voucher → Type 0
Bested v none = ⊥
Bested v (some b) = v.amount ≤ℤ b.amount

lane_eq : (a b : ℕ) → (a == b) ≡ true → a ≡ b
lane_eq a b h = ground arith

keep_best-Bested :
    (m : List Voucher) (v x : Voucher)
    → Bested x (best_at x.lane m)
    → Bested x (best_at x.lane (keep_best m v))
unfolding keep_best
keep_best-Bested m v x h = elim (Bool-cases (is_better v (best_at v.lane m))) [
  | inr worse ↦ rw worse h
  | inl better ↦ rw better (
      subst (Bested x) (sym (best_at-set_best x.lane v m))
        (by_lane (Bool-cases (v.lane == x.lane)) better))
]
  where
    over : (o : Option Voucher) → Bested x o → is_better v o ≡ true → x.amount ≤ℤ v.amount
    over none b e = absurd b
    over (some y) b e = omega (arith, ltb_ℤ→lt y.amount v.amount e)

    by_lane :
        ((v.lane == x.lane) ≡ true) ⊎ ((v.lane == x.lane) ≡ false)
        → is_better v (best_at v.lane m) ≡ true
        → Bested x (if v.lane == x.lane then some v else best_at x.lane m)
    by_lane (inl same) better =
        let e = lane_eq v.lane x.lane same in
        rw same (over (best_at x.lane m) h (ap (λ l. is_better v (best_at l m)) (sym e) ∙ better))
    by_lane (inr other) better = rw other h

keep_best_self : (m : List Voucher) (v : Voucher) → Bested v (best_at v.lane (keep_best m v))
unfolding keep_best
keep_best_self m v = elim (Bool-cases (is_better v (best_at v.lane m))) [
  | inl better ↦ rw better (
      subst (Bested v)
        (sym (
          best_at-set_best v.lane v m
          ∙ ap (λ b. if b then some v else best_at v.lane m) (==_self v.lane)))
        (omega arith))
  | inr worse ↦ rw worse (not_better (best_at v.lane m) worse)
]
  where
    not_better : (o : Option Voucher) → is_better v o ≡ false → Bested v o
    not_better none e = cc
    not_better (some y) e = omega (arith, ltb_ℤ→ge y.amount v.amount e)

module _ (spendable : Voucher → Answer Bool) where
  best_of-keeps :
      (m best : List Voucher) (x : Voucher) (vs : List VoucherInfo)
      → best_of spendable m vs ≡ given best
      → Bested x (best_at x.lane m)
      → Bested x (best_at x.lane best)
  unfolding best_of
  best_of-keeps m best x [] h b = subst (λ q. Bested x (best_at x.lane q)) (given_inj h) b
  best_of-keeps m best x (v ∷ vs) h b = elim (Answer-cases (spendable v.voucher)) [
    | inl (true, e) ↦
        best_of-keeps (keep_best m v.voucher) best x vs (rw (e, best_of) at h)
          (keep_best-Bested m v.voucher x b)
    | inl (false, e) ↦ best_of-keeps m best x vs (rw (e, best_of) at h) b
    | inr (inl (f, e)) ↦ absurd (failed≢given (rw (e, best_of) at h))
    | inr (inr e) ↦ absurd (crashed≢given (rw (e, best_of) at h))
  ]

  -- A voucher is not spendable, or its lane has one that is, and that is worth at least as much.
  abbrev pub IsServed : List Voucher → VoucherInfo → Type 0
  IsServed best v =
      (spendable v.voucher ≡ given false) ⊎ Bested v.voucher (best_at v.voucher.lane best)

  best_of-IsServed :
      (m best : List Voucher) (vs : List VoucherInfo)
      → best_of spendable m vs ≡ given best
      → All (IsServed best) vs
  unfolding best_of
  best_of-IsServed m best [] h = tt
  best_of-IsServed m best (v ∷ vs) h = elim (Answer-cases (spendable v.voucher)) [
    | inl (true, e) ↦
        let h' = rw (e, best_of) at h in
        (
          inr (
              best_of-keeps (keep_best m v.voucher) best v.voucher vs h'
                (keep_best_self m v.voucher)),
          best_of-IsServed (keep_best m v.voucher) best vs h',
        )
    | inl (false, e) ↦ (inl e, best_of-IsServed m best vs (rw (e, best_of) at h))
    | inr (inl (f, e)) ↦ absurd (failed≢given (rw (e, best_of) at h))
    | inr (inr e) ↦ absurd (crashed≢given (rw (e, best_of) at h))
  ]

  abbrev pub IsSpendable : Voucher → Type 0
  IsSpendable b = spendable b ≡ given true

  set_best-All :
      (v : Voucher) (m : List Voucher)
      → IsSpendable v
      → All IsSpendable m
      → All IsSpendable (set_best v m)
  unfolding set_best
  set_best-All v [] h a = (h, tt)
  set_best-All v (x ∷ m) h a = elim (Bool-cases (x.lane == v.lane)) [
    | inl same ↦ rw same (h, a.1)
    | inr other ↦ rw other (a.0, set_best-All v m h a.1)
  ]

  keep_best-All :
      (m : List Voucher) (v : Voucher)
      → IsSpendable v
      → All IsSpendable m
      → All IsSpendable (keep_best m v)
  unfolding keep_best
  keep_best-All m v h a = elim (Bool-cases (is_better v (best_at v.lane m))) [
    | inl better ↦ rw better (set_best-All v m h a)
    | inr worse ↦ rw worse a
  ]

  best_of-All :
      (m best : List Voucher) (vs : List VoucherInfo)
      → best_of spendable m vs ≡ given best
      → All IsSpendable m
      → All IsSpendable best
  unfolding best_of
  best_of-All m best [] h a = subst (All IsSpendable) (given_inj h) a
  best_of-All m best (v ∷ vs) h a = elim (Answer-cases (spendable v.voucher)) [
    | inl (true, e) ↦
        best_of-All (keep_best m v.voucher) best vs (rw (e, best_of) at h)
          (keep_best-All m v.voucher e a)
    | inl (false, e) ↦ best_of-All m best vs (rw (e, best_of) at h) a
    | inr (inl (f, e)) ↦ absurd (failed≢given (rw (e, best_of) at h))
    | inr (inr e) ↦ absurd (crashed≢given (rw (e, best_of) at h))
  ]

  -- The best vouchers by lane: every one is spendable, and every voucher of the channel is not
  -- spendable, or its lane has one among the best that is worth at least as much.
  pub best_of-IsBest :
      (best : List Voucher) (vs : List VoucherInfo)
      → best_of spendable [] vs ≡ given best
      → All IsSpendable best × All (IsServed best) vs
  best_of-IsBest best vs h = (best_of-All [] best vs h tt, best_of-IsServed [] best vs h)

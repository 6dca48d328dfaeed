-- ===== src/Payments/Marking.antt =====
-- `markVoucherSubmitted` of payments/store.go, read through `wasVoucherSubmitted`.
use mathlib.Core.Option
use go_hop_exchange.Prelude.{
  ◌≡◌, refl, ap, sym, ◌∙◌, subst, Bool, true, false, ◌&&◌, ◌||◌, Option, none, some, List, [], ◌∷◌,
  ltb, ◌==◌, arith, Bool-cases, Option-cases, if◌then◌else◌, map, eq_of_some, true≢false, inl, inr,
  ℤ,
}
use go_hop_exchange.Payments.Types.{
  failed≢given, Voucher, VoucherInfo, ChannelInfo, given, failed, text, same_voucher, eq_ℤ,
  given_inj, ◌>>=◌,
}
use go_hop_exchange.Payments.Submitted.{
  info_for_voucher, was_voucher_submitted, as_submitted, mark_first, mark_if_lower,
  mark_voucher_submitted, has_voucher,
}
use go_hop_exchange.Payments.Vouchers.{may_submit}

eq_ℤ-eq : (a b : ℤ) → eq_ℤ a b ≡ true → a ≡ b
eq_ℤ-eq a b h = ground arith

pub eq_of_same_voucher : (a b : Voucher) → same_voucher a b ≡ true → a ≡ b
unfolding same_voucher
eq_of_same_voucher a b h = ground (arith, eq_ℤ-eq a.amount b.amount)

pub same_voucher_self : (a : Voucher) → same_voucher a a ≡ true
unfolding same_voucher
same_voucher_self a = ground arith

differs : (sv x : Voucher) → same_voucher x sv ≡ false → same_voucher sv x ≡ false
differs sv x h = elim (Bool-cases (same_voucher sv x)) [
  | inr no' ↦ no'
  | inl same ↦
      let e = eq_of_same_voucher sv x same in
      absurd (true≢false (sym (same_voucher_self x) ∙ ap (same_voucher x) (sym e) ∙ h))
]

mark_if_lower-voucher : (sv : Voucher) (v : VoucherInfo) → (mark_if_lower sv v).voucher ≡ v.voucher
unfolding mark_if_lower
mark_if_lower-voucher sv v = ground arith

info-map :
    (x sv : Voucher) (vs : List VoucherInfo)
    → info_for_voucher x (map (mark_if_lower sv) vs)
      ≡ Option.map (mark_if_lower sv) (info_for_voucher x vs)
unfolding info_for_voucher
info-map x sv [] = refl
info-map x sv (v ∷ vs) = elim (Bool-cases (same_voucher x v.voucher)) [
  | inl same ↦ rw (ap (same_voucher x) (mark_if_lower-voucher sv v) ∙ same, same) refl
  | inr other ↦
      rw (ap (same_voucher x) (mark_if_lower-voucher sv v) ∙ other, other) (info-map x sv vs)
]

-- The mark of `infoForVoucher`'s entry, on an entry for this voucher.
abbrev mark_if_same : Voucher → Voucher → VoucherInfo → VoucherInfo
mark_if_same sv x v = if same_voucher sv x then as_submitted v else v

map_same :
    (sv x : Voucher) (o : Option VoucherInfo)
    → same_voucher sv x ≡ false
    → Option.map (mark_if_same sv x) o ≡ o
map_same sv x none h = refl
map_same sv x (some v) h = rw h

info-mark_first :
    (x sv : Voucher) (vs : List VoucherInfo)
    → info_for_voucher x (mark_first sv vs) ≡ Option.map (mark_if_same sv x) (info_for_voucher x vs)
unfolding info_for_voucher mark_first
info-mark_first x sv [] = refl
info-mark_first x sv (v ∷ vs) = elim (Bool-cases (same_voucher sv v.voucher)) [
  | inl hit ↦ elim (Bool-cases (same_voucher x v.voucher)) [
    | inl same ↦
        let e = eq_of_same_voucher sv v.voucher hit ∙ sym (eq_of_same_voucher x v.voucher same) in
        rw (hit, same, (ap (same_voucher sv) (sym e) ∙ same_voucher_self sv)) refl
    | inr other ↦
        let e = eq_of_same_voucher sv v.voucher hit in
        rw (hit, other)
          (sym
            (map_same sv x (info_for_voucher x vs) (differs sv x (ap (same_voucher x) e ∙ other))))
  ]
  | inr miss ↦ elim (Bool-cases (same_voucher x v.voucher)) [
    | inl same ↦
        let e = eq_of_same_voucher x v.voucher same in
        rw (miss, same, (ap (same_voucher sv) e ∙ miss)) refl
    | inr other ↦ rw (miss, other) (info-mark_first x sv vs)
  ]
]

-- A voucher that marking `sv` leaves submitted: `sv` itself, and those of its lane with lower nonces.
abbrev pub superseded_by : Voucher → Voucher → Bool
superseded_by sv x = same_voucher sv x || x.lane == sv.lane && ltb x.nonce sv.nonce

info-marked :
    (sv x : Voucher) (vs : List VoucherInfo)
    → info_for_voucher x (map (mark_if_lower sv) (mark_first sv vs))
      ≡ Option.map (mark_if_lower sv) (Option.map (mark_if_same sv x) (info_for_voucher x vs))
info-marked sv x vs =
    info-map x sv (mark_first sv vs) ∙ ap (Option.map (mark_if_lower sv)) (info-mark_first x sv vs)

info-voucher :
    (x : Voucher) (vs : List VoucherInfo) {v : VoucherInfo}
    → info_for_voucher x vs ≡ some v
    → x ≡ v.voucher
unfolding info_for_voucher
info-voucher x [] h = cc
info-voucher x (w ∷ vs) {v} h = elim (Bool-cases (same_voucher x w.voucher)) [
  | inl same ↦ eq_of_same_voucher x w.voucher same ∙ ap (λ q. q.voucher) (eq_of_some (rw same at h))
  | inr other ↦ info-voucher x vs {v = v} (rw other at h)
]

marks :
    (sv : Voucher) (v : VoucherInfo)
    → (mark_if_lower sv (mark_if_same sv v.voucher v)).submitted
      ≡ (v.submitted || superseded_by sv v.voucher)
unfolding mark_if_lower
marks sv v = ground arith

marked_info :
    (sv x : Voucher) (v : VoucherInfo)
    → x ≡ v.voucher
    → (mark_if_lower sv (mark_if_same sv x v)).submitted ≡ (v.submitted || superseded_by sv x)
marked_info sv x v e =
    ap (λ y. (mark_if_lower sv (mark_if_same sv y v)).submitted) e
    ∙ marks sv v
    ∙ ap (λ y. v.submitted || superseded_by sv y) (sym e)

-- The vouchers that a mark leaves: `wasVoucherSubmitted` says of every voucher that the channel has
-- what it said before, or that it is submitted, which is so for exactly the marked voucher and those
-- of its lane with lower nonces; of a voucher that the channel does not have it says the same error.
pub mark_voucher_submitted-was :
    (ci ci' : ChannelInfo) (sv x : Voucher)
    → mark_voucher_submitted ci sv ≡ given ci'
    → was_voucher_submitted ci' x
      ≡ (was_voucher_submitted ci x >>= λ b. given (b || superseded_by sv x))
unfolding mark_voucher_submitted was_voucher_submitted
mark_voucher_submitted-was ci ci' sv x h = elim (Option-cases (info_for_voucher sv ci.vouchers)) [
  | inl lost ↦ absurd (failed≢given (rw (lost, mark_voucher_submitted) at h))
  | inr (first, found) ↦
      subst
        (λ c.
          was_voucher_submitted c x
          ≡ (was_voucher_submitted ci x >>= λ b. given (b || superseded_by sv x)))
        (given_inj (rw (found, mark_voucher_submitted) at h))
        (elim (Option-cases (info_for_voucher x ci.vouchers)) [
          | inl lost ↦ rw (info-marked sv x ci.vouchers, was_voucher_submitted, lost) refl
          | inr (v, here) ↦
              rw (info-marked sv x ci.vouchers, was_voucher_submitted, here)
                (ap given (marked_info sv x v (info-voucher x ci.vouchers here)))
        ])
]

was-has :
    (ci : ChannelInfo) (sv : Voucher) {b : Bool}
    → was_voucher_submitted ci sv ≡ given b
    → has_voucher sv ci.vouchers ≡ true
unfolding was_voucher_submitted
was-has ci sv h = elim (Option-cases (info_for_voucher sv ci.vouchers)) [
  | inl lost ↦ absurd (failed≢given (rw (lost, was_voucher_submitted) at h))
  | inr (v, here) ↦ rw (here, has_voucher) refl
]

mark-was :
    (ci ci' : ChannelInfo) (sv : Voucher)
    → mark_voucher_submitted ci sv ≡ given ci'
    → (b : Bool) × (was_voucher_submitted ci sv ≡ given b)
unfolding mark_voucher_submitted was_voucher_submitted
mark-was ci ci' sv h = elim (Option-cases (info_for_voucher sv ci.vouchers)) [
  | inl lost ↦ absurd (failed≢given (rw (lost, mark_voucher_submitted) at h))
  | inr (v, here) ↦ (v.submitted, rw (here, was_voucher_submitted) refl)
]

or_true : (b c : Bool) → (b || (true || c)) ≡ true
or_true true c = refl
or_true false c = refl

-- A voucher that was marked is refused when it is to be submitted again.
may_submit-mark :
    (ci ci' : ChannelInfo) (sv : Voucher)
    → mark_voucher_submitted ci sv ≡ given ci'
    → may_submit ci' sv ≡ failed (text "cannot submit voucher that has already been submitted")
unfolding may_submit
may_submit-mark ci ci' sv h =
    let (b, was) = mark-was ci ci' sv h in
    let done : was_voucher_submitted ci' sv ≡ given true =
      mark_voucher_submitted-was ci ci' sv sv h
      ∙ ap (λ a. a >>= λ b. given (b || superseded_by sv sv)) was
      ∙ ap (λ q. given (b || (q || (sv.lane == sv.lane && ltb sv.nonce sv.nonce))))
          (same_voucher_self sv)
      ∙ ap given (or_true b (sv.lane == sv.lane && ltb sv.nonce sv.nonce)) in
    rw (was-has ci' sv done) (rw done refl)

-- ===== src/Payments/Types.antt =====
-- payments/store.go: vouchers, channels and messages as they are stored, and the ways in which an
-- operation of payments/ ends. Addresses, message ids and signatures are numbers, as is the id of a
-- channel, which is 0 before it is set.
use Prim.Native.String.{String}
use go_hop_exchange.Prelude.{
  ℕ, ◌≡◌, refl, ◌⊎◌, inl, inr, Bool, ◌&&◌, Option, List, ◌==◌, ℤ, pos_part, neg_part,
}

-- `paych.SignedVoucher`. `merges` is the number of lanes to merge, `terms` stands for the locks, the
-- secret and the extra data, which the code only passes on.
pub record Voucher : Type 0 where
  pub channel_addr : ℕ
  pub lane : ℕ
  pub nonce : ℕ
  pub amount : ℤ
  pub merges : ℕ
  pub terms : ℕ
  pub signature : ℕ

abbrev pub eq_ℤ : ℤ → ℤ → Bool
eq_ℤ a b = pos_part a == pos_part b && neg_part a == neg_part b

-- `cborutil.Equals`: the same encoding, so the same in every field.
unfoldable pub same_voucher : Voucher → Voucher → Bool
same_voucher a b =
    a.channel_addr == b.channel_addr
    && a.lane == b.lane
    && a.nonce == b.nonce
    && eq_ℤ a.amount b.amount
    && a.merges == b.merges
    && a.terms == b.terms
    && a.signature == b.signature

pub record VoucherInfo : Type 0 where
  pub voucher : Voucher
  pub submitted : Bool

pub data Direction : Type 0 where
  inbound : Direction
  outbound : Direction

pub record ChannelInfo : Type 0 where
  pub channel_id : ℕ
  pub channel : Option ℕ
  pub control : ℕ
  pub target : ℕ
  pub direction : Direction
  pub vouchers : List VoucherInfo
  pub next_lane : ℕ
  pub amount : ℤ
  pub pending_amount : ℤ
  pub create_msg : Option ℕ
  pub add_funds_msg : Option ℕ
  pub settling : Bool
  pub settling_at : ℤ

pub record MsgInfo : Type 0 where
  pub channel_id : ℕ
  pub msg_cid : ℕ
  pub received : Bool
  pub err : String

-- The errors that the code tells apart; an error that is wrapped keeps the one inside.
pub data Failure : Type 0 where
  not_tracked : Failure
  insufficient_funds : ℤ → Failure
  text : String → Failure
  wrapped : String → Failure → Failure

-- An operation that reads: a value, an error, or a panic.
pub data Answer {ℓ} (A : Type ℓ) : Type ℓ where
  given : A → Answer A
  failed : Failure → Answer A
  crashed : Answer A

infixl 5 ◌>>=◌
abbrev pub ◌>>=◌ {ℓ κ} : {A : Type ℓ} {B : Type κ} → Answer A → (A → Answer B) → Answer B
crashed >>= f = crashed
failed e >>= f = failed e
given a >>= f = f a

-- `fmt.Errorf("…: %w", err)`
abbrev pub wrap {ℓ} : {A : Type ℓ} → String → Answer A → Answer A
wrap s (given a) = given a
wrap s (failed e) = failed (wrapped s e)
wrap s crashed = crashed

pub Answer-cases {ℓ} :
    {A : Type ℓ} (m : Answer A)
    → ((a : A) × (m ≡ given a)) ⊎ ((e : Failure) × (m ≡ failed e)) ⊎ (m ≡ crashed)
Answer-cases (given a) = inl (a, refl)
Answer-cases (failed e) = inr (inl (e, refl))
Answer-cases crashed = inr (inr refl)

-- What a chain of answers that gives a value has given on the way.
pub bind-given {ℓ κ} :
    {A : Type ℓ} {B : Type κ} (m : Answer A) (f : A → Answer B) {b : B}
    → (m >>= f) ≡ given b
    → (a : A) × (m ≡ given a) × (f a ≡ given b)
bind-given (given a) f h = (a, refl, h)
bind-given (failed e) f h = cc
bind-given crashed f h = cc

pub wrap-given {ℓ} :
    {A : Type ℓ} (s : String) (m : Answer A) {a : A} → wrap s m ≡ given a → m ≡ given a
wrap-given s (given a) h = h
wrap-given s (failed e) h = cc
wrap-given s crashed h = cc

pub given_inj {ℓ} : {A : Type ℓ} {a b : A} → given a ≡ given b → a ≡ b
given_inj h = cc

pub failed≢given {ℓ} : {A : Type ℓ} {e : Failure} {a : A} → failed e ≡ given a → ⊥
failed≢given h = cc

pub crashed≢given {ℓ} : {A : Type ℓ} {a : A} → crashed ≡ given a → ⊥
crashed≢given h = cc

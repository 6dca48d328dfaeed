-- ===== src/Payments/Balance.antt =====
-- The books of a channel in payments/channel.go: what is confirmed and what is pending, and that each
-- change of the stored channel keeps them.
use go_hop_exchange.Prelude.{
  ℕ, ◌≡◌, refl, ap, sym, ◌∙◌, subst, true≢false, none≢some, ◌⊎◌, inl, inr, true, false, Option,
  none, some, ℤ, pos, ◌+ℤ◌, ltb_ℤ, int_laws, ◌-ℤ◌, +ℤ_cancel, Bool-cases, +ℤ_zero, if◌then◌else◌,
  pos_part, neg_part,
}
use go_hop_exchange.Payments.Types.{ChannelInfo, Voucher}
use go_hop_exchange.Payments.Funds.{is_pending}
use go_hop_exchange.Payments.Vouchers.{with_new_voucher}
use go_hop_exchange.Payments.Pending.{adding, on_created, on_add_failed, on_added}

-- The books are in order: the total is confirmed, pending or lost; at most one message is pending; an
-- amount is pending only with a message; until the creation is confirmed, nothing is, and the channel
-- has no address.
pub record IsBalanced (ci : ChannelInfo) (total lost : ℤ) : Type 0 where
  pub sum : ci.amount +ℤ ci.pending_amount +ℤ lost ≡ total
  pub single : (ci.create_msg ≡ none) ⊎ (ci.add_funds_msg ≡ none)
  pub settled : (is_pending ci.create_msg ci.add_funds_msg ≡ true) ⊎ (ci.pending_amount ≡ pos 0)
  pub unconfirmed : (ci.create_msg ≡ none) ⊎ ((ci.amount ≡ pos 0) × (ci.channel ≡ none))

parts : (a b : ℤ) → a ≡ b → (pos_part a ≡ pos_part b) × (neg_part a ≡ neg_part b)
parts a b e = (ap pos_part e, ap neg_part e)

not_pending : (a b : Option ℕ) → is_pending a b ≡ false → (a ≡ none) × (b ≡ none)
not_pending none none h = (refl, refl)
not_pending none (some b) h = cc
not_pending (some a) b h = cc

is_pending_second : (a : Option ℕ) (m : ℕ) → is_pending a (some m) ≡ true
is_pending_second none m = refl
is_pending_second (some a) m = refl

none_of : {A : Type 0} (a : Option ℕ) (m : ℕ) → a ≡ some m → (a ≡ none) ⊎ A → A
none_of a m e (inl h) = cc
none_of a m e (inr x) = x

module _ (ci : ChannelInfo) (total lost : ℤ) (b : IsBalanced ci total lost) where
  pub confirm_create-IsBalanced :
      (addr mcid : ℕ) → ci.create_msg ≡ some mcid → IsBalanced (on_created addr ci) total lost
  unfolding on_created
  confirm_create-IsBalanced addr mcid e =
      let zero_amount = (none_of ci.create_msg mcid e b.unconfirmed).0 in
      let (p, n) = parts _ _ b.sum in
      let (zp, zn) = parts _ _ zero_amount in
      record {
        sum = omega (int_laws, p, n, zp, zn);
        single = inl refl;
        settled = inr refl;
        unconfirmed = inl refl;
      }

  pub add-IsBalanced :
      (amt : ℤ) (mcid : ℕ)
      → is_pending ci.create_msg ci.add_funds_msg ≡ false
      → IsBalanced (adding amt mcid ci) (total +ℤ amt) lost
  unfolding adding
  add-IsBalanced amt mcid idle =
      let (no_create, no_add) = not_pending ci.create_msg ci.add_funds_msg idle in
      let (p, n) = parts _ _ b.sum in
      let (zp, zn) = parts _ _ (nothing b.settled) in
      record {
        sum = omega (int_laws, p, n, zp, zn);
        single = inl no_create;
        settled = inl (is_pending_second ci.create_msg mcid);
        unconfirmed = inl no_create;
      }
    where
      nothing :
          (is_pending ci.create_msg ci.add_funds_msg ≡ true) ⊎ (ci.pending_amount ≡ pos 0)
          → ci.pending_amount ≡ pos 0
      nothing (inr h) = h
      nothing (inl h) = absurd (true≢false (sym h ∙ idle))

  no_create_msg : (mcid : ℕ) → ci.add_funds_msg ≡ some mcid → ci.create_msg ≡ none
  no_create_msg mcid e = other b.single
    where
      other : (ci.create_msg ≡ none) ⊎ (ci.add_funds_msg ≡ none) → ci.create_msg ≡ none
      other (inl h) = h
      other (inr h) = absurd (none≢some (sym h ∙ e))

  pub fail_add-IsBalanced :
      (mcid : ℕ)
      → ci.add_funds_msg ≡ some mcid
      → IsBalanced (on_add_failed ci) total (lost +ℤ ci.pending_amount)
  unfolding on_add_failed
  fail_add-IsBalanced mcid e =
      let (p, n) = parts _ _ b.sum in
      record {
        sum = omega (int_laws, p, n);
        single = inr refl;
        settled = inr refl;
        unconfirmed = inl (no_create_msg mcid e);
      }

  pub confirm_add-IsBalanced :
      (mcid : ℕ) → ci.add_funds_msg ≡ some mcid → IsBalanced (on_added ci) total lost
  unfolding on_added
  confirm_add-IsBalanced mcid e =
      let (p, n) = parts _ _ b.sum in
      record {
        sum = omega (int_laws, p, n);
        single = inr refl;
        settled = inr refl;
        unconfirmed = inl (no_create_msg mcid e);
      }

  raised_by :
      (balance : ℤ)
      → (if ltb_ℤ ci.amount balance then balance else ci.amount)
        ≡ ci.amount +ℤ (if ltb_ℤ ci.amount balance then balance -ℤ ci.amount else pos 0)
  raised_by balance = elim (Bool-cases (ltb_ℤ ci.amount balance)) [
    | inl more ↦ rw more (sym (+ℤ_cancel ci.amount balance))
    | inr covered ↦ rw covered (sym (+ℤ_zero ci.amount))
  ]

  pub add_voucher-IsBalanced :
      (sv : Voucher) (balance : ℤ) (addr : ℕ)
      → ci.channel ≡ some addr
      → IsBalanced
          (with_new_voucher sv balance ci)
          (total +ℤ (if ltb_ℤ ci.amount balance then balance -ℤ ci.amount else pos 0))
          lost
  unfolding with_new_voucher
  add_voucher-IsBalanced sv balance addr here =
      let more = if ltb_ℤ ci.amount balance then balance -ℤ ci.amount else pos 0 in
      record {
        sum =
            ap (λ a. a +ℤ ci.pending_amount +ℤ lost) (raised_by balance)
            ∙ shift ci.amount more ci.pending_amount lost
            ∙ ap (λ t. t +ℤ more) b.sum;
        single = b.single;
        settled = b.settled;
        unconfirmed = inl (no_creation b.unconfirmed);
      }
    where
      shift : (a m p l : ℤ) → a +ℤ m +ℤ p +ℤ l ≡ a +ℤ p +ℤ l +ℤ m
      shift a m p l = omega int_laws

      no_creation :
          (ci.create_msg ≡ none) ⊎ ((ci.amount ≡ pos 0) × (ci.channel ≡ none))
          → ci.create_msg ≡ none
      no_creation (inl x) = x
      no_creation (inr (x, nowhere)) = absurd (none≢some (sym nowhere ∙ here))

pub moved :
    (x ci' : ChannelInfo) (total total' lost lost' : ℤ)
    → ci' ≡ x
    → total' ≡ total
    → lost' ≡ lost
    → IsBalanced x total lost
    → IsBalanced ci' total' lost'
moved x ci' total total' lost lost' s t l b =
    subst (λ y. IsBalanced y total' lost') (sym s)
      (subst (λ y. IsBalanced x y lost') (sym t) (subst (λ y. IsBalanced x total y) (sym l) b))

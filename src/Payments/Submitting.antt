-- ===== src/Payments/Submitting.antt =====
-- What `SubmitAllVouchers` of payments/manager.go waits for.
use go_hop_exchange.Prelude.{
  ℕ, suc, ◌≤◌, ◌<◌, ◌≡◌, refl, ap, sym, ◌∙◌, subst, List, [], ◌∷◌, arith, length,
}
use go_hop_exchange.Payments.Types.{Voucher, Failure, Answer, given, failed, crashed, ◌>>=◌}
use go_hop_exchange.Payments.Env.{Env}
use go_hop_exchange.Payments.Vouchers.{submit_voucher}
use go_hop_exchange.Payments.Redeeming.{counted, submit_each}

-- At most this many messages.
abbrev AtMost : ℕ → Answer (List ℕ) → Type 0
AtMost n (given mcids) = length mcids ≤ n
AtMost n (failed _) = Unit {0}
AtMost n crashed = Unit {0}

AtMost-mono : (n k : ℕ) (a : Answer (List ℕ)) → n ≤ k → AtMost n a → AtMost k a
AtMost-mono n k (given m) l h = omega arith
AtMost-mono n k (failed _) l h = tt
AtMost-mono n k crashed l h = tt

AtMost-cons :
    (n mcid : ℕ) (a : Answer (List ℕ))
    → AtMost n a
    → AtMost (suc n) (a >>= λ mcids. given (mcid ∷ mcids))
AtMost-cons n mcid (given m) h = omega arith
AtMost-cons n mcid (failed _) h = tt
AtMost-cons n mcid crashed h = tt

counted-AtMost :
    {W : Type 0} (w : W) (r : Answer ℕ) (rest : W × Answer (List ℕ)) (n : ℕ)
    → AtMost n rest.1
    → AtMost (suc n) (counted w r rest).1
unfolding counted
counted-AtMost w (given mcid) rest n h = AtMost-cons n mcid rest.1 h
counted-AtMost w (failed e) rest n h = AtMost-mono n (suc n) rest.1 (omega arith) h
counted-AtMost w crashed rest n h = tt

at_most : (n : ℕ) (a : Answer (List ℕ)) {m : List ℕ} → AtMost n a → a ≡ given m → length m ≤ n
at_most n a {m} h e = subst (AtMost n) e h

module _ {W : Type 0} (env : Env W) (addr : ℕ) where
  submit_each-AtMost :
      (w : W) (vs : List Voucher) → AtMost (length vs) (submit_each env w addr vs).1
  unfolding submit_each
  submit_each-AtMost w [] = omega arith
  submit_each-AtMost w (v ∷ vs) =
      counted-AtMost (submit_voucher env w addr v 0).0 (submit_voucher env w addr v 0).1
        (submit_each env (submit_voucher env w addr v 0).0 addr vs) (length vs)
        (submit_each-AtMost (submit_voucher env w addr v 0).0 vs)

  counted_failed :
      (w : W) (r : Answer ℕ) (rest : W × Answer (List ℕ)) (e : Failure)
      → r ≡ failed e
      → counted w r rest ≡ rest
  unfolding counted
  counted_failed w r rest e h = rw h refl

  -- `SubmitAllVouchers` waits for one `Done` for each of the vouchers, and one is called for each
  -- message that is sent: where the first voucher is not submitted, fewer are called than waited for.
  submit_each_fails :
      (w : W) (v : Voucher) (vs : List Voucher) (mcids : List ℕ) (e : Failure)
      → (submit_voucher env w addr v 0).1 ≡ failed e
      → (submit_each env w addr (v ∷ vs)).1 ≡ given mcids
      → length mcids < length (v ∷ vs)
  unfolding submit_each
  submit_each_fails w v vs mcids e bad h =
      let w' = (submit_voucher env w addr v 0).0 in
      let rest = submit_each env w' addr vs in
      let same = counted_failed w' (submit_voucher env w addr v 0).1 rest e bad in
      let few =
        at_most (length vs) rest.1 {m = mcids} (submit_each-AtMost w' vs)
          (ap (λ q. q.1) (sym same) ∙ h) in
      omega arith

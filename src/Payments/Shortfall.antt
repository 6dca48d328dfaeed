-- ===== src/Payments/Shortfall.antt =====
-- The shortfall that `createVoucher` of payments/channel.go reports.
use Prim.Native.String.{String}
use go_hop_exchange.Prelude.{
  ◌≡◌, refl, sym, ◌∙◌, Option, none, some, arith, ℤ, pos, ◌+ℤ◌, ◌-ℤ◌, ◌<ℤ◌, int_laws, Result, ok,
  err,
}
use go_hop_exchange.Payments.Types.{
  Voucher, Failure, insufficient_funds, Answer, given, failed, crashed, ◌>>=◌, wrap, wrap-given,
  given_inj,
}
use go_hop_exchange.Payments.Env.{of_result, of_error, after}
use go_hop_exchange.Payments.Lanes.{
  Lane, Lanes, lane_at, set_lane, lane_of, redeemed_sum, total_redeemed_with_voucher,
}
use go_hop_exchange.Payments.Redeemed.{total_redeemed-set_lane}
use go_hop_exchange.Payments.Vouchers.{check_lane, check_balance, check_against}
use go_hop_exchange.Payments.Solvency.{check_lane-IsAhead}

-- The error of an answer, if it is one.
abbrev pub failure {ℓ} : {A : Type ℓ} → Answer A → Option Failure
failure (given a) = none
failure (failed e) = some e
failure crashed = none

abbrev pub IsShort {ℓ} : {A : Type ℓ} → ℤ → Answer A → Type 0
IsShort s m = failure m ≡ some (insufficient_funds s)

abbrev pub NeverShort {ℓ} : {A : Type ℓ} → Answer A → Type 0
NeverShort m = (s : ℤ) → IsShort s m → ⊥

pub of_result-NeverShort {ℓ} : {A : Type ℓ} (r : Result A) → NeverShort (of_result r)
of_result-NeverShort (ok a) s h = cc
of_result-NeverShort (err e) s h = cc

pub of_error-NeverShort : (e : Option String) → NeverShort (of_error e)
of_error-NeverShort none s h = cc
of_error-NeverShort (some e) s h = cc

pub wrap-NeverShort {ℓ} : {A : Type ℓ} (t : String) (m : Answer A) → NeverShort (wrap t m)
wrap-NeverShort t (given a) s h = cc
wrap-NeverShort t (failed e) s h = cc
wrap-NeverShort t crashed s h = cc

pub given-NeverShort {ℓ} : {A : Type ℓ} (a : A) → NeverShort (given a)
given-NeverShort a s h = cc

pub bind-NeverShort {ℓ κ} :
    {A : Type ℓ} {B : Type κ} (m : Answer A) (f : A → Answer B)
    → NeverShort m
    → ((a : A) → NeverShort (f a))
    → NeverShort (m >>= f)
bind-NeverShort (given a) f hm hf s h = hf a s h
bind-NeverShort (failed e) f hm hf s h = hm s h
bind-NeverShort crashed f hm hf s h = cc

-- Where a chain of answers is a shortfall, but not at first.
pub bind-IsShort {ℓ κ} :
    {A : Type ℓ} {B : Type κ} (m : Answer A) (f : A → Answer B) (s : ℤ)
    → NeverShort m
    → IsShort s (m >>= f)
    → (a : A) × (m ≡ given a) × IsShort s (f a)
bind-IsShort (given a) f s never h = (a, refl, h)
bind-IsShort (failed e) f s never h = absurd (never s h)
bind-IsShort crashed f s never h = cc

pub after-IsShort {ℓ κ} :
    {W : Type 0} {A : Type ℓ} {B : Type κ} (r : W × Answer A) (f : W → A → W × Answer B) (s : ℤ)
    → NeverShort r.1
    → IsShort s (after r f).1
    → (a : A) × (r.1 ≡ given a) × IsShort s (f r.0 a).1 × ((after r f).0 ≡ (f r.0 a).0)
after-IsShort (w, given a) f s never h = (a, refl, h, refl)
after-IsShort (w, failed e) f s never h = absurd (never s h)
after-IsShort (w, crashed) f s never h = cc

check_lane-NeverShort : (sv : Voucher) (o : Option Lane) → NeverShort (check_lane sv o)
unfolding check_lane
check_lane-NeverShort sv none s h = cc
check_lane-NeverShort sv (some x) s h = ground arith

check_balance-IsShort :
    (balance total s : ℤ) (sv : Voucher)
    → IsShort s (check_balance balance sv total)
    → (s ≡ total -ℤ balance) × (balance <ℤ total)
unfolding check_balance
check_balance-IsShort balance total s sv h = ground arith

plain_of :
    (lanes : Lanes) (sv : Voucher) (total : ℤ)
    → total_redeemed_with_voucher lanes sv ≡ given total
    → sv.merges ≡ 0
unfolding total_redeemed_with_voucher
plain_of lanes sv total h = ground arith

-- The end of a chain changes no error.
then_given :
    {A : Type 0} {B : Type 0} (m : Answer A) (b : B) (s : ℤ)
    → IsShort s (m >>= λ _. given b)
    → IsShort s m
then_given (given a) b s h = h
then_given (failed e) b s h = h
then_given crashed b s h = h

shortfall_parts :
    (s total balance : ℤ)
    → s ≡ total -ℤ balance
    → balance <ℤ total
    → (s +ℤ balance ≡ total) × (pos 0 <ℤ s)
shortfall_parts s total balance e l = (rw e (omega int_laws), rw e (omega int_laws))

-- A shortfall is what the lanes would redeem with the voucher beyond the balance.
pub check_against-IsShort :
    (lanes : Lanes) (balance s : ℤ) (sv : Voucher)
    → IsShort s (check_against lanes balance sv)
    → (s +ℤ balance ≡ redeemed_sum (set_lane sv.lane (lane_of sv) lanes)) × (pos 0 <ℤ s)
unfolding check_against
check_against-IsShort lanes balance s sv h =
    let (u, lane_ok, h') =
      bind-IsShort (check_lane sv (lane_at sv.lane lanes)) _ s
        (check_lane-NeverShort sv (lane_at sv.lane lanes)) h in
    let (total, totalled, h'') =
      bind-IsShort (wrap "totalRedeemedWithVoucher" (total_redeemed_with_voucher lanes sv)) _ s
        (wrap-NeverShort _ _) h' in
    let counted = wrap-given _ (total_redeemed_with_voucher lanes sv) totalled in
    let ahead = check_lane-IsAhead sv (lane_at sv.lane lanes) lane_ok in
    let e =
      given_inj
        (sym counted ∙ total_redeemed-set_lane lanes sv (plain_of lanes sv total counted) ahead) in
    let (amount, over) =
      check_balance-IsShort balance total s sv
        (then_given (check_balance balance sv total) (lanes, balance) s h'') in
    let (filled, positive) = shortfall_parts s total balance amount over in (filled ∙ e, positive)

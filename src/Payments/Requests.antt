-- ===== src/Payments/Requests.antt =====
-- payments/channel.go: the requests for funds that wait in a channel's queue. A request is told apart
-- by its ticket; it is active until its context is cancelled.
use go_hop_exchange.Prelude.{
  ℕ, Bool, true, false, Option, List, [], ◌∷◌, ◌==◌, if◌then◌else◌, ℤ, ◌+ℤ◌,
}
use go_hop_exchange.Payments.Types.{Failure}

pub record FundsReq : Type 0 where
  pub ticket : ℕ
  pub amt : ℤ
  pub active : Bool

-- `paychFundsRes`
pub data FundsRes : Type 0 where
  sent : Option ℕ → ℕ → FundsRes
  refused : Failure → FundsRes

-- `filterQueue`
unfoldable pub filter_queue : List FundsReq → List FundsReq
filter_queue [] = []
filter_queue (r ∷ rs) = let rest = filter_queue rs in if r.active then r ∷ rest else rest

-- `mergedFundsReq.sum`
unfoldable pub merged_sum : ℤ → List FundsReq → ℤ
merged_sum total [] = total
merged_sum total (r ∷ rs) = merged_sum (if r.active then total +ℤ r.amt else total) rs

-- `mergedFundsReq.onComplete`: the tickets that get the result.
unfoldable pub deliver : FundsRes → List FundsReq → List (ℕ × FundsRes)
deliver res [] = []
deliver res (r ∷ rs) =
    let rest = deliver res rs in if r.active then (r.ticket, res) ∷ rest else rest

-- `fundsReq.cancel`
unfoldable pub cancel : ℕ → List FundsReq → List FundsReq
cancel ticket [] = []
cancel ticket (r ∷ rs) =
    let rest = cancel ticket rs in
    if r.ticket == ticket then record r { active = false } ∷ rest else r ∷ rest

-- `mergedFundsReq.checkActive`: whether the context of the merged request goes on.
unfoldable pub check_active : List FundsReq → Bool
check_active [] = false
check_active (r ∷ rs) = if r.active then true else check_active rs

-- ===== src/Tests/Deals.antt =====
-- retrieval/deal: the interval loops at the parameters of the tests of the repository.
use go_hop_exchange.Prelude.{ℕ, suc, ◌≡◌, refl, none, some, arith, pos}
use go_hop_exchange.Deal.Params.{Params, interval_lower_bound, next_interval}
use go_hop_exchange.Deal.Schedule.{boundary, InInterval}
use go_hop_exchange.Deal.Intervals.{next_interval-boundary, interval-neighbours}

abbrev pub terms : Params
terms = record {
  selector = none;
  piece_cid = none;
  price_per_byte = pos 2;
  payment_interval = 100;
  payment_interval_increase = 10;
  unseal_price = pos 5;
}

abbrev stuck_terms : Params
stuck_terms = record terms { payment_interval = 0; payment_interval_increase = 0 }

runs : next_interval terms 210 ≡ some 330
unfolding next_interval
runs = refl

lower_runs : interval_lower_bound terms 210 ≡ some 100
unfolding interval_lower_bound
lower_runs = refl

next_interval-boundary_example :
    (j : ℕ) × (next_interval terms 150 ≡ some (boundary terms (suc j))) × InInterval terms 150 j
next_interval-boundary_example = next_interval-boundary terms 150 (omega arith) (omega arith)

interval-neighbours_example :
    (interval_lower_bound terms 210 ≡ some 100) × (next_interval terms 210 ≡ some 330)
interval-neighbours_example = interval-neighbours terms 1 (omega arith) (omega arith)

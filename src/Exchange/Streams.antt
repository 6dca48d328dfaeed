-- ===== src/Exchange/Streams.antt =====
-- How often `OpenStream` of exchange/routing.go tries.
use go_hop_exchange.Prelude.{
  ℕ, zero, suc, ◌+◌, ◌≡◌, refl, some, List, [], ◌∷◌, ◌==◌, Result, ok, err, Result-cases,
  Bool-cases, ==_iff, inl, inr, arith,
}
use go_hop_exchange.Exchange.Routing.{max_stream_open_attempts, open_loop, open_stream}

-- The calls of `NewStream` from the n-th on.
abbrev pub tries : (ℕ → Result ℕ) → ℕ → ℕ → List (Result ℕ)
tries new_stream zero n = []
tries new_stream (suc k) n = new_stream n ∷ tries new_stream k (n + 1)

-- The first stream of some calls.
abbrev pub first_stream : List (Result ℕ) → Result ℕ
first_stream [] = err "exhausted 5 attempts but failed to open stream"
first_stream (ok s ∷ rest) = ok s
first_stream (err e ∷ rest) = first_stream rest

open_loop-first :
    (new_stream : ℕ → Result ℕ) (k n : ℕ)
    → n + k ≡ max_stream_open_attempts
    → open_loop new_stream (suc k) n ≡ some (first_stream (tries new_stream (suc k) n))
unfolding open_loop
open_loop-first new_stream zero n h = elim (Result-cases (new_stream n)) [
  | inr (s, opened) ↦ rw (opened, open_loop) refl
  | inl (e, failed) ↦
      rw (failed, open_loop, (==_iff n max_stream_open_attempts).1 (omega arith)) refl
]
open_loop-first new_stream (suc k) n h = elim (Result-cases (new_stream n)) [
  | inr (s, opened) ↦ rw (opened, open_loop) refl
  | inl (e, failed) ↦ elim (Bool-cases (n == max_stream_open_attempts)) [
    | inl last ↦
        let e : n ≡ max_stream_open_attempts = (==_iff n max_stream_open_attempts).0 last in
        absurd (omega arith)
    | inr more ↦ rw (failed, open_loop, more) (open_loop-first new_stream k (n + 1) (omega arith))
  ]
]

-- `OpenStream` ends, after at most six calls of `NewStream`: with the stream of the first that gives
-- one, or with an error if none does.
pub open_stream-first :
    (new_stream : ℕ → Result ℕ)
    → open_stream new_stream ≡ some (first_stream (tries new_stream 6 0))
unfolding open_stream
open_stream-first new_stream = open_loop-first new_stream 5 0 refl

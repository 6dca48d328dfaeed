-- ===== src/Payments/Finding.antt =====
-- How payments/store.go finds channels.
use go_hop_exchange.Prelude.{
  ℕ, ◌≡◌, ◌≢◌, refl, ap, sym, ◌∙◌, Bool, false, List, [], ◌∷◌, ◌++◌, map, arith, length,
  length-append, ◌==◌, if◌then◌else◌, Bool-cases, ok, inl, inr,
}
use mathlib.Core.List.{append_assoc, append-nil}
use go_hop_exchange.Payments.Types.{ChannelInfo, given, ◌>>=◌}
use go_hop_exchange.Payments.Env.{Env, row}
use go_hop_exchange.Payments.Store.{
  unmarshall_channel_info, find_rows, find_chans, find_chan, first,
}

other_addr : (a b : ℕ) → a ≢ b → (a == b) ≡ false
other_addr a b h = ground arith

-- The channels that pass a filter, in the order of the store.
unfoldable pub matching : (ChannelInfo → Bool) → List ChannelInfo → List ChannelInfo
matching p [] = []
matching p (c ∷ cs) = let rest = matching p cs in if p c then c ∷ rest else rest

never_zero : (acc : List ChannelInfo) (c : ChannelInfo) → (length (acc ++ (c ∷ [])) == 0) ≡ false
never_zero acc c = other_addr _ 0 (omega (arith, length-append acc (c ∷ [])))

module _ (empty : ℕ) (p : ChannelInfo → Bool) where
  find_rows_all :
      (acc cs : List ChannelInfo)
      → find_rows empty p 0 acc (map row cs)
        ≡ given (acc ++ matching p (map (unmarshall_channel_info empty) cs))
  unfolding find_rows matching
  find_rows_all acc [] = ap given (sym (append-nil acc))
  find_rows_all acc (c ∷ cs) = elim (Bool-cases (p (unmarshall_channel_info empty c))) [
    | inl hit ↦
        rw (hit, find_rows)
          (rw (never_zero acc (unmarshall_channel_info empty c), find_rows)
            (find_rows_all (acc ++ (unmarshall_channel_info empty c ∷ [])) cs
              ∙ ap given (append_assoc acc (unmarshall_channel_info empty c ∷ []) _)))
    | inr miss ↦ rw (miss, find_rows) (find_rows_all acc cs)
  ]

  find_rows-first :
      (cs : List ChannelInfo)
      → (find_rows empty p 1 [] (map row cs) >>= first)
        ≡ first (matching p (map (unmarshall_channel_info empty) cs))
  unfolding find_rows matching
  find_rows-first [] = refl
  find_rows-first (c ∷ cs) = elim (Bool-cases (p (unmarshall_channel_info empty c))) [
    | inl hit ↦ rw (hit, find_rows) refl
    | inr miss ↦ rw (miss, find_rows) (find_rows-first cs)
  ]

-- Where the store reads without an error, `findChans` without a maximum gives all the channels that
-- pass the filter, in their order, and `findChan` the first of them, or `ErrChannelNotTracked`.
find_chan-matching :
    {W : Type 0} (env : Env W) (w : W) (p : ChannelInfo → Bool) (cs : List ChannelInfo)
    → env.query_channels w ≡ ok (map row cs)
    → (find_chans env w p 0 ≡ given (matching p (map (unmarshall_channel_info env.empty_addr) cs)))
      × (find_chan env w p ≡ first (matching p (map (unmarshall_channel_info env.empty_addr) cs)))
unfolding find_chans find_chan
find_chan-matching env w p cs h =
    (rw h (find_rows_all env.empty_addr p [] cs), rw h (find_rows-first env.empty_addr p cs))

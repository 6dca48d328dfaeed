-- ===== src/Provider/Metering.antt =====
-- What the revalidator of retrieval/validators.go promises: how much it lets go unpaid, and when a
-- payment lets a transfer go on.
use go_hop_exchange.Prelude.{
  ℕ, ◌+◌, ◌<◌, ◌≡◌, refl, sym, ap, ◌∙◌, ◌⊎◌, inl, inr, true, false, none, some, [], ◌∷◌, arith,
  is_zero, ◌==◌, subst, ℤ, u64, ok, Result-cases, Bool-cases, Option-cases, eq_of_some, none≢some,
}
use go_hop_exchange.Provider.Chart.{ProviderState}
use go_hop_exchange.Provider.Revalidator.{
  write_deal_state, with_deal, ChannelData, Env, Tracked, find, write, Reply,
}
use go_hop_exchange.Provider.Meter.{load_deal_state, meter, add_sent, on_pull_data_sent}

find-write :
    (chid : ℕ) (f : ChannelData → ChannelData) (t t' : Tracked) (c : ChannelData)
    → write chid f t ≡ some t'
    → find chid t ≡ some c
    → find chid t' ≡ some (f c)
unfolding find write
find-write chid f [] t' c h e = cc
find-write chid f ((k, x) ∷ t) t' c h e = elim (Bool-cases (k == chid)) [
  | inl hit ↦
      subst (λ u. find chid u ≡ some (f c)) (eq_of_some (rw hit at h))
        (rw (hit, find) (ap (λ y. some (f y)) (eq_of_some (rw hit at e))))
  | inr miss ↦ elim (Option-cases (write chid f t)) [
    | inl lost ↦ absurd (none≢some (rw (miss, lost) at h))
    | inr (u, written) ↦
        subst (λ u. find chid u ≡ some (f c)) (eq_of_some (rw (miss, written) at h))
          (rw (miss, find) (find-write chid f t u c written (rw miss at e)))
  ]
]

meter-tracked :
    {W : Type 0} (env : Env W) (w : W) (chid : ℕ) (c : ChannelData) (t : Tracked)
    → ((meter env w chid c t).tracked ≡ t)
unfolding meter
meter-tracked env w chid c t = ground arith

meter-silent :
    {W : Type 0} (env : Env W) (w : W) (chid : ℕ) (c : ChannelData) (t : Tracked)
    → (meter env w chid c t).signal ≡ none
    → (is_zero c.price_per_byte ≡ true) ⊎ (c.total_sent < c.interval)
unfolding meter
meter-silent env w chid c t h = ground arith

-- What the meter of a call starts from: what the channel has, or, where it is to be read again, what
-- the deal says.
pub data Starts {W : Type 0} (env : Env W) (w : W) (c : ChannelData) : ℕ → ℕ → ℤ → Type 0 where
  kept : c.reload ≡ false → Starts env w c c.total_sent c.interval c.price_per_byte
  read :
      (d : ProviderState)
      → c.reload ≡ true
      → env.get w c.deal ≡ ok d
      → Starts env w c d.total_sent d.current_interval d.price_per_byte

-- The channel before the bytes are added has the numbers that the meter starts from.
abbrev Loads : {W : Type 0} → Env W → W → ChannelData → ChannelData → Type 0
Loads env w c c0 = Starts env w c c0.total_sent c0.interval c0.price_per_byte

load_deal_state-Loads :
    {W : Type 0} (env : Env W) (w : W) (chid : ℕ) (c : ChannelData) (t t' : Tracked)
    → ((d : ProviderState) → env.get w c.deal ≡ ok d → d.channel_id ≡ chid)
    → find chid t ≡ some c
    → load_deal_state env w chid c t ≡ some (none, t')
    → (c0 : ChannelData) × (find chid t' ≡ some c0) × Loads env w c c0
unfolding load_deal_state write_deal_state with_deal
load_deal_state-Loads env w chid c t t' owns found h = elim (Bool-cases c.reload) [
  | inr same ↦ (
    c,
    subst (λ q. find chid q ≡ some c) (ap (λ q. q.1) (eq_of_some (rw same at h))) found,
    kept same,
  )
  | inl stale ↦ elim (Result-cases (env.get w c.deal)) [
    | inl (e, bad) ↦
        absurd
          (none≢some (sym (ap (λ q. q.0) (eq_of_some (rw (stale, load_deal_state, bad) at h)))))
    | inr (d, got) ↦ elim (Option-cases (write_deal_state d t)) [
      | inl lost ↦ absurd (none≢some (rw (stale, load_deal_state, got, lost) at h))
      | inr (t1, written) ↦ elim (Option-cases (write chid (λ x. record x { reload = false }) t1)) [
        | inl lost ↦ absurd (none≢some (rw (stale, load_deal_state, got, written, lost) at h))
        | inr (t2, reset) ↦
            let same = eq_of_some (rw (stale, load_deal_state, got, written, reset) at h) in
            let first : find chid t1 ≡ some (with_deal d c) =
              find-write chid (with_deal d) t t1 c
                (subst (λ k. write k (with_deal d) t ≡ some t1) (owns d got) written) found in
            (
              record (with_deal d c) { reload = false },
              subst (λ q. find chid q ≡ some (record (with_deal d c) { reload = false }))
                  (ap (λ q. q.1) same)
                  (find-write chid (λ x. record x { reload = false }) t1 t2 (with_deal d c) reset
                    first),
              read d stale got,
            )
      ]
    ]
  ]
]

-- The meter of a transfer: where a call lets it go on, by neither a pause nor an error, it has added
-- its bytes to those that were sent, as the channel has them or, where it is to be read again, as the
-- deal has them; and the price is 0 or the sum, which may have wrapped, is still within the current
-- interval. The deal of the channel is to name the channel.
pub on_pull_data_sent-bounded :
    {W : Type 0} (env : Env W) (w : W) (t : Tracked) (chid bytes : ℕ) (c : ChannelData)
    (r : Reply W)
    → ((d : ProviderState) → env.get w c.deal ≡ ok d → d.channel_id ≡ chid)
    → find chid t ≡ some c
    → on_pull_data_sent env w t chid bytes ≡ some r
    → r.signal ≡ none
    → (sent : ℕ) × (interval : ℕ) × (price : ℤ) × Starts env w c sent interval price
      × (c' : ChannelData) × (find chid r.tracked ≡ some c')
      × (c'.total_sent ≡ u64 (sent + bytes))
      × ((is_zero price ≡ true) ⊎ (u64 (sent + bytes) < interval))
unfolding on_pull_data_sent
on_pull_data_sent-bounded env w t chid bytes c r owns found h silent =
    elim (Option-cases (load_deal_state env w chid c t)) [
      | inl crash ↦ absurd (none≢some (rw (found, on_pull_data_sent, crash) at h))
      | inr ((none, t'), loaded) ↦ elim (Option-cases (write chid (add_sent env bytes) t')) [
        | inl lost ↦ absurd (none≢some (rw (found, on_pull_data_sent, loaded, lost) at h))
        | inr (t'', written) ↦
            let (c0, there, starts) = load_deal_state-Loads env w chid c t t' owns found loaded in
            let c' = add_sent env bytes c0 in
            let here : find chid t'' ≡ some c' =
              find-write chid (add_sent env bytes) t' t'' c0 written there in
            let e = eq_of_some (rw (found, on_pull_data_sent, loaded, written, here) at h) in
            (
              c0.total_sent,
              c0.interval,
              c0.price_per_byte,
              starts,
              c',
              subst (λ q. find chid q.tracked ≡ some c') e
                  (ap (find chid) (meter-tracked env w chid c' t'') ∙ here),
              refl,
              meter-silent env w chid c' t'' (ap (λ q. q.signal) e ∙ silent),
            )
      ]
      | inr ((some x, t'), loaded) ↦ absurd (
          none≢some (
            sym silent
            ∙ sym (ap (λ q. q.signal) (eq_of_some (rw (found, on_pull_data_sent, loaded) at h)))))
    ]

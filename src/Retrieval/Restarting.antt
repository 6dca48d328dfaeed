-- ===== src/Retrieval/Restarting.antt =====
-- Which deals `TryRestartInsufficientFunds` of retrieval/manager.go restarts.
use Prim.Native.String.{String}
use go_hop_exchange.Prelude.{
  ℕ, ◌≡◌, ap, ◌∙◌, true, Option, none, some, List, [], ◌∷◌, ◌==◌, if◌then◌else◌, Bool-cases,
  Option-cases, map-eq-some, subst, eq_of_some, none≢some, inl, inr, ok,
}
use mathlib.Core.Option
use go_hop_exchange.Deal.Status.{insufficient_funds, same_status}
use go_hop_exchange.Client.Chart.{ClientState, PaymentInfo, recheck_funds}
use go_hop_exchange.Retrieval.Deals.{
  Machines, waits_for, restart_each, try_restart_insufficient_funds,
}

-- The deals that wait for funds in a channel, by their ids; `none` where one that waits for funds has no
-- channel.
abbrev pub stuck : ℕ → List ClientState → Option (List ℕ)
stuck ch [] = some []
stuck ch (d ∷ ds) =
    if same_status d.status insufficient_funds
    then (elim d.payment_info [
      | none ↦ none
      | some info ↦ Option.map (λ ids. if info.pay_ch == ch then d.id ∷ ids else ids) (stuck ch ds)
    ])
    else stuck ch ds

module _ {W : Type 0} (m : Machines W) where
  -- Deals are told to check their funds again until one of them does not take the event.
  abbrev pub recheck_all : List ℕ → W → W × Option String
  recheck_all [] w = (w, none)
  recheck_all (id ∷ ids) w =
      let r = m.send w id recheck_funds in
      elim r.1 [ some e ↦ (r.0, some e) | none ↦ recheck_all ids r.0 ]

  restart_each_waiting :
      (ch : ℕ) (d : ClientState) (ds : List ClientState) (rest : List ℕ) (w : W)
      (info : PaymentInfo)
      → same_status d.status insufficient_funds ≡ true
      → d.payment_info ≡ some info
      → info.pay_ch == ch ≡ true
      → ((v : W) → restart_each m ch ds v ≡ some (recheck_all rest v))
      → restart_each m ch (d ∷ ds) w ≡ some (recheck_all (d.id ∷ rest) w)
  unfolding restart_each waits_for
  restart_each_waiting ch d ds rest w info on paid same after =
      elim (Option-cases (m.send w d.id recheck_funds).1) [
        | inl taken ↦
            rw (on, paid, same, restart_each, recheck_all, taken)
              (after (m.send w d.id recheck_funds).0)
        | inr (e, refused) ↦ rw (on, paid, same, restart_each, recheck_all, refused)
      ]

  restart_each-stuck :
      (ch : ℕ) (ds : List ClientState) (ids : List ℕ) (w : W)
      → stuck ch ds ≡ some ids
      → restart_each m ch ds w ≡ some (recheck_all ids w)
  unfolding restart_each waits_for
  restart_each-stuck ch [] ids w h = ap (λ l. some (recheck_all l w)) (eq_of_some h)
  restart_each-stuck ch (d ∷ ds) ids w h =
      elim (Bool-cases (same_status d.status insufficient_funds)) [
        | inr off ↦ rw (off, restart_each) (restart_each-stuck ch ds ids w (rw off at h))
        | inl on ↦ elim (Option-cases d.payment_info) [
          | inl unpaid ↦ absurd (none≢some (rw (on, unpaid) at h))
          | inr (info, paid) ↦
              let (rest, found, e) = map-eq-some _ (stuck ch ds) (rw (on, paid) at h) in
              elim (Bool-cases (info.pay_ch == ch)) [
                | inr other ↦
                    rw (on, paid, other, restart_each)
                      (restart_each-stuck ch ds ids w (found ∙ ap some (rw other at e)))
                | inl same ↦
                    subst (λ l. restart_each m ch (d ∷ ds) w ≡ some (recheck_all l w))
                      (rw same at e)
                      (restart_each_waiting ch d ds rest w info on paid same
                        (λ v. restart_each-stuck ch ds rest v found))
              ]
        ]
      ]

  -- If every deal that waits for funds has a channel, `TryRestartInsufficientFunds` tells those that
  -- wait for funds in the channel, in the order of the list and no others, to check their funds again,
  -- and stops at the first that does not take it, with its error.
  pub try_restart_insufficient_funds-stuck :
      (w : W) (ch : ℕ) (ds : List ClientState) (ids : List ℕ)
      → m.list w ≡ ok ds
      → stuck ch ds ≡ some ids
      → try_restart_insufficient_funds m w ch ≡ some (recheck_all ids w)
  unfolding try_restart_insufficient_funds restart_each
  try_restart_insufficient_funds-stuck w ch ds ids listed found =
      rw (listed, try_restart_insufficient_funds) (restart_each-stuck ch ds ids w found)

-- ===== src/Provider/Effects.antt =====
-- What one event of retrieval/provider/fsm.go does to the state of a deal.
use go_hop_exchange.Prelude.{
  ◌≡◌, refl, sym, inl, inr, Bool, true, false, some, ℤ, pos, ◌+ℤ◌, +ℤ_zero, Any, if◌then◌else◌,
  Option-cases, eq_of_some, none≢some, subst,
}
use go_hop_exchange.Deal.Status.{Status}
use go_hop_exchange.Deal.Params.{next_interval}
use go_hop_exchange.Fsm.{
  eq_of_fired, Target, to, no_change, just_record, fired, Engine, land, fire-eq-fired, Applies,
  route-Applies,
}
use go_hop_exchange.Provider.Chart.{
  ProviderState, Event, partial_payment_received, payment_received, client_cancelled, rules, action,
  set_status, trigger,
}

-- Where a target leads.
abbrev pub Arrives : Status → Target → Status → Type 0
Arrives s (to x) s' = s' ≡ x
Arrives s no_change s' = s' ≡ s
Arrives s just_record s' = s' ≡ s

-- What a payment event adds to the funds received, and how many intervals it opens.
abbrev pub received_by : Event → ℤ
received_by (partial_payment_received funds _) = funds
received_by (payment_received funds _) = funds
received_by _ = pos 0

-- What every action leaves alone, and what it adds.
abbrev pub Kept : Event → ProviderState → ProviderState → Type 0
Kept e s u =
    (u.status ≡ s.status)
    × (u.proposal ≡ s.proposal)
    × (u.funds_received ≡ s.funds_received +ℤ received_by e)

if-Kept :
    (e : Event) (s x y : ProviderState) (b : Bool)
    → Kept e s x
    → Kept e s y
    → Kept e s (if b then x else y)
if-Kept e s x y true hx hy = hx
if-Kept e s x y false hx hy = hy

action-Kept : (e : Event) (s u : ProviderState) → action e s ≡ some u → Kept e s u
unfolding action
action-Kept (payment_received funds ch) s u h =
    elim (Option-cases (next_interval s.params s.current_interval)) [
      | inl e ↦ absurd (none≢some (rw e at h))
      | inr (n, e) ↦
          subst (λ v. Kept (payment_received funds ch) s v) (eq_of_some (rw e at h))
            (refl, refl, refl)
    ]
action-Kept (partial_payment_received funds ch) s u h =
    subst (λ v. Kept (partial_payment_received funds ch) s v) (eq_of_some h) (refl, refl, refl)
action-Kept client_cancelled s u h =
    subst (λ v. Kept client_cancelled s v) (eq_of_some h)
      (if-Kept client_cancelled s _ _ _ (refl, refl, sym (+ℤ_zero _)) (refl, refl, sym (+ℤ_zero _)))
action-Kept e s u h = subst (λ v. Kept e s v) (eq_of_some h) (refl, refl, sym (+ℤ_zero _))

-- What an event that fires does to the state: the status moves by a rule of the chart, the proposal
-- stays, the funds grow by what the event brings.
pub trigger-Kept :
    (engine : Engine) (e : Event) (s u : ProviderState) (handled : Bool)
    → trigger engine e s ≡ fired u handled
    → (t : Target) × (v : ProviderState) × (action e s ≡ some v)
      × Kept e s v
      × Any (Applies s.status t) (rules e)
      × (land set_status t v ≡ fired u handled)
unfolding trigger
trigger-Kept engine e s u handled h =
    let (t, v, routed, acted, landed) =
      fire-eq-fired engine ProviderState (rules e) (λ s. s.status) set_status (action e) s u handled
        h in
    (t, v, acted, action-Kept e s v acted, route-Applies s.status (rules e) t routed, landed)

pub land-Kept :
    (e : Event) (t : Target) (s v u : ProviderState) (handled : Bool)
    → Kept e s v
    → land set_status t v ≡ fired u handled
    → Arrives s.status t u.status
      × (u.proposal ≡ s.proposal)
      × (u.funds_received ≡ s.funds_received +ℤ received_by e)
      × (u.current_interval ≡ v.current_interval)
land-Kept e (to x) s v u handled k h =
    subst
      (λ u.
        (u.status ≡ x)
        × (u.proposal ≡ s.proposal)
        × (u.funds_received ≡ s.funds_received +ℤ received_by e)
        × (u.current_interval ≡ v.current_interval))
      (eq_of_fired h) (refl, k.1, k.2, refl)
land-Kept e no_change s v u handled k h =
    subst
      (λ u.
        (u.status ≡ s.status)
        × (u.proposal ≡ s.proposal)
        × (u.funds_received ≡ s.funds_received +ℤ received_by e)
        × (u.current_interval ≡ v.current_interval))
      (eq_of_fired h) (k.0, k.1, k.2, refl)
land-Kept e just_record s v u handled k h =
    subst
      (λ u.
        (u.status ≡ s.status)
        × (u.proposal ≡ s.proposal)
        × (u.funds_received ≡ s.funds_received +ℤ received_by e)
        × (u.current_interval ≡ v.current_interval))
      (eq_of_fired h) (k.0, k.1, k.2, refl)

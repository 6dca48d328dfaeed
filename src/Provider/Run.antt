-- ===== src/Provider/Run.antt =====
-- What every history of a provider's deal has in common, over any sequence of events that the chart
-- of retrieval/provider/fsm.go accepts.
use go_hop_exchange.Prelude.{
  ℕ, suc, ◌≤◌, ◌<◌, ◌≡◌, refl, sym, ap, ap₂, ◌∙◌, ◌⊎◌, inl, inr, Bool, true, false, some, List, [],
  ◌∷◌, arith, ℤ, pos, ◌+ℤ◌, +ℤ_assoc, +ℤ_zero, Any, if◌then◌else◌, eq_of_some, true≢false,
}
use go_hop_exchange.Deal.Status.{
  Status, ongoing, blocks_complete, funds_needed, funds_needed_last_payment, finalizing, completing,
  completed,
}
use go_hop_exchange.Deal.Params.{Params, next_interval}
use go_hop_exchange.Deal.Schedule.{boundary, Fits, boundary_mono}
use go_hop_exchange.Deal.Intervals.{interval-neighbours}
use go_hop_exchange.Fsm.{Target, fired, Engine, route, Applies}
use go_hop_exchange.Provider.Chart.{
  ProviderState, Event, open_deal, deal_accepted, blocks_completed, payment_requested,
  payment_received, client_cancelled, rules, action, set_status, trigger,
}
use go_hop_exchange.Provider.Effects.{Arrives, received_by, trigger-Kept, land-Kept}

-- A deal that began as `s` and is now as the last argument; the events are those that fired, the
-- latest first.
pub data Run (engine : Engine) (s : ProviderState) : List Event → ProviderState → Type 0 where
  begin : Run engine s [] s
  next :
      {es : List Event} {t u : ProviderState} {handled : Bool} (e : Event)
      → Run engine s es t
      → trigger engine e t ≡ fired u handled
      → Run engine s (e ∷ es) u

-- The statuses that come after the last block.
abbrev pub after_blocks : Status → Bool
after_blocks blocks_complete = true
after_blocks funds_needed_last_payment = true
after_blocks finalizing = true
after_blocks completing = true
after_blocks completed = true
after_blocks _ = false

rules-after_blocks :
    (e : Event) (s : Status) (t : Target) (u : Status)
    → Any (Applies s t) (rules e)
    → Arrives s t u
    → after_blocks u ≡ true
    → (e ≡ blocks_completed) ⊎ (after_blocks s ≡ true)
unfolding rules
rules-after_blocks blocks_completed s t u a r h = inl refl
rules-after_blocks open_deal s t u a r h = ground arith
rules-after_blocks deal_accepted s t u a r h = ground arith
rules-after_blocks (payment_received _ _) s t u a r h = ground arith
rules-after_blocks (payment_requested _) s t u a r h = ground arith
rules-after_blocks _ s t u a r h = ground arith

trigger-after_blocks :
    (engine : Engine) (e : Event) (s u : ProviderState) (handled : Bool)
    → trigger engine e s ≡ fired u handled
    → after_blocks u.status ≡ true
    → (e ≡ blocks_completed) ⊎ (after_blocks s.status ≡ true)
trigger-after_blocks engine e s u handled h past =
    let (t, v, acted, kept, rule, landed) = trigger-Kept engine e s u handled h in
    rules-after_blocks e s.status t u.status rule (land-Kept e t s v u handled kept landed).0 past

-- A deal that began before its last block reaches a last payment, a finalization, a completion or
-- one of the other statuses behind the last block only if a `blocks_completed` event fired.
pub Run-after_blocks :
    (engine : Engine) (s t : ProviderState) (es : List Event)
    → after_blocks s.status ≡ false
    → Run engine s es t
    → after_blocks t.status ≡ true
    → Any (λ e. e ≡ blocks_completed) es
Run-after_blocks engine s t [] before begin past = true≢false (sym past ∙ before)
Run-after_blocks engine s t (e ∷ es) before (next {t = r} {handled = b} _ run h) past =
    elim (trigger-after_blocks engine e r t b h past) [
      | inl here ↦ inl here
      | inr earlier ↦ inr (Run-after_blocks engine s r es before run earlier)
    ]

-- The sum of all payments that the events of a history bring.
abbrev pub received : List Event → ℤ
received [] = pos 0
received (e ∷ es) = received es +ℤ received_by e

-- After any history the funds received are those at its start and the payments of its events,
-- partial ones and full ones; the proposal is the one of the start.
Run-funds_received :
    (engine : Engine) (s t : ProviderState) (es : List Event)
    → Run engine s es t
    → (t.funds_received ≡ s.funds_received +ℤ received es) × (t.proposal ≡ s.proposal)
Run-funds_received engine s t [] begin = (sym (+ℤ_zero s.funds_received), refl)
Run-funds_received engine s t (e ∷ es) (next {t = r} {handled = b} _ run h) =
    let (x, v, acted, kept, rule, landed) = trigger-Kept engine e r t b h in
    let (status, proposal, funds, interval) = land-Kept e x r v t b kept landed in
    let (before, same) = Run-funds_received engine s r es run in
    (
      funds
          ∙ ap (λ f. f +ℤ received_by e) before
          ∙ +ℤ_assoc s.funds_received (received es) (received_by e),
      proposal ∙ same,
    )

-- How many intervals a history opens: one for each full payment.
abbrev pub opens : Event → ℕ → ℕ
opens (payment_received _ _) k = suc k
opens _ k = k

abbrev pub opened : List Event → ℕ
opened [] = 0
opened (e ∷ es) = opens e (opened es)

if-interval :
    (s x : ProviderState) (b : Bool)
    → x.current_interval ≡ s.current_interval
    → (if b then x else s).current_interval ≡ s.current_interval
if-interval s x true h = h
if-interval s x false h = refl

action-interval :
    (e : Event) (s v : ProviderState) (p : Params) (k : ℕ)
    → action e s ≡ some v
    → s.params ≡ p
    → 0 < p.payment_interval
    → Fits p (boundary p (suc k))
    → s.current_interval ≡ boundary p (suc k)
    → v.current_interval ≡ boundary p (suc (opens e k))
unfolding action
action-interval (payment_received funds ch) s v p k h same positive fits here =
    let e = ap₂ next_interval same here ∙ (interval-neighbours p k positive fits).1 in
    sym (ap (λ u. u.current_interval) (eq_of_some (rw e at h)))
action-interval client_cancelled s v p k h same positive fits here =
    sym (ap (λ u. u.current_interval) (eq_of_some h))
    ∙ if-interval s (record s { message = "Client cancelled retrieval" }) _ refl
    ∙ here
action-interval e s v p k h same positive fits here =
    sym (ap (λ u. u.current_interval) (eq_of_some h)) ∙ here

opens-le : (e : Event) (k : ℕ) → k ≤ opens e k
opens-le (payment_received _ _) k = omega arith
opens-le e k = omega arith

-- Where a deal begins with its first interval, its current interval after any history is the
-- boundary of the schedule that follows as many intervals as full payments were received: if the
-- payment interval is not 0 and the sums up to there stay below 2^64.
pub Run-current_interval :
    (engine : Engine) (s t : ProviderState) (es : List Event)
    → 0 < s.payment_interval
    → s.current_interval ≡ s.payment_interval
    → Fits s.params (boundary s.params (suc (opened es)))
    → Run engine s es t
    → t.current_interval ≡ boundary s.params (suc (opened es))
Run-current_interval engine s t [] positive first fits begin = first ∙ omega arith
Run-current_interval engine s t (e ∷ es) positive first fits (next {t = r} {handled = b} _ run h) =
    let smaller =
      boundary_mono s.params (suc (opens e (opened es))) (suc (opened es))
        (omega (arith, opens-le e (opened es))) in
    let before = Run-current_interval engine s r es positive first (omega (arith, smaller)) run in
    let same = ap (λ q. q.params) (Run-funds_received engine s r es run).1 in
    let (x, v, acted, kept, rule, landed) = trigger-Kept engine e r t b h in
    (land-Kept e x r v t b kept landed).3
    ∙ action-interval e r v s.params (opened es) acted same positive (omega (arith, smaller)) before

-- A full payment at a boundary of the schedule resumes a deal that waits for funds: it goes on, with
-- the funds added and the next interval open.
payment_received-resumes :
    (engine : Engine) (s : ProviderState) (funds : ℤ) (ch k : ℕ)
    → s.status ≡ funds_needed
    → 0 < s.payment_interval
    → Fits s.params (boundary s.params (suc k))
    → s.current_interval ≡ boundary s.params (suc k)
    → trigger engine (payment_received funds ch) s
      ≡ fired
          (record s {
            status = ongoing;
            funds_received = s.funds_received +ℤ funds;
            current_interval = boundary s.params (suc (suc k));
            pay_ch = some ch;
          })
          true
unfolding trigger action rules route
payment_received-resumes engine s funds ch k waiting positive fits here =
    let e = ap (next_interval s.params) here ∙ (interval-neighbours s.params k positive fits).1 in
    engine.fire_moved ProviderState (rules (payment_received funds ch)) (λ q. q.status) set_status
      (action (payment_received funds ch)) s ongoing paid (rw waiting) (rw e)
  where
    paid : ProviderState
    paid = record s {
      funds_received = s.funds_received +ℤ funds;
      current_interval = boundary s.params (suc (suc k));
      pay_ch = some ch;
    }

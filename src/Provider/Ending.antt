-- ===== src/Provider/Ending.antt =====
-- Where the entry functions of retrieval/provider/fsm.go bring a deal.
use Prim.Native.String.{String}
use go_hop_exchange.Prelude.{
  ◌≡◌, refl, ap, ◌∙◌, ◌⊎◌, inl, inr, true, Option, none, some, Option-cases, Any,
}
use go_hop_exchange.Deal.Status.{
  Status, failing, cancelling, completing, completed, cancelled, errored,
}
use go_hop_exchange.Fsm.{fired, Engine, route, to}
use go_hop_exchange.Provider.Chart.{
  ProviderState, Event, data_transfer_error, multi_store_error, cancel_complete, cleanup_complete,
  rules, action, set_status, trigger, finality_states,
}
use go_hop_exchange.Provider.Handlers.{
  CloseError, terminated, failure, DealEnvironment, on_close, cancel_deal, cleanup_deal, handle,
}

-- The events that end a deal whose handler failed or is done, by the status.
data Ends : Status → Event → Type 0 where
  cancel_failing : Ends failing cancel_complete
  cancel_cancelling : Ends cancelling cancel_complete
  cleanup : Ends completing cleanup_complete
  transfer : (s : Status) (e : String) → Ends s (data_transfer_error e)
  store : (s : Status) (e : String) → Ends s (multi_store_error e)

module _ {W : Type 0} (env : DealEnvironment W) where
  close-Ends :
      (o : Option CloseError) (s : Status) → Ends s cancel_complete → Ends s (on_close env o)
  close-Ends none s h = h
  close-Ends (some terminated) s h = h
  close-Ends (some (failure e)) s h = transfer s e

  cancel_deal-Ends :
      (w : W) (ds : ProviderState) (s : Status)
      → Ends s cancel_complete
      → Ends s (cancel_deal env w ds).1
  unfolding cancel_deal
  cancel_deal-Ends w ds s h =
      let (w1, e1) = env.untrack_transfer w ds in
      elim (Option-cases e1) [
        | inr (e, failed) ↦ rw (failed, cancel_deal) (transfer s e)
        | inl fine ↦
            let (w2, e2) = env.delete_store w1 ds.store_id in
            elim (Option-cases e2) [
              | inr (e, failed) ↦ rw (fine, cancel_deal) (rw failed (store s e))
              | inl fine' ↦
                  rw (fine, cancel_deal)
                    (rw fine' (close-Ends (env.close_data_transfer w2 ds.channel_id).1 s h))
            ]
      ]

  cleanup_deal-Ends : (w : W) (ds : ProviderState) → Ends completing (cleanup_deal env w ds).1
  unfolding cleanup_deal
  cleanup_deal-Ends w ds = elim (Option-cases (env.untrack_transfer w ds).1) [
    | inr (e, failed) ↦ rw (failed, cleanup_deal) (transfer completing e)
    | inl fine ↦ rw (fine, cleanup_deal) cleanup
  ]

-- A deal reaches a final status by such an event.
abbrev pub Finishes : Engine → Event → ProviderState → Type 0
Finishes engine e ds =
    (u : ProviderState) × (trigger engine e ds ≡ fired u true)
    × Any (λ s. u.status ≡ s) finality_states

moves :
    (engine : Engine) (e : Event) (ds v : ProviderState) (s x : Status)
    → ds.status ≡ s
    → route s (rules e) ≡ some (to x)
    → action e ds ≡ some v
    → trigger engine e ds ≡ fired (set_status x v) true
unfolding trigger
moves engine e ds v s x h routed acted =
    engine.fire_moved ProviderState (rules e) (λ q. q.status) set_status (action e) ds x v
      (ap (λ q. route q (rules e)) h ∙ routed) acted

Ends-Finishes :
    (engine : Engine) (s : Status) (e : Event) (ds : ProviderState)
    → ds.status ≡ s
    → Ends s e
    → Finishes engine e ds
unfolding rules route action finality_states
Ends-Finishes engine s e ds h cancel_failing = (
  set_status errored ds,
  moves engine cancel_complete ds ds failing errored h refl refl,
  inl refl,
)
Ends-Finishes engine s e ds h cancel_cancelling = (
  set_status cancelled ds,
  moves engine cancel_complete ds ds cancelling cancelled h refl refl,
  inr (inr (inl refl)),
)
Ends-Finishes engine s e ds h cleanup = (
  set_status completed ds,
  moves engine cleanup_complete ds ds completing completed h refl refl,
  inr (inl refl),
)
Ends-Finishes engine s e ds h (transfer _ m) = (
  set_status errored (record ds { message = m }),
  moves engine (data_transfer_error m) ds (record ds { message = m }) s errored h refl refl,
  inl refl,
)
Ends-Finishes engine s e ds h (store _ m) = (
  set_status errored (record ds { message = m }),
  moves engine (multi_store_error m) ds (record ds { message = m }) s errored h refl refl,
  inl refl,
)

-- A deal that fails, is cancelled or is completing always ends: the handler of its status triggers
-- one event, whatever the environment answers, and that event brings the deal to a final status.
pub handle-Finishes :
    {W : Type 0} (engine : Engine) (env : DealEnvironment W) (w : W) (ds : ProviderState)
    → (ds.status ≡ failing) ⊎ (ds.status ≡ cancelling) ⊎ (ds.status ≡ completing)
    → (r : W × Event) × (handle env w ds.status ds ≡ some r) × Finishes engine r.1 ds
unfolding handle
handle-Finishes engine env w ds (inl h) = (
  cancel_deal env w ds,
  ap (λ s. handle env w s ds) h,
  Ends-Finishes engine failing _ ds h (cancel_deal-Ends env w ds failing cancel_failing),
)
handle-Finishes engine env w ds (inr (inl h)) = (
  cancel_deal env w ds,
  ap (λ s. handle env w s ds) h,
  Ends-Finishes engine cancelling _ ds h (cancel_deal-Ends env w ds cancelling cancel_cancelling),
)
handle-Finishes engine env w ds (inr (inr h)) = (
  cleanup_deal env w ds,
  ap (λ s. handle env w s ds) h,
  Ends-Finishes engine completing _ ds h (cleanup_deal-Ends env w ds),
)

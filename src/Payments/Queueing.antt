-- ===== src/Payments/Queueing.antt =====
-- What `processQueue` of payments/channel.go does with the requests that it holds.
use Prim.Native.String.{String}
use go_hop_exchange.Prelude.{
  ℕ, ◌≡◌, refl, sym, ap, ◌∙◌, ◌⊎◌, inl, inr, true, false, some, List, [], ◌∷◌, map, is_zero, ℤ, pos,
  Bool-cases, eq_of_some, none≢some, ok, subst,
}
use go_hop_exchange.Payments.Types.{ChannelInfo, Answer, given, failed, crashed, not_tracked}
use go_hop_exchange.Payments.Env.{Env, Row, broken}
use go_hop_exchange.Payments.Store.{outbound_active_by_from_to, find_chan, find_chans, find_rows}
use go_hop_exchange.Payments.Requests.{FundsReq, FundsRes, filter_queue, merged_sum, deliver}
use go_hop_exchange.Payments.Funds.{
  Task, waits, done, started, is_pending, process_task, task_for, create, or_refused,
}
use go_hop_exchange.Payments.Queue.{Processed, keeps, finish, process_active, process_queue}

abbrev pub tickets : List FundsReq → List ℕ
tickets rs = map (λ r. r.ticket) rs

filter_queue_active :
    (rs : List FundsReq) (res : FundsRes)
    → map (λ d. d.0) (deliver res (filter_queue rs)) ≡ tickets (filter_queue rs)
unfolding filter_queue deliver
filter_queue_active [] res = refl
filter_queue_active (r ∷ rs) res = elim (Bool-cases r.active) [
  | inl active ↦ rw (active, deliver) (ap (λ l. r.ticket ∷ l) (filter_queue_active rs res))
  | inr cancelled ↦ rw cancelled (filter_queue_active rs res)
]

-- The second list has the requests of the first that are not cancelled, in their order.
pub data Active : List FundsReq → List FundsReq → Type 0 where
  none_left : Active [] []
  waits_on :
      {rs kept : List FundsReq} (r : FundsReq)
      → r.active ≡ true
      → Active rs kept
      → Active (r ∷ rs) (r ∷ kept)
  cancelled :
      {rs kept : List FundsReq} (r : FundsReq)
      → r.active ≡ false
      → Active rs kept
      → Active (r ∷ rs) kept

filter_queue-Active : (rs : List FundsReq) → Active rs (filter_queue rs)
unfolding filter_queue
filter_queue-Active [] = none_left
filter_queue-Active (r ∷ rs) = elim (Bool-cases r.active) [
  | inl active ↦
      let e : filter_queue (r ∷ rs) ≡ r ∷ filter_queue rs = rw (active, filter_queue) refl in
      subst (Active (r ∷ rs)) (sym e) (waits_on r active (filter_queue-Active rs))
  | inr given_up ↦
      let e : filter_queue (r ∷ rs) ≡ filter_queue rs = rw (given_up, filter_queue) refl in
      subst (Active (r ∷ rs)) (sym e) (cancelled r given_up (filter_queue-Active rs))
]

-- The requests are all kept, with no result, or all ended, with one result.
abbrev pub Settles : {W : Type 0} → List FundsReq → Processed W → Type 0
Settles rs p =
    ((p.queue ≡ rs) × (p.delivered ≡ []))
    ⊎ ((res : FundsRes) × (p.queue ≡ []) × (p.delivered ≡ deliver res rs))

module _ {W : Type 0} (env : Env W) where
  finish-Settles :
      (queue : List FundsReq) (id : ℕ) (amt : ℤ) (r : W × Answer Task) (p : Processed W)
      → finish env queue id amt r ≡ some p
      → Settles queue p
  unfolding finish
  finish-Settles queue id amt (w, given waits) p h =
      subst (Settles queue) (eq_of_some h) (inl (refl, refl))
  finish-Settles queue id amt (w, given (done res)) p h =
      subst (Settles queue) (eq_of_some h) (inr (res, refl, refl))
  finish-Settles queue id amt (w, given (started res wait)) p h =
      subst (Settles queue) (eq_of_some h) (inr (res, refl, refl))
  finish-Settles queue id amt (w, failed e) p h = absurd (none≢some h)
  finish-Settles queue id amt (w, crashed) p h = absurd (none≢some h)

  finish_waits :
      (queue : List FundsReq) (id : ℕ) (amt : ℤ) (w : W)
      → finish env queue id amt (w, given waits) ≡ some (keeps env w queue id amt)
  unfolding finish
  finish_waits queue id amt w = refl

  process_active-Settles :
      (w : W) (from to id : ℕ) (rs : List FundsReq) (p : Processed W)
      → process_active env w from to rs id ≡ some p
      → Settles rs p
  unfolding process_active
  process_active-Settles w from to id [] p h = subst (Settles []) (eq_of_some h) (inl (refl, refl))
  process_active-Settles w from to id (r ∷ rs) p h =
      elim (Bool-cases (is_zero (merged_sum (pos 0) (r ∷ rs)))) [
        | inl zero_sum ↦ subst (Settles (r ∷ rs)) (eq_of_some (rw zero_sum at h)) (inl (refl, refl))
        | inr some_sum ↦ finish-Settles (r ∷ rs) id _ _ p (rw some_sum at h)
      ]

  -- A run of the queue drops the cancelled requests, and loses or answers twice none of the others:
  -- either all of them stay, in their order, and none gets a result, or none stays and each of them
  -- gets one, in the same order.
  pub process_queue-tickets :
      (w : W) (from to id : ℕ) (queue : List FundsReq) (p : Processed W)
      → process_queue env w from to queue id ≡ some p
      → (rs : List FundsReq) × Active queue rs
        × (((p.queue ≡ rs) × (p.delivered ≡ []))
            ⊎ ((p.queue ≡ []) × (map (λ d. d.0) p.delivered ≡ tickets rs)))
  unfolding process_queue
  process_queue-tickets w from to id queue p h =
      (filter_queue queue, filter_queue-Active queue, settled)
    where
      settled :
          ((p.queue ≡ filter_queue queue) × (p.delivered ≡ []))
          ⊎ ((p.queue ≡ []) × (map (λ d. d.0) p.delivered ≡ tickets (filter_queue queue)))
      settled = elim (process_active-Settles w from to id (filter_queue queue) p h) [
        | inl kept ↦ inl kept
        | inr (res, emptied, answered) ↦
            inr (emptied, ap (map (λ d. d.0)) answered ∙ filter_queue_active queue res)
      ]

  pub process_task_pending :
      (w : W) (from to : ℕ) (amt : ℤ) (ci : ChannelInfo)
      → outbound_active_by_from_to env w from to ≡ given ci
      → is_pending ci.create_msg ci.add_funds_msg ≡ true
      → process_task env w from to amt ≡ (w, given waits)
  unfolding process_task
  process_task_pending w from to amt ci found pending =
      ap (task_for env w from to amt) found ∙ rw (pending, task_for) refl

  process_active_pending :
      (w : W) (from to id : ℕ) (ci : ChannelInfo)
      → outbound_active_by_from_to env w from to ≡ given ci
      → is_pending ci.create_msg ci.add_funds_msg ≡ true
      → (rs : List FundsReq)
      → (p : Processed W) × (process_active env w from to rs id ≡ some p)
        × (p.world ≡ w)
        × (p.queue ≡ rs)
        × (p.delivered ≡ [])
  unfolding process_active
  process_active_pending w from to id ci found pending [] =
      (keeps env w [] id (pos 0), refl, refl, refl, refl)
  process_active_pending w from to id ci found pending (r ∷ rs) =
      let amt = merged_sum (pos 0) (r ∷ rs) in
      elim (Bool-cases (is_zero amt)) [
        | inl zero_sum ↦ (keeps env w (r ∷ rs) id amt, rw zero_sum refl, refl, refl, refl)
        | inr some_sum ↦ (
          keeps env w (r ∷ rs) id amt,
          rw some_sum (
              ap (finish env (r ∷ rs) id amt) (process_task_pending w from to amt ci found pending)
              ∙ finish_waits (r ∷ rs) id amt w),
          refl,
          refl,
          refl,
        )
      ]

  -- Where a message of the channel is not confirmed, a run of the queue sends none: the store and the
  -- chain stay as they are, as do the active requests, and none of them gets a result.
  process_queue_pending :
      (w : W) (from to id : ℕ) (queue : List FundsReq) (ci : ChannelInfo)
      → outbound_active_by_from_to env w from to ≡ given ci
      → is_pending ci.create_msg ci.add_funds_msg ≡ true
      → (p : Processed W) × (process_queue env w from to queue id ≡ some p)
        × (p.world ≡ w)
        × (p.queue ≡ filter_queue queue)
        × (p.delivered ≡ [])
  unfolding process_queue
  process_queue_pending w from to id queue ci found pending =
      process_active_pending w from to id ci found pending (filter_queue queue)

  not_found_broken :
      (w : W) (from to : ℕ) (e : String) (rows : List Row)
      → env.query_channels w ≡ ok (broken e ∷ rows)
      → outbound_active_by_from_to env w from to ≡ failed not_tracked
  unfolding outbound_active_by_from_to find_chan find_chans find_rows
  not_found_broken w from to e rows h = rw h refl

  -- A read error at the first entry of the store counts as no channel: whatever channel there is
  -- between the two addresses, a request for funds creates another one.
  process_task_broken :
      (w : W) (from to : ℕ) (amt : ℤ) (e : String) (rows : List Row)
      → env.query_channels w ≡ ok (broken e ∷ rows)
      → process_task env w from to amt ≡ or_refused (create env w from to amt)
  unfolding process_task task_for
  process_task_broken w from to amt e rows h =
      ap (task_for env w from to amt) (not_found_broken w from to e rows h)

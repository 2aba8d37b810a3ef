-- ===== src/Scheduler/Fifo.antt =====
-- The order in which the scheduler of internal/agent/scheduler.go admits tasks.
use collomia.Common.{
  ℕ, Bool, true, not, ◌||◌, List, [], ◌∷◌, ◌++◌, ◌≡◌, refl, ap, ◌∙◌, arith, Bool-cases, inl, inr,
  sym,
}
use mathlib.Core.List.{append_assoc, append-nil}
use collomia.Scheduler.{
  Waiter, Scheduler, start, blocked, dispatch_queue, dispatch, give_back, release,
}
use collomia.Scheduler.Reach.{IsStalled, dispatch-IsStalled}

module _ (lower : ℕ → ℕ) where
  -- A front part of the queue is admitted, in its order, and the rest stays in its order.
  abbrev pub IsFront : Scheduler → List Waiter → Scheduler → Type 0
  IsFront s ws t =
      (ran : List Waiter) × (ws ≡ ran ++ t.queue) × (t.active_waiters ≡ s.active_waiters ++ ran)

  dispatch_queue-IsFront :
      (s : Scheduler) (ws : List Waiter) → IsFront s ws (dispatch_queue lower s ws)
  unfolding dispatch_queue start
  dispatch_queue-IsFront s [] = ([], refl, sym (append-nil s.active_waiters))
  dispatch_queue-IsFront s (w ∷ ws) =
      let (ran, order, active) = started s w ws (dispatch_queue-IsFront (start s w) ws) in
      elim (Bool-cases (blocked lower s w)) [
        | inl b ↦ rw b ([], refl, sym (append-nil s.active_waiters))
        | inr b ↦ rw b (ran, order, active)
      ]
    where
      started :
          (s : Scheduler) (w : Waiter) (ws : List Waiter)
          → IsFront (start s w) ws (dispatch_queue lower (start s w) ws)
          → IsFront s (w ∷ ws) (dispatch_queue lower (start s w) ws)
      started s w ws (ran, order, active) =
          (w ∷ ran, ap (λ l. w ∷ l) order, active ∙ append_assoc s.active_waiters (w ∷ []) ran)

  -- Admission is first come, first served: dispatching moves a front part of the queue, in order,
  -- behind the active waiters, leaves the rest in order, and stops only at a waiter that a limit or
  -- an overlapping writer blocks.
  pub dispatch_fifo :
      (s : Scheduler) → IsFront s s.queue (dispatch lower s) × IsStalled lower (dispatch lower s)
  unfolding dispatch
  dispatch_fifo s = (dispatch_queue-IsFront s s.queue, dispatch-IsStalled lower s)

  dispatch_queue-released :
      (s : Scheduler) (ws : List Waiter) → (dispatch_queue lower s ws).released ≡ s.released
  unfolding dispatch_queue start
  dispatch_queue-released s [] = refl
  dispatch_queue-released s (w ∷ ws) =
      let later = dispatch_queue-released (start s w) ws in
      elim (Bool-cases (blocked lower s w)) [ inl b ↦ rw b refl | inr b ↦ rw b later ]

  release_released : (s : Scheduler) (w : Waiter) → s.released w.id ≡ true → release lower s w ≡ s
  unfolding release
  release_released s w e = ground arith

  give_back-released :
      (s : Scheduler) (w : Waiter) → (dispatch lower (give_back lower s w)).released w.id ≡ true
  unfolding dispatch give_back
  give_back-released s w =
      ap (λ (f : ℕ → Bool). f w.id) (dispatch_queue-released (give_back lower s w) s.queue)
      ∙ ground arith

  -- A second release of a waiter changes nothing.
  pub release_idem :
      (s : Scheduler) (w : Waiter) → release lower (release lower s w) w ≡ release lower s w
  unfolding release
  release_idem s w = elim (Bool-cases (not (s.started w.id) || s.released w.id)) [
    | inl e ↦ rw e (rw e)
    | inr e ↦
        rw e (release_released (dispatch lower (give_back lower s w)) w (give_back-released s w))
  ]

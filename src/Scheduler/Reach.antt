-- ===== src/Scheduler/Reach.antt =====
-- The states that the scheduler of internal/agent/scheduler.go reaches from NewScheduler, by any
-- interleaving of callers.
use mathlib.Core.List.{Memᴰ}
use mathlib.Core.List.Memᴰ
use collomia.Common.{
  ℕ, ◌≤◌, true, false, not, ◌||◌, List, [], ◌∷◌, ◌++◌, length, String, ◌≡◌, ◌≢◌, ◌⊎◌, inl, inr,
  refl, sym, ap, ◌∙◌, arith, Bool-cases, All-Mem, List-cases,
}
use collomia.Common.Text.{Codes}
use collomia.Writescope.{overlap}
use collomia.Writescope.Overlaps.{Addresses, overlap_iff}
use collomia.Scheduler.{
  Waiter, Scheduler, provider_limit, start, blocked, dispatch_queue, dispatch, acquire, give_back,
  withdraw, cancel, release, new_scheduler,
}
use collomia.Scheduler.Invariant.{Apart, Inv, of_provider}
use collomia.Scheduler.Steps.{IsFresh, acquire-Inv}
use collomia.Scheduler.GiveBack.{cancel-Inv, release-Inv}

-- One caller's turn. A caller cancels or releases only a waiter that it was issued.
pub data Step (lower : ℕ → ℕ) : Scheduler → Scheduler → Type 0 where
  asks : (s : Scheduler) (w : Waiter) → IsFresh lower s w → Step lower s (acquire lower s w)
  gives_up : (s : Scheduler) (w : Waiter) → Memᴰ w s.issued → Step lower s (cancel lower s w)
  finishes : (s : Scheduler) (w : Waiter) → Memᴰ w s.issued → Step lower s (release lower s w)

pub data Reach (lower : ℕ → ℕ) (s : Scheduler) : Scheduler → Type 0 where
  here : Reach lower s s
  next : {t u : Scheduler} → Reach lower s t → Step lower t u → Reach lower s u

new-Inv : (lower : ℕ → ℕ) (n : ℕ) (per : String → ℕ) → Inv lower (new_scheduler n per)
unfolding new_scheduler
new-Inv lower n per = record {
  positive = ground arith;
  tightens = λ p. omega arith;
  counted = refl;
  bounded = omega arith;
  provider_counted = λ p. refl;
  provider_bounded = λ p. omega arith;
  apart = tt;
  distinct_active = tt;
  distinct_queue = tt;
  running = λ w m. elim m [ ];
  waiting = λ w m. elim m [ ];
  held = λ w m. elim m [ ];
  unique = λ v w m. elim m [ ];
  ordered = λ i r. absurd (cc);
}

module _ (lower : ℕ → ℕ) where
  Step-Inv : {s t : Scheduler} → Step lower s t → Inv lower s → Inv lower t
  Step-Inv (asks s w f) h = acquire-Inv lower s w h f
  Step-Inv (gives_up s w m) h = cancel-Inv lower s w h m
  Step-Inv (finishes s w m) h = release-Inv lower s w h m

  Reach-Inv : {s t : Scheduler} → Inv lower s → Reach lower s t → Inv lower t
  Reach-Inv h here = h
  Reach-Inv h (next r st) = Step-Inv st (Reach-Inv h r)

  -- Whether the head of the queue, if there is one, must wait.
  abbrev pub IsStalled : Scheduler → Type 0
  IsStalled s = (w : Waiter) (ws : List Waiter) → s.queue ≡ w ∷ ws → blocked lower s w ≡ true

  blocked-queue :
      (s : Scheduler) (q : List Waiter) (w : Waiter)
      → blocked lower (record s { queue = q }) w ≡ blocked lower s w
  unfolding blocked
  blocked-queue s q w = refl

  dispatch_queue-IsStalled :
      (s : Scheduler) (ws : List Waiter) → IsStalled (dispatch_queue lower s ws)
  unfolding dispatch_queue
  dispatch_queue-IsStalled s [] w rest e = cc
  dispatch_queue-IsStalled s (v ∷ vs) w rest e =
      let later = dispatch_queue-IsStalled (start s v) vs w rest in
      elim (Bool-cases (blocked lower s v)) [
        | inl b ↦
            let first : v ≡ w = ground arith in
            rw b (blocked-queue s (v ∷ vs) w ∙ ap (blocked lower s) (sym first) ∙ b)
        | inr b ↦ rw b (later (rw (b, dispatch_queue) at e))
      ]

  pub dispatch-IsStalled : (s : Scheduler) → IsStalled (dispatch lower s)
  unfolding dispatch
  dispatch-IsStalled s = dispatch_queue-IsStalled s s.queue

  Step-IsStalled : {s t : Scheduler} → Step lower s t → IsStalled s → IsStalled t
  unfolding acquire cancel release
  Step-IsStalled (asks s w f) h =
      dispatch-IsStalled (record s { queue = s.queue ++ w ∷ []; issued = w ∷ s.issued })
  Step-IsStalled (gives_up s w m) h = dispatch-IsStalled (withdraw lower s w)
  Step-IsStalled (finishes s w m) h = elim (Bool-cases (not (s.started w.id) || s.released w.id)) [
    | inl e ↦ rw e h
    | inr e ↦ rw e (dispatch-IsStalled (give_back lower s w))
  ]

  Reach-IsStalled : {s t : Scheduler} → IsStalled s → Reach lower s t → IsStalled t
  Reach-IsStalled h here = h
  Reach-IsStalled h (next r st) = Step-IsStalled st (Reach-IsStalled h r)

  -- In every state that a scheduler reaches, the count of active tasks that it keeps is the number of
  -- active waiters, which is within the global limit, and the count that it keeps for each provider
  -- is the number of the provider's active waiters, which is within the provider's limit. That limit
  -- is at most the global one.
  pub Reach-bounds :
      (n : ℕ) (per : String → ℕ) (s : Scheduler)
      → Reach lower (new_scheduler n per) s
      → (s.active ≡ length s.active_waiters)
        × (length s.active_waiters ≤ s.limit)
        × ((p : String)
            → (s.active_by_provider p ≡ of_provider p s.active_waiters)
              × (of_provider p s.active_waiters ≤ provider_limit s p)
              × (provider_limit s p ≤ s.limit))
  Reach-bounds n per s r =
      let h = Reach-Inv (new-Inv lower n per) r in
      (
        h.counted,
        omega (arith, h.counted, h.bounded),
        λ p. (
          h.provider_counted p,
          omega (arith, h.provider_counted p, h.provider_bounded p),
          ground (arith, h.tightens p),
        ),
      )

  Apart-pair :
      (ws : List Waiter) (v w : Waiter)
      → Apart lower ws
      → Memᴰ v ws
      → Memᴰ w ws
      → v.id ≢ w.id
      → (overlap lower v.write_scopes w.write_scopes ≡ false)
        ⊎ (overlap lower w.write_scopes v.write_scopes ≡ false)
  Apart-pair [] v w h mv mw n = elim mv [ ]
  Apart-pair (u ∷ us) v w h mv mw n =
      let deeper = Apart-pair us v w h.1 in
      elim (Memᴰ.cases_cons mv) [
        | inl p ↦ elim (Memᴰ.cases_cons mw) [
          | inl q ↦ absurd (n (ap (λ (x : Waiter). x.id) (p ∙ sym q)))
          | inr q ↦
              inr
                (rw p (All-Mem (λ x. overlap lower x.write_scopes u.write_scopes ≡ false) us h.0 q))
        ]
        | inr p ↦ elim (Memᴰ.cases_cons mw) [
          | inl q ↦
              inl
                (rw q (All-Mem (λ x. overlap lower x.write_scopes u.write_scopes ≡ false) us h.0 p))
          | inr q ↦ deeper p q n
        ]
      ]

  -- No path is addressed by the declared scopes of two writers that are active at once.
  pub Reach-apart :
      (n : ℕ) (per : String → ℕ) (s : Scheduler) (v w : Waiter) (path a b : Codes)
      → Reach lower (new_scheduler n per) s
      → Memᴰ v s.active_waiters
      → Memᴰ w s.active_waiters
      → v.id ≢ w.id
      → Memᴰ a v.write_scopes
      → Memᴰ b w.write_scopes
      → ¬ (Addresses lower a path × Addresses lower b path)
  Reach-apart n per s v w path a b r mv mw ne ma mb (x, y) =
      elim (Apart-pair s.active_waiters v w (Reach-Inv (new-Inv lower n per) r).apart mv mw ne) [
        | inl e ↦
            (let met : overlap lower v.write_scopes w.write_scopes ≡ true =
                (overlap_iff lower v.write_scopes w.write_scopes).1
                  (path, (a, ma, x), (b, mb, y)) in
              cc)
        | inr e ↦
            (let met : overlap lower w.write_scopes v.write_scopes ≡ true =
                (overlap_iff lower w.write_scopes v.write_scopes).1
                  (path, (b, mb, y), (a, ma, x)) in
              cc)
      ]

  new_scheduler-queue : (n : ℕ) (per : String → ℕ) → IsStalled (new_scheduler n per)
  unfolding new_scheduler
  new_scheduler-queue n per w ws e = cc

  -- A scheduler with no active task has no waiting one: no request is stuck.
  pub Reach-idle :
      (n : ℕ) (per : String → ℕ) (s : Scheduler)
      → Reach lower (new_scheduler n per) s
      → s.active_waiters ≡ []
      → s.queue ≡ []
  unfolding blocked
  Reach-idle n per s r e = elim (List-cases s.queue) [
    | inl q ↦ q
    | inr (w, ws, q) ↦
        let h = Reach-Inv (new-Inv lower n per) r in
        let start_stalled : IsStalled (new_scheduler n per) =
          λ v vs k. new_scheduler-queue n per v vs k in
        let stuck : blocked lower s w ≡ true = Reach-IsStalled start_stalled r w ws q in
        absurd (ground (arith, h.counted, h.positive, h.provider_counted w.provider))
  ]

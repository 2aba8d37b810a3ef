-- ===== src/Scheduler/Start.antt =====
-- Admitting the head of the queue keeps the invariant (dispatchLocked of
-- internal/agent/scheduler.go).
use mathlib.Core.List.{Memᴰ}
use mathlib.Core.List.Memᴰ
use collomia.Common.{
  ℕ, ◌+◌, ◌≤◌, true, false, List, [], ◌∷◌, ◌++◌, any, ◌==◌, length, String, str_eq, eq_iff, ◌≡◌,
  ◌≢◌, inl, inr, refl, sym, ap, arith, Bool-cases, All, All-Mem, All_of_Mem, All-append,
  count-append, length-append, ==_iff,
}
use collomia.Writescope.{overlap}
use collomia.Scheduler.{Waiter, Scheduler, put, mark, provider_limit, start, blocked}
use collomia.Scheduler.Invariant.{Distinct, Apart, Inv, of_provider}

pub Distinct-append :
    (ws : List Waiter) (w : Waiter)
    → Distinct ws
    → All (λ v. v.id ≢ w.id) ws
    → Distinct (ws ++ w ∷ [])
Distinct-append [] w d h = (tt, tt)
Distinct-append (v ∷ vs) w d h = (
  All-append (λ u. u.id ≢ v.id) vs (w ∷ []) d.0 (λ e. h.0 (sym e), tt),
  Distinct-append vs w d.1 h.1,
)

module _ (lower : ℕ → ℕ) where
  Apart-append :
      (ws : List Waiter) (w : Waiter)
      → Apart lower ws
      → any (λ v. overlap lower w.write_scopes v.write_scopes) ws ≡ false
      → Apart lower (ws ++ w ∷ [])
  Apart-append [] w d h = (tt, tt)
  Apart-append (v ∷ vs) w d h = (
    All-append (λ u. overlap lower u.write_scopes v.write_scopes ≡ false) vs (w ∷ []) d.0
        (ground arith, tt),
    Apart-append vs w d.1 (ground arith),
  )

  module _ (s : Scheduler) (w : Waiter) (ws : List Waiter)
      (h : Inv lower (record s { queue = w ∷ ws })) (free : blocked lower s w ≡ false) where
    fresh : All (λ v. v.id ≢ w.id) s.active_waiters
    fresh =
        All_of_Mem (λ v. v.id ≢ w.id) s.active_waiters
          (λ v m e.
            let (_, on, _) = h.running v m in
            let (_, off) = h.waiting w (Memᴰ.head refl) in (let same = ap s.started e in cc))

    start-counted : (s.active + 1 ≡ length (s.active_waiters ++ w ∷ [])) × (s.active + 1 ≤ s.limit)
    unfolding blocked
    start-counted =
        (omega (arith, length-append s.active_waiters (w ∷ []), h.counted), ground arith)

    start-provider_counted :
        (p : String)
        → put s.active_by_provider w.provider (s.active_by_provider w.provider + 1) p
          ≡ of_provider p (s.active_waiters ++ w ∷ [])
    start-provider_counted p = ground (
      arith,
      count-append (λ (v : Waiter). str_eq p v.provider) s.active_waiters (w ∷ []),
      h.provider_counted p,
      h.provider_counted w.provider,
      eq_iff p w.provider,
    )

    start-provider_bounded :
        (p : String)
        → put s.active_by_provider w.provider (s.active_by_provider w.provider + 1) p
          ≤ provider_limit s p
    unfolding blocked
    start-provider_bounded p = ground (arith, h.provider_bounded p, eq_iff p w.provider)

    start-running :
        (v : Waiter)
        → Memᴰ v (s.active_waiters ++ w ∷ [])
        → Memᴰ v s.issued × (mark s.started w.id v.id ≡ true) × (s.released v.id ≡ false)
    start-running v m = elim (Memᴰ.append_cases s.active_waiters m) [
      | inl old ↦ let (known, on, kept) = h.running v old in (known, ground arith, kept)
      | inr last ↦
          let (known, off) = h.waiting w (Memᴰ.head refl) in
          rw (Memᴰ.eq_of_singleton last) (known, ground arith, ground (arith, h.ordered w.id))
    ]

    start-waiting : (v : Waiter) → Memᴰ v ws → Memᴰ v s.issued × (mark s.started w.id v.id ≡ false)
    start-waiting v m =
        let (known, off) = h.waiting v (Memᴰ.tail m) in
        let other = All-Mem (λ u. u.id ≢ w.id) ws h.distinct_queue.0 m in (known, ground arith)

    start-held :
        (v : Waiter)
        → Memᴰ v s.issued
        → mark s.started w.id v.id ≡ true
        → s.released v.id ≡ false
        → Memᴰ v (s.active_waiters ++ w ∷ [])
    start-held v m on kept = elim (Bool-cases (v.id == w.id)) [
      | inl e ↦
          Memᴰ.append_right s.active_waiters
            (Memᴰ.head (h.unique v w m (h.waiting w (Memᴰ.head refl)).0 ((==_iff v.id w.id).0 e)))
      | inr e ↦ Memᴰ.append_left (w ∷ []) (h.held v m (ground arith) kept)
    ]

    -- The head of the queue, if it is not blocked, moves to the active waiters.
    pub start-Inv : Inv lower (record (start s w) { queue = ws })
    unfolding start blocked
    start-Inv = record {
      positive = h.positive;
      tightens = h.tightens;
      counted = start-counted.0;
      bounded = start-counted.1;
      provider_counted = start-provider_counted;
      provider_bounded = start-provider_bounded;
      apart = Apart-append s.active_waiters w h.apart (ground arith);
      distinct_active = Distinct-append s.active_waiters w h.distinct_active fresh;
      distinct_queue = h.distinct_queue.1;
      running = start-running;
      waiting = start-waiting;
      held = start-held;
      unique = h.unique;
      ordered = λ i r. (let on = h.ordered i r in ground arith);
    }

-- ===== src/Scheduler/Invariant.antt =====
-- What holds of the scheduler of internal/agent/scheduler.go between two operations.
use mathlib.Core.List.{Memᴰ}
use collomia.Common.{
  ℕ, ◌≤◌, ◌<◌, true, false, List, [], ◌∷◌, length, count, String, str_eq, ◌≡◌, ◌≢◌, All,
}
use collomia.Writescope.{overlap}
use collomia.Scheduler.{Waiter, Scheduler, provider_limit}

-- No two waiters of a list are the same object.
abbrev pub Distinct : List Waiter → Type 0
Distinct [] = Unit
Distinct (w ∷ ws) = All (λ v. v.id ≢ w.id) ws × Distinct ws

-- The number of waiters of a provider.
abbrev pub of_provider : String → List Waiter → ℕ
of_provider p ws = count (λ w. str_eq p w.provider) ws

module _ (lower : ℕ → ℕ) where
  -- Each writer's scopes are apart from those of the writers admitted before it.
  abbrev pub Apart : List Waiter → Type 0
  Apart [] = Unit
  Apart (w ∷ ws) = All (λ v. overlap lower v.write_scopes w.write_scopes ≡ false) ws × Apart ws

  pub record Inv (s : Scheduler) : Type 0 where
    pub counted : s.active ≡ length s.active_waiters
    pub bounded : s.active ≤ s.limit
    pub provider_counted : (p : String) → s.active_by_provider p ≡ of_provider p s.active_waiters
    pub provider_bounded : (p : String) → s.active_by_provider p ≤ provider_limit s p
    pub apart : Apart s.active_waiters
    pub distinct_active : Distinct s.active_waiters
    pub distinct_queue : Distinct s.queue
    pub running :
        (w : Waiter)
        → Memᴰ w s.active_waiters
        → Memᴰ w s.issued × (s.started w.id ≡ true) × (s.released w.id ≡ false)
    pub waiting : (w : Waiter) → Memᴰ w s.queue → Memᴰ w s.issued × (s.started w.id ≡ false)
    pub held :
        (w : Waiter)
        → Memᴰ w s.issued
        → s.started w.id ≡ true
        → s.released w.id ≡ false
        → Memᴰ w s.active_waiters
    pub unique : (v w : Waiter) → Memᴰ v s.issued → Memᴰ w s.issued → v.id ≡ w.id → v ≡ w
    pub ordered : (i : ℕ) → s.released i ≡ true → s.started i ≡ true
    pub positive : 0 < s.limit
    pub tightens : (p : String) → s.per_provider p ≤ s.limit

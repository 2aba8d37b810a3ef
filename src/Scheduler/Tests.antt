-- ===== src/Scheduler/Tests.antt =====
-- A run of the scheduler of internal/agent/scheduler.go, and its theorems at it.
use mathlib.Core.List.{Memᴰ}
use collomia.Common.{ℕ, ◌≤◌, [], ◌∷◌, ◌≡◌, refl, length, String, arith}
use collomia.Common.Text.{codes}
use collomia.Writescope.Overlaps.{Addresses}
use collomia.Scheduler.{Waiter, Scheduler, new_scheduler, acquire, cancel, release, provider_limit}
use collomia.Scheduler.Invariant.{of_provider}
use collomia.Scheduler.Reach.{
  Reach, here, next, asks, finishes, Reach-bounds, Reach-apart, Reach-idle,
}

abbrev lower : ℕ → ℕ
lower c = c

abbrev writer : ℕ → String → Waiter
writer i path = record { id = i; provider = "openai"; write_scopes = codes path ∷ [] }

abbrev first : Waiter
first = writer 0 "src/"

abbrev second : Waiter
second = writer 1 "docs/"

abbrev clash : Waiter
clash = writer 2 "src/main.go"

abbrev s0 : Scheduler
s0 = new_scheduler 3 (λ p. 0)

abbrev s1 : Scheduler
s1 = acquire lower s0 first

abbrev s2 : Scheduler
s2 = acquire lower s1 second

abbrev s3 : Scheduler
s3 = acquire lower s2 clash

-- The writer below a busy directory waits, and is admitted when the slot is given back.
run_test :
    (s2.active_waiters ≡ first ∷ second ∷ [])
    × (s3.queue ≡ clash ∷ [])
    × ((release lower s3 first).active_waiters ≡ second ∷ clash ∷ [])
    × ((cancel lower s3 clash).queue ≡ [])
unfolding new_scheduler acquire release cancel
run_test = (refl, refl, refl, refl)

reached : Reach lower s0 s2
unfolding new_scheduler acquire
reached =
    next (next here (asks s0 first (tt, refl, refl)))
      (asks s1 second ((omega arith, tt), refl, refl))

Reach-bounds_example :
    (s2.active ≡ length s2.active_waiters)
    × (length s2.active_waiters ≤ s2.limit)
    × ((p : String)
        → (s2.active_by_provider p ≡ of_provider p s2.active_waiters)
          × (of_provider p s2.active_waiters ≤ provider_limit s2 p)
          × (provider_limit s2 p ≤ s2.limit))
Reach-bounds_example = Reach-bounds lower 3 (λ p. 0) s2 reached

Reach-apart_example : ¬ (
    Addresses lower (codes "src/") (codes "src/a")
    × Addresses lower (codes "docs/") (codes "src/a"))
unfolding new_scheduler acquire
Reach-apart_example =
    Reach-apart lower 3 (λ p. 0) s2 first second (codes "src/a") (codes "src/") (codes "docs/")
      reached (Memᴰ.head refl) (Memᴰ.tail (Memᴰ.head refl)) (omega arith) (Memᴰ.head refl)
      (Memᴰ.head refl)

emptied : Reach lower s0 (release lower s1 first)
unfolding new_scheduler acquire
emptied = next (next here (asks s0 first (tt, refl, refl))) (finishes s1 first (Memᴰ.head refl))

Reach-idle_example : (release lower s1 first).queue ≡ []
unfolding new_scheduler acquire release
Reach-idle_example = Reach-idle lower 3 (λ p. 0) (release lower s1 first) emptied refl

-- ===== src/Scheduler.antt =====
-- internal/agent/scheduler.go: the admission controller for delegated tasks. Each operation holds
-- the scheduler's lock throughout, so it is one step of the state. A waiter is an object on the
-- heap: `issued` holds those allocated, and `started` and `released` are their flags by identity. A
-- count or limit that Go keeps as an int is a ℕ; a limit of 0 stands for every one not above 0.
pub mod Invariant
pub mod Remove
pub mod Start
pub mod Steps
pub mod GiveBack
pub mod Reach
pub mod Fifo
mod Tests
use collomia.Common.{
  ℕ, zero, suc, ◌+◌, ◌-◌, Bool, true, false, not, ◌&&◌, ◌||◌, List, [], ◌∷◌, ◌++◌, any, ltb, leb,
  ◌==◌, if◌then◌else◌, is_empty, length, Option, none, some, String, str_eq, min,
}
use collomia.Common.Text.{Codes}
use collomia.Writescope.{overlap}

abbrev pub max_delegate_concurrency : ℕ
max_delegate_concurrency = 4

abbrev pub max_delegate_tasks : ℕ
max_delegate_tasks = 6

pub record Waiter : Type 0 where
  pub id : ℕ
  pub provider : String
  pub write_scopes : List Codes

pub record Scheduler : Type 0 where
  pub limit : ℕ
  pub per_provider : String → ℕ
  pub active : ℕ
  pub active_by_provider : String → ℕ
  pub active_waiters : List Waiter
  pub queue : List Waiter
  pub issued : List Waiter
  pub started : ℕ → Bool
  pub released : ℕ → Bool

-- A write to one entry of a map.
abbrev pub put {ℓ} : {A : Type ℓ} → (String → A) → String → A → String → A
put f k v j = if str_eq j k then v else f j

abbrev pub mark : (ℕ → Bool) → ℕ → ℕ → Bool
mark f i j = if j == i then true else f j

-- NewScheduler. A provider without an entry has limit 0, as a map's missing key does.
unfoldable pub new_scheduler : ℕ → (String → ℕ) → Scheduler
new_scheduler max_concurrent per_provider =
    let top =
      if max_concurrent == 0 || ltb max_delegate_tasks max_concurrent
      then max_delegate_concurrency
      else max_concurrent in
    record {
      limit = top;
      per_provider = λ p. min (per_provider p) top;
      active = 0;
      active_by_provider = λ p. 0;
      active_waiters = [];
      queue = [];
      issued = [];
      started = λ i. false;
      released = λ i. false;
    }

-- The bound on a provider's active tasks.
abbrev pub provider_limit : Scheduler → String → ℕ
provider_limit s p = if ltb 0 (s.per_provider p) then s.per_provider p else s.limit

unfoldable pub start : Scheduler → Waiter → Scheduler
start s w = record s {
  started = mark s.started w.id;
  active = s.active + 1;
  active_by_provider = put s.active_by_provider w.provider (s.active_by_provider w.provider + 1);
  active_waiters = s.active_waiters ++ w ∷ [];
}

-- removeActiveLocked, and the removal of a waiter from the queue.
unfoldable pub remove : ℕ → List Waiter → List Waiter
remove i [] = []
remove i (w ∷ ws) = let rest = remove i ws in if w.id == i then ws else w ∷ rest

module _ (lower : ℕ → ℕ) where
  -- Whether the head of the queue must wait.
  unfoldable pub blocked : Scheduler → Waiter → Bool
  unfolding overlap
  blocked s w =
      leb s.limit s.active
      || leb (provider_limit s w.provider) (s.active_by_provider w.provider)
      || any (λ v. overlap lower w.write_scopes v.write_scopes) s.active_waiters

  -- dispatchLocked over a queue.
  unfoldable pub dispatch_queue : Scheduler → List Waiter → Scheduler
  unfolding blocked start
  dispatch_queue s [] = record s { queue = [] }
  dispatch_queue s (w ∷ ws) =
      let rest = dispatch_queue (start s w) ws in
      if blocked s w then record s { queue = w ∷ ws } else rest

  unfoldable pub dispatch : Scheduler → Scheduler
  unfolding dispatch_queue
  dispatch s = dispatch_queue s s.queue

  -- AcquireScoped up to its wait: the waiter is queued and the queue dispatched.
  unfoldable pub acquire : Scheduler → Waiter → Scheduler
  unfolding dispatch
  acquire s w = dispatch (record s { queue = s.queue ++ w ∷ []; issued = w ∷ s.issued })

  -- A held slot is given back.
  unfoldable pub give_back : Scheduler → Waiter → Scheduler
  unfolding remove
  give_back s w = record s {
    released = mark s.released w.id;
    active = s.active - 1;
    active_by_provider = put s.active_by_provider w.provider (s.active_by_provider w.provider - 1);
    active_waiters = remove w.id s.active_waiters;
  }

  -- What AcquireScoped undoes when its context ends first: a slot that it was given meanwhile, or
  -- its place in the queue.
  unfoldable pub withdraw : Scheduler → Waiter → Scheduler
  unfolding give_back
  withdraw s w =
      if s.started w.id && not (s.released w.id)
      then give_back s w
      else if not (s.started w.id)
      then record s { queue = remove w.id s.queue }
      else s

  unfoldable pub cancel : Scheduler → Waiter → Scheduler
  unfolding withdraw dispatch
  cancel s w = dispatch (withdraw s w)

  unfoldable pub release : Scheduler → Waiter → Scheduler
  unfolding give_back dispatch
  release s w = if not (s.started w.id) || s.released w.id then s else dispatch (give_back s w)

-- ===== src/DiffModel/Checkpoint.antt =====
-- internal/diffmodel/checkpoint.go: what a save keeps of the history, within bounds, and the guard
-- of a restore.
pub mod Retained
use collomia.Common.{
  ℕ, zero, suc, ◌+◌, ◌-◌, Bool, true, false, not, ◌&&◌, ◌||◌, List, [], ◌∷◌, ◌++◌, any, length, ltb,
  leb, Option, none, some, if◌then◌else◌,
}
use collomia.Common.Text.{Codes}
use collomia.DiffModel.Data.{
  Snapshot, Entry, Checkpoint, TrackerError, checkpoint_failed, interrupted, not_retained,
  content_not_retained, Tracker, Io, perm,
}

abbrev pub checkpoint_bytes : ℕ
checkpoint_bytes = 8388608

abbrev pub checkpoint_file_bytes : ℕ
checkpoint_file_bytes = 1048576

abbrev pub checkpoint_entries : ℕ
checkpoint_entries = 256

abbrev pub max : ℕ → ℕ → ℕ
max a b = if ltb a b then b else a

abbrev pub is_some {ℓ} : {A : Type ℓ} → Option A → Bool
is_some none = false
is_some (some a) = true

module _ {ℓ} {A : Type ℓ} where
  unfoldable pub take : ℕ → List A → List A
  take zero xs = []
  take (suc n) [] = []
  take (suc n) (x ∷ xs) = x ∷ take n xs

  unfoldable pub drop : ℕ → List A → List A
  drop zero xs = xs
  drop (suc n) [] = []
  drop (suc n) (x ∷ xs) = drop n xs

-- The number of bytes of a side that exists.
abbrev pub size_of : Option Codes → ℕ
size_of none = 0
size_of (some text) = length text

abbrev pub entry_size : Snapshot → ℕ
entry_size s = size_of s.before + size_of s.after

-- Whether the content of a snapshot is not kept, after what the earlier ones take.
abbrev pub is_unavailable : ℕ → Snapshot → Bool
is_unavailable total s =
    s.unavailable
    || ltb checkpoint_file_bytes (size_of s.before)
    || ltb checkpoint_file_bytes (size_of s.after)
    || ltb checkpoint_bytes (total + entry_size s)

abbrev pub entry_of : Codes → Bool → Snapshot → Entry
entry_of rel lost s = record {
  path = rel;
  op = s.op;
  before = if lost then none else s.before;
  after = if lost then none else s.after;
  existed_before = is_some s.before;
  existed_after = is_some s.after;
  before_mode = perm s.before_mode;
  after_mode = perm s.after_mode;
  turn = s.turn;
  unavailable = lost;
}

-- What the loop over the retained snapshots has gathered.
pub record Gathered : Type 0 where
  pub floor : ℕ
  pub entries : List Entry
  pub snapshots : List Snapshot

abbrev pub skip : Snapshot → Gathered → Gathered
skip s rest = record rest { floor = max s.turn rest.floor; snapshots = s ∷ rest.snapshots }

abbrev pub retain : Codes → Bool → Snapshot → Gathered → Gathered
retain rel lost s rest = record rest {
  entries = entry_of rel lost s ∷ rest.entries;
  snapshots = record s { unavailable = lost } ∷ rest.snapshots;
}

-- The loop: a file outside the root raises the floor, one inside takes an entry.
unfoldable pub gather : Io → ℕ → ℕ → List Snapshot → Gathered
gather io floor total [] = record { floor = floor; entries = []; snapshots = [] }
gather io floor total (s ∷ ss) = elim (io.relative s.path) [
  | none ↦ skip s (gather io floor total ss)
  | some rel ↦ elim (is_unavailable total s) [
    | true ↦ retain rel true s (gather io floor total ss)
    | false ↦ retain rel false s (gather io floor (total + entry_size s) ss)
  ]
]

-- The highest turn of a list of snapshots, or the floor.
unfoldable pub raise : ℕ → List Snapshot → ℕ
raise floor [] = floor
raise floor (s ∷ ss) = raise (max floor s.turn) ss

abbrev pub start_of : Tracker → ℕ
start_of t = length t.history - checkpoint_entries

unfoldable pub gathered : Io → Tracker → Gathered
unfolding gather raise take drop
gathered io t =
    gather io (raise t.checkpoint_floor (take (start_of t) t.history)) 0
      (drop (start_of t) t.history)

abbrev pub state_of : Tracker → Gathered → Checkpoint
state_of t kept = record {
  root = t.checkpoint_root;
  floor = kept.floor;
  pending = t.checkpoint_pending;
  kept_reason = t.checkpoint_reason;
  entries = kept.entries;
}

-- The tracker with the availability that a save has found.
abbrev pub marked : Tracker → Gathered → Tracker
marked t kept = record t {
  history = take (start_of t) t.history ++ kept.snapshots;
  checkpoint_floor = kept.floor;
}

abbrev pub save_marked : Io → Tracker → Checkpoint → Tracker × Option TrackerError
save_marked io t state =
    if io.fits state && io.saves state
    then (t, none)
    else (record t { checkpoint_error = true }, some checkpoint_failed)

unfoldable pub persist : Io → Tracker → Tracker × Option TrackerError
unfolding gathered take
persist io t =
    if not t.saver
    then (t, none)
    else if t.checkpoint_error
    then (t, some checkpoint_failed)
    else save_marked io (marked t (gathered io t)) (state_of t (gathered io t))

-- checkpointRestoreGuard for the turn before `first`: nothing before `first` may be missing.
unfoldable pub restore_guard : ℕ → Tracker → Option TrackerError
restore_guard first t =
    if t.checkpoint_error
    then some checkpoint_failed
    else if t.checkpoint_pending
    then some interrupted
    else if leb first t.checkpoint_floor
    then some not_retained
    else if any (λ s. leb first s.turn && s.unavailable) t.history
    then some content_not_retained
    else none

-- KeepCheckpoint.
unfoldable pub keep_checkpoint : Io → Codes → Tracker → Tracker × Option TrackerError
unfolding persist
keep_checkpoint io reason t = persist io (record t {
  history = [];
  base = [];
  checkpoint_reason = reason;
  checkpoint_floor = t.completed_turns + 1;
  checkpoint_pending = false;
})

-- ===== src/DiffModel/Plan.antt =====
-- internal/diffmodel/diff.go, RecordWithMode and planReversals: what is recorded, and the collapsed
-- plan of a restore, with one reversal per file.
pub mod Spans
use collomia.Common.{
  ℕ, ◌+◌, Bool, true, false, List, [], ◌∷◌, ◌++◌, any, ltb, Option, none, some, if◌then◌else◌,
}
use collomia.Common.Text.{Codes, text_eq}
use collomia.DiffModel.Data.{Snapshot, TrackerError, Tracker, Io, perm}
use collomia.DiffModel.Checkpoint.{persist}

pub record Reversal : Type 0 where
  pub path : Codes
  pub expected : Option Codes
  pub expected_mode : ℕ
  pub target : Option Codes
  pub target_mode : ℕ
  pub mutations : ℕ

abbrev pub start_of_reversal : Snapshot → Reversal
start_of_reversal s = record {
  path = s.path;
  expected = s.after;
  expected_mode = s.after_mode;
  target = s.before;
  target_mode = s.before_mode;
  mutations = 1;
}

abbrev pub extend : Snapshot → Reversal → Reversal
extend s r = record r {
  expected = s.after;
  expected_mode = s.after_mode;
  mutations = r.mutations + 1;
}

-- The reversal of a file gains a snapshot, or a new one stands last.
unfoldable pub add_reversal : Snapshot → List Reversal → List Reversal
unfolding text_eq
add_reversal s [] = start_of_reversal s ∷ []
add_reversal s (r ∷ rs) =
    let rest = add_reversal s rs in if text_eq s.path r.path then extend s r ∷ rs else r ∷ rest

unfoldable pub plan_from : List Reversal → List Snapshot → List Reversal
unfolding add_reversal
plan_from plan [] = plan
plan_from plan (s ∷ ss) = plan_from (add_reversal s plan) ss

-- The snapshots after a turn, and those up to it.
unfoldable pub later : ℕ → List Snapshot → List Snapshot
later turn [] = []
later turn (s ∷ ss) = let rest = later turn ss in if ltb turn s.turn then s ∷ rest else rest

unfoldable pub earlier : ℕ → List Snapshot → List Snapshot
earlier turn [] = []
earlier turn (s ∷ ss) = let rest = earlier turn ss in if ltb turn s.turn then rest else s ∷ rest

unfoldable pub plan_reversals : ℕ → Tracker → List Reversal
unfolding plan_from later
plan_reversals turn t = plan_from [] (later turn t.history)

-- PendingSince: how many files and mutations.
unfoldable pub mutations_of : List Reversal → ℕ
mutations_of [] = 0
mutations_of (r ∷ rs) = r.mutations + mutations_of rs

abbrev base_of : Codes → Option Codes → List (Codes × Option Codes) → List (Codes × Option Codes)
base_of path before base =
    if any (λ e. text_eq e.0 path) base then base else base ++ (path, before) ∷ []

abbrev pub snapshot_of : Codes → Codes → Option Codes → Option Codes → ℕ → ℕ → Tracker → Snapshot
snapshot_of path op before after before_mode after_mode t = record {
  unavailable = false;
  path = path;
  op = op;
  before = before;
  after = after;
  before_mode = perm before_mode;
  after_mode = perm after_mode;
  turn = t.completed_turns + 1;
}

-- RecordWithMode: the failure of the save is not reported.
unfoldable pub record_with_mode :
    Io → Codes → Codes → Option Codes → Option Codes → ℕ → ℕ → Tracker → Tracker
unfolding persist text_eq
record_with_mode io path op before after before_mode after_mode t =
    (persist io (record t {
      base = base_of path before t.base;
      history = t.history ++ snapshot_of path op before after before_mode after_mode t ∷ [];
    })).0

-- CompleteTurn.
unfoldable pub complete_turn : Tracker → Tracker
complete_turn t = record t { completed_turns = t.completed_turns + 1 }

-- ===== src/DiffModel/Data.antt =====
-- internal/diffmodel/diff.go and checkpoint.go: the recorded mutations of files, the tracker that
-- keeps them, the durable checkpoint, and what an operation meets outside.
use collomia.Common.{ℕ, ◌%◌, Bool, List, Option, if◌then◌else◌}
use collomia.Common.Text.{Codes, text_eq}

-- A file: its bytes and its permission bits.
pub record File : Type 0 where
  pub content : Codes
  pub mode : ℕ

-- The files by path. A path is taken as the name of one file: links between paths are left out.
abbrev pub Disk : Type 0
Disk = Codes → Option File

-- os.FileMode.Perm.
abbrev pub perm : ℕ → ℕ
perm m = m % 512

-- os.FileMode 0o644.
abbrev pub default_mode : ℕ
default_mode = 420

pub record Snapshot : Type 0 where
  pub unavailable : Bool
  pub path : Codes
  pub op : Codes
  pub before : Option Codes
  pub after : Option Codes
  pub before_mode : ℕ
  pub after_mode : ℕ
  pub turn : ℕ

-- checkpointEntry, under a path that is relative to the root.
pub record Entry : Type 0 where
  pub path : Codes
  pub op : Codes
  pub before : Option Codes
  pub after : Option Codes
  pub existed_before : Bool
  pub existed_after : Bool
  pub before_mode : ℕ
  pub after_mode : ℕ
  pub turn : ℕ
  pub unavailable : Bool

-- checkpointState.
pub record Checkpoint : Type 0 where
  pub root : Codes
  pub floor : ℕ
  pub pending : Bool
  pub kept_reason : Codes
  pub entries : List Entry

pub data TrackerError : Type 0 where
  negative_turn : TrackerError
  nothing_to_undo : TrackerError
  checkpoint_failed : TrackerError
  interrupted : TrackerError
  not_retained : TrackerError
  content_not_retained : TrackerError
  insecure_target : Codes → TrackerError
  unreadable : Codes → TrackerError
  changed_outside : Codes → TrackerError
  no_stat : Codes → TrackerError
  not_written : Codes → TrackerError
  drift : List Codes → TrackerError

-- Tracker, for the files below one root. An error of the checkpoint stays until it is bound again.
pub record Tracker : Type 0 where
  pub saver : Bool
  pub checkpoint_error : Bool
  pub checkpoint_root : Codes
  pub checkpoint_reason : Codes
  pub checkpoint_floor : ℕ
  pub checkpoint_pending : Bool
  pub base : List (Codes × Option Codes)
  pub history : List Snapshot
  pub completed_turns : ℕ

-- What an operation meets outside: whether a path gives a safe target, whether the file there can
-- be read and inspected, whether it can be written or removed, the mode that the process gives to a
-- new file, the path relative to the root once links are resolved, if it is inside, and whether a
-- checkpoint stays below 16 MiB and is saved.
pub record Io : Type 0 where
  pub opens : Codes → Bool
  pub reads : Codes → Bool
  pub stats : Codes → Bool
  pub writes : Codes → Bool
  pub new_mode : ℕ → ℕ
  pub relative : Codes → Option Codes
  pub fits : Checkpoint → Bool
  pub saves : Checkpoint → Bool

unfoldable pub put : Codes → Option File → Disk → Disk
unfolding text_eq
put p f d q = if text_eq q p then f else d q

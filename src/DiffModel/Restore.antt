-- ===== src/DiffModel/Restore.antt =====
-- internal/diffmodel/diff.go, Undo, VerifyRestore and RestoreTo with verifyLocked: a restore checks
-- every file of its plan before it writes one.
pub mod Writes
pub mod Returns
pub mod Guarded
pub mod Vanished
use collomia.Common.{
  ℕ, ◌+◌, ◌==◌, Bool, true, false, not, List, [], ◌∷◌, is_empty, Option, none, some, if◌then◌else◌,
}
use collomia.Common.Int.{ℤ, pos, negsuc}
use collomia.Common.Text.{Codes, text_eq}
use collomia.Writescope.{text_lt}
use collomia.DiffModel.Data.{
  File, Disk, Snapshot, Tracker, Io, TrackerError, negative_turn, nothing_to_undo, insecure_target,
  unreadable, changed_outside, no_stat, not_written, drift, put, perm, default_mode,
}
use collomia.DiffModel.Checkpoint.{persist, restore_guard}
use collomia.DiffModel.Plan.{Reversal, plan_reversals, mutations_of, earlier}

-- What a look at one file says.
pub data Look : Type 0 where
  agrees : Look
  differs : Look
  fails : TrackerError → Look

-- The file that is expected with this content, once it has been read.
abbrev pub look_mode : Io → Reversal → File → Look
look_mode io r f =
    if not (io.stats r.path)
    then fails (no_stat r.path)
    else if perm f.mode == perm r.expected_mode
    then agrees
    else differs

abbrev pub look_read : Io → Reversal → Option Codes → Option File → Look
look_read io r none none = agrees
look_read io r none (some f) = differs
look_read io r (some text) none = differs
look_read io r (some text) (some f) = if text_eq f.content text then look_mode io r f else differs

unfoldable pub look : Io → Disk → Reversal → Look
unfolding text_eq
look io d r =
    if not (io.opens r.path)
    then fails (insecure_target r.path)
    else if not (io.reads r.path)
    then fails (unreadable r.path)
    else look_read io r r.expected (d r.path)

-- sort.Strings.
unfoldable pub insert_sorted : Codes → List Codes → List Codes
unfolding text_lt
insert_sorted s [] = s ∷ []
insert_sorted s (t ∷ ts) =
    let rest = t ∷ insert_sorted s ts in if text_lt t s then rest else s ∷ t ∷ ts

-- The files that have changed, or the first failure.
pub data Verified : Type 0 where
  failed : TrackerError → Verified
  moved : List Codes → Verified

abbrev pub with_look : Codes → Look → Verified → Verified
with_look p (fails e) rest = failed e
with_look p agrees rest = rest
with_look p differs (failed e) = failed e
with_look p differs (moved ps) = moved (insert_sorted p ps)

unfoldable pub look_all : Io → Disk → List Reversal → Verified
unfolding look insert_sorted
look_all io d [] = moved []
look_all io d (r ∷ rs) = with_look r.path (look io d r) (look_all io d rs)

abbrev pub verdict : Verified → Option TrackerError
verdict (failed e) = some e
verdict (moved []) = none
verdict (moved (p ∷ ps)) = some (drift (p ∷ ps))

unfoldable pub verify : Io → Disk → List Reversal → Option TrackerError
unfolding look_all
verify io d plan = verdict (look_all io d plan)

-- The mode that Replace publishes: that of a new file passes the process's mask.
abbrev pub publish_mode : Io → Option File → ℕ → ℕ
publish_mode io none m = io.new_mode m
publish_mode io (some f) m = m

abbrev pub or_default : ℕ → ℕ
or_default m = if perm m == 0 then default_mode else perm m

-- Remove and Replace. To remove a file that does not exist fails.
unfoldable pub rewrite_file : Io → Codes → Option Codes → ℕ → Disk → Option Disk
unfolding put
rewrite_file io p none m d = elim (d p) [
  | none ↦ none
  | some f ↦ if io.writes p then some (put p none d) else none
]
rewrite_file io p (some text) m d =
    if io.writes p
    then some
        (put p (some (record { content = text; mode = publish_mode io (d p) (or_default m) })) d)
    else none

-- The files after the writes, those restored in order, and the failure if there was one.
pub record Applied : Type 0 where
  pub disk : Disk
  pub files : List Codes
  pub mutations : ℕ
  pub failure : Option TrackerError

abbrev pub stopped : Disk → Codes → Applied
stopped d p = record { disk = d; files = []; mutations = 0; failure = some (not_written p) }

abbrev pub then_restored : Reversal → Applied → Applied
then_restored r rest = record rest {
  files = r.path ∷ rest.files;
  mutations = r.mutations + rest.mutations;
}

unfoldable pub apply_plan : Io → List Reversal → Disk → Applied
unfolding rewrite_file
apply_plan io [] d = record { disk = d; files = []; mutations = 0; failure = none }
apply_plan io (r ∷ rs) d = elim (rewrite_file io r.path r.target r.target_mode d) [
  | none ↦ stopped d r.path
  | some d' ↦ then_restored r (apply_plan io rs d')
]

-- What RestoreTo and Undo leave: the files, the tracker, what was restored, the failure.
pub record Restored : Type 0 where
  pub disk : Disk
  pub tracker : Tracker
  pub files : List Codes
  pub mutations : ℕ
  pub failure : Option TrackerError

abbrev pub refused : Disk → Tracker → TrackerError → Restored
refused d t e = record { disk = d; tracker = t; files = []; mutations = 0; failure = some e }

abbrev pub interrupted_by : Tracker → Applied → TrackerError → Restored
interrupted_by t a e = record {
  disk = a.disk;
  tracker = t;
  files = a.files;
  mutations = a.mutations;
  failure = some e;
}

-- The write-ahead mark, where a checkpoint is kept.
unfoldable pub mark_pending : Io → Tracker → Tracker × Option TrackerError
unfolding persist
mark_pending io t =
    if t.saver then persist io (record t { checkpoint_pending = true }) else (t, none)

abbrev pub settled : ℕ → Tracker → Tracker
settled turn t = record t {
  history = earlier turn t.history;
  completed_turns = turn;
  checkpoint_pending = false;
}

abbrev pub closed : Applied → Tracker × Option TrackerError → Restored
closed a (t, e) = record {
  disk = a.disk;
  tracker = t;
  files = a.files;
  mutations = a.mutations;
  failure = e;
}

abbrev pub conclude : Io → ℕ → Tracker → Applied → Option TrackerError → Restored
conclude io turn t a none = closed a (persist io (settled turn t))
conclude io turn t a (some e) = interrupted_by t a e

abbrev pub carry_out : Io → ℕ → List Reversal → Disk → Tracker × Option TrackerError → Restored
carry_out io turn plan d (t, some e) = refused d t e
carry_out io turn plan d (t, none) =
    conclude io turn t (apply_plan io plan d) (apply_plan io plan d).failure

abbrev pub idle : ℕ → Disk → Tracker → Restored
idle turn d t = record {
  disk = d;
  tracker = record t { completed_turns = turn };
  files = [];
  mutations = 0;
  failure = none;
}

-- RestoreTo for a turn that is not negative, once the guard and the check have answered.
abbrev pub restore_checked :
    Io → ℕ → List Reversal → Disk → Tracker → Option TrackerError → Restored
restore_checked io turn plan d t (some e) = refused d t e
restore_checked io turn plan d t none = carry_out io turn plan d (mark_pending io t)

abbrev pub restore_plan : Io → ℕ → List Reversal → Disk → Tracker → Restored
restore_plan io turn [] d t = idle turn d t
restore_plan io turn (r ∷ rs) d t = restore_checked io turn (r ∷ rs) d t (verify io d (r ∷ rs))

abbrev pub restore_guarded : Io → ℕ → Disk → Tracker → Option TrackerError → Restored
restore_guarded io turn d t (some e) = refused d t e
restore_guarded io turn d t none = restore_plan io turn (plan_reversals turn t) d t

unfoldable pub restore_to : Io → ℤ → Disk → Tracker → Restored
unfolding restore_guard plan_reversals verify mark_pending apply_plan persist earlier
restore_to io (negsuc n) d t = refused d t negative_turn
restore_to io (pos turn) d t = restore_guarded io turn d t (restore_guard (turn + 1) t)

abbrev pub guarded : Io → ℕ → Disk → Tracker → Option TrackerError → Option TrackerError
guarded io turn d t (some e) = some e
guarded io turn d t none = verify io d (plan_reversals turn t)

unfoldable pub verify_restore : Io → ℤ → Disk → Tracker → Option TrackerError
unfolding restore_guard plan_reversals verify
verify_restore io (negsuc n) d t = some negative_turn
verify_restore io (pos turn) d t = guarded io turn d t (restore_guard (turn + 1) t)

-- ===== src/DiffModel/Tests.antt =====
-- internal/diffmodel: runs of the tracker on a small history, and the theorems at them.
use collomia.Common.{
  ℕ, ◌≤◌, true, false, List, [], ◌∷◌, map, length, count, keep, none, some, ◌≡◌, ◌≢◌, refl, All,
}
use collomia.Common.Int.{pos, negsuc}
use collomia.Common.Text.{Codes}
use collomia.DiffModel.Data.{Disk, Snapshot, Tracker, Io, put, negative_turn, drift}
use collomia.DiffModel.Checkpoint.{restore_guard, gathered, state_of}
use collomia.DiffModel.Checkpoint.Retained.{
  IsBounded, Match, total_bytes, entry_after, is_after, gathered-IsRetained,
}
use collomia.DiffModel.Plan.{Reversal, plan_reversals, later, record_with_mode, complete_turn}
use collomia.DiffModel.Plan.Spans.{Follows, still, moves, reversal_at}
use collomia.DiffModel.Restore.{restore_to, verify_restore}
use collomia.DiffModel.Restore.Writes.{IsWilling, IsRestorable}
use collomia.DiffModel.Restore.Returns.{IsReturned, restore_to-IsReturned}
use collomia.DiffModel.Restore.Guarded.{Spares, restore_to-Spares}
use collomia.DiffModel.Restore.Vanished.{restore_to-vanished}
use collomia.DiffModel.Lines.{lcs_ops}
use collomia.DiffModel.Lines.Longest.{lcs_ops-IsLongest}
use collomia.DiffModel.Lines.Spells.{Spells, Part, is_same}
use collomia.DiffModel.Undo.{last_of, undo, IsUndone, undo-IsUndone}

abbrev willing_io : Io
willing_io = record {
  opens = λ p. true;
  reads = λ p. true;
  stats = λ p. true;
  writes = λ p. true;
  new_mode = λ m. m;
  relative = λ p. some p;
  fits = λ c. true;
  saves = λ c. true;
}

willing : IsWilling willing_io
willing = record {
  opens = λ p. refl;
  reads = λ p. refl;
  stats = λ p. refl;
  writes = λ p. refl;
  saves = λ c. refl;
}

abbrev main_go : Codes
main_go = 97 ∷ []

abbrev util_go : Codes
util_go = 98 ∷ []

abbrev new_tracker : Tracker
new_tracker = record {
  saver = true;
  checkpoint_error = false;
  checkpoint_root = [];
  checkpoint_reason = [];
  checkpoint_floor = 0;
  checkpoint_pending = false;
  base = [];
  history = [];
  completed_turns = 0;
}

abbrev empty_disk : Disk
empty_disk p = none

-- Turn 1 makes one file; turn 2 changes it and makes another.
abbrev turn_one : Tracker
turn_one =
    complete_turn (record_with_mode willing_io main_go [] none (some (1 ∷ [])) 420 420 new_tracker)

abbrev turn_two : Tracker
turn_two = complete_turn (
    record_with_mode willing_io util_go [] none (some (3 ∷ [])) 420 420
      (record_with_mode willing_io main_go [] (some (1 ∷ [])) (some (2 ∷ [])) 420 420 turn_one))

abbrev disk_one : Disk
disk_one = put main_go (some (record { content = 1 ∷ []; mode = 420 })) empty_disk

abbrev disk_half : Disk
disk_half = put main_go (some (record { content = 2 ∷ []; mode = 420 })) disk_one

abbrev disk_two : Disk
disk_two = put util_go (some (record { content = 3 ∷ []; mode = 420 })) disk_half

-- The same, but the other file is deleted again.
abbrev turn_gone : Tracker
turn_gone = record_with_mode willing_io util_go [] (some (3 ∷ [])) none 420 420 turn_two

restore_test :
    ((restore_to willing_io (pos 1) disk_two turn_two).failure ≡ none)
    × ((restore_to willing_io (pos 1) disk_two turn_two).files ≡ main_go ∷ util_go ∷ [])
    × ((restore_to willing_io (pos 1) disk_half turn_two).failure ≡ some (drift (util_go ∷ [])))
    × (verify_restore willing_io (negsuc 0) disk_two turn_two ≡ some negative_turn)
unfolding restore_to verify_restore record_with_mode complete_turn put
restore_test = (refl, refl, refl, refl)

followed : Follows disk_one (later 1 turn_two.history) disk_two
unfolding record_with_mode complete_turn put later
followed = moves refl (moves refl still)

plan_two : All (IsRestorable willing_io) (plan_reversals 1 turn_two)
unfolding record_with_mode complete_turn plan_reversals
plan_two = (
  record { still_there = λ h. refl; mode = λ h. refl; unmasked = λ h k. refl },
  (record { still_there = λ h. refl; mode = λ h. refl; unmasked = λ h k. refl }, tt),
)

allowed : restore_guard 2 turn_two ≡ none
unfolding record_with_mode complete_turn restore_guard
allowed = refl

restore_to-IsReturned_example :
    IsReturned disk_one 1 (restore_to willing_io (pos 1) disk_two turn_two)
restore_to-IsReturned_example =
    restore_to-IsReturned willing_io willing 1 disk_one disk_two turn_two followed plan_two allowed

restore_to-Spares_example :
    Spares willing_io disk_half
      (plan_reversals 1 turn_two)
      (restore_to willing_io (pos 1) disk_half turn_two).disk
restore_to-Spares_example = restore_to-Spares willing_io 1 disk_half turn_two

abbrev gone : Reversal
gone = record {
  path = util_go;
  expected = none;
  expected_mode = 420;
  target = none;
  target_mode = 420;
  mutations = 2;
}

planned_gone : reversal_at util_go (plan_reversals 1 turn_gone) ≡ some gone
unfolding record_with_mode complete_turn plan_reversals reversal_at
planned_gone = refl

restore_to-vanished_example : (restore_to willing_io (pos 1) disk_half turn_gone).failure ≢ none
restore_to-vanished_example =
    restore_to-vanished willing_io 1 disk_half turn_gone util_go gone planned_gone refl refl

abbrev last_snapshot : Snapshot
last_snapshot = record {
  unavailable = false;
  path = util_go;
  op = [];
  before = none;
  after = some (3 ∷ []);
  before_mode = 420;
  after_mode = 420;
  turn = 2;
}

last_two : last_of turn_two.history ≡ some last_snapshot
unfolding record_with_mode complete_turn
last_two = refl

absent : disk_half util_go ≡ none
unfolding put
absent = refl

undo-IsUndone_example : IsUndone disk_half (undo willing_io disk_two turn_two)
undo-IsUndone_example =
    undo-IsUndone willing_io disk_half turn_two last_snapshot willing last_two absent
      (record { still_there = λ h. refl; mode = λ h. refl; unmasked = λ h k. refl }) allowed

gathered-IsRetained_example :
    IsBounded (state_of turn_two (gathered willing_io turn_two))
    × ((turn : ℕ)
        → (state_of turn_two (gathered willing_io turn_two)).floor ≤ turn
        → Match willing_io
            (total_bytes (state_of turn_two (gathered willing_io turn_two)).entries)
            (keep (entry_after turn) (state_of turn_two (gathered willing_io turn_two)).entries)
            (keep (is_after turn) turn_two.history))
gathered-IsRetained_example = gathered-IsRetained willing_io turn_two

abbrev line_a : Codes
line_a = 120 ∷ []

abbrev line_b : Codes
line_b = 121 ∷ []

diff_test :
    map (λ o. o.text) (lcs_ops (line_a ∷ line_b ∷ []) (line_b ∷ line_a ∷ line_b ∷ []))
    ≡ line_b ∷ line_a ∷ line_b ∷ []
unfolding lcs_ops
diff_test = refl

lcs_ops-IsLongest_example :
    Spells
      (line_a ∷ line_b ∷ [])
      (line_b ∷ line_a ∷ [])
      (lcs_ops (line_a ∷ line_b ∷ []) (line_b ∷ line_a ∷ []))
    × ((c : List Codes)
        → Part c (line_a ∷ line_b ∷ [])
        → Part c (line_b ∷ line_a ∷ [])
        → length c ≤ count is_same (lcs_ops (line_a ∷ line_b ∷ []) (line_b ∷ line_a ∷ [])))
lcs_ops-IsLongest_example = lcs_ops-IsLongest (line_a ∷ line_b ∷ []) (line_b ∷ line_a ∷ [])

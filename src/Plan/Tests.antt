-- ===== src/Plan/Tests.antt =====
-- Runs of internal/plan on concrete plans, and the theorems there. The messages of the runs hold the
-- ID, the title, the status and the evidence of a step.
use collomia.Common.{
  ℕ, List, [], ◌∷◌, Option, none, some, String, Bool, false, map, ◌≡◌, ◌≢◌, ◌↔◌, refl, ap, arith,
}
use collomia.Common.Text.{Codes, codes}
use collomia.Common.Int.{ℤ, pos, negsuc, int_eq}
use collomia.Plan.Data.{Step, Plan}
use collomia.Plan.Cycle.{clear, found, dependency_cycle}
use collomia.Plan.Acyclic.{IsExact, dependency_cycle-IsExact}
use collomia.Plan.Validate.{
  Fault, validate, cycle, unmet_dependency, no_evidence, wide_scope, step_repeated,
}
use collomia.Plan.Validate.Valid.{IsValid, validate-IsValid}
use collomia.Plan.Completion.{ready, blocked, incomplete, assess_completion}
use collomia.Plan.Completion.Assessed.{IsAssessed, assess_completion-IsAssessed}
use collomia.Plan.Merge.{
  Json, Object, key_of, get_elem?, merge_steps, merge_plan, kept_id, update_id,
}
use collomia.Plan.Merge.Kept.{IsUnnamed, merge_steps-kept}
use collomia.Plan.Board.{Board, new_board, clear_board}
use collomia.Plan.Board.Writes.{Changes, here, next, clears, Changes-fresh}

abbrev same : ℕ → ℕ
same c = c

abbrev step_of : ℤ → String → List ℤ → Step
step_of id status deps = record {
  id = id;
  title = codes "read";
  status = status;
  depends_on = deps;
  acceptance = [];
  execution = "";
  write_paths = [];
  evidence = codes "go test";
}

abbrev plan_of : List Step → Plan
plan_of steps = record {
  goal = codes "ship";
  steps = steps;
  artifacts = record { path = codes "out.md"; role = "deliverable" } ∷ [];
  resolved_failures = [];
  verification_note = [];
  validation_note = [];
  updated = 0;
}

abbrev chain : List Step
chain =
    step_of (pos 2) "pending" (pos 1 ∷ [])
    ∷ step_of (pos 1) "done" (negsuc 0 ∷ [])
    ∷ step_of (negsuc 0) "skipped" []
    ∷ []

abbrev loop : List Step
loop = step_of (pos 1) "pending" (pos 2 ∷ []) ∷ step_of (pos 2) "pending" (pos 1 ∷ []) ∷ []

abbrev run : List Step → Option Fault
run steps = validate same same (plan_of steps)

cycle_tests :
    (dependency_cycle chain ≡ clear (pos 2 ∷ pos 1 ∷ negsuc 0 ∷ []))
    × (dependency_cycle loop ≡ found (pos 1))
unfolding dependency_cycle int_eq
cycle_tests = (refl, refl)

validate_tests :
    (run chain ≡ none)
    × (run loop ≡ some (cycle (pos 1)))
    × (run (step_of (pos 1) "done" (pos 2 ∷ []) ∷ step_of (pos 2) "blocked" [] ∷ [])
        ≡ some (unmet_dependency 0 (pos 2)))
    × (run (record (step_of (pos 1) "done" []) { evidence = codes " " } ∷ [])
        ≡ some (no_evidence 0 "done"))
    × (run (
          record (step_of (pos 1) "pending" []) {
            execution = "isolated_write";
            write_paths = codes "*" ∷ [];
          }
          ∷ [])
        ≡ some (wide_scope 0))
    × (run (step_of (pos 1) "pending" [] ∷ step_of (pos 1) "done" [] ∷ [])
        ≡ some (step_repeated (pos 1)))
unfolding validate
validate_tests = (refl, refl, refl, refl, refl, refl)

assess_tests :
    ((assess_completion same same (some (plan_of chain))).state ≡ incomplete)
    × ((assess_completion same same (some (plan_of (step_of (pos 1) "done" [] ∷ [])))).state
        ≡ ready)
    × ((assess_completion same same (some (plan_of (step_of (pos 1) "blocked" [] ∷ [])))).state
        ≡ blocked)
unfolding assess_completion
assess_tests = (refl, refl, refl)

dependency_cycle-IsExact_example : IsExact loop (dependency_cycle loop)
dependency_cycle-IsExact_example = dependency_cycle-IsExact loop

validate-IsValid_example : (run chain ≡ none) ↔ IsValid same same (plan_of chain)
validate-IsValid_example = validate-IsValid same same (plan_of chain)

assess_completion-IsAssessed_example :
    IsAssessed same same (plan_of chain) (assess_completion same same (some (plan_of chain)))
assess_completion-IsAssessed_example = assess_completion-IsAssessed same same (plan_of chain)

data Field : Type 0 where
  number : ℤ → Field
  flag : Bool → Field
  words : Codes → Field
  word : String → Field

data Message : Type 0 where
  field : Field → Message
  objects : List (List (String × Field)) → Message

abbrev opened : List (String × Field) → Object Message
opened [] = []
opened ((k, v) ∷ rest) = (k, field v) ∷ opened rest

abbrev closed : Object Message → List (String × Field)
closed [] = []
closed ((k, field v) ∷ rest) = (k, v) ∷ closed rest
closed ((k, objects v) ∷ rest) = closed rest

abbrev id_of : Option Field → ℤ
id_of (some (number n)) = n
id_of _ = pos 0

abbrev word_of : Option Field → String
word_of (some (word w)) = w
word_of _ = ""

abbrev words_of : Option Field → Codes
words_of (some (words w)) = w
words_of _ = []

abbrev step_in : List (String × Field) → Step
step_in s = record (step_of (id_of (key_of "id" s)) (word_of (key_of "status" s)) []) {
  title = words_of (key_of "title" s);
  evidence = words_of (key_of "evidence" s);
}

abbrev fields_of : Step → List (String × Field)
fields_of s =
    ("id", number s.id)
    ∷ ("title", words s.title)
    ∷ ("status", word s.status)
    ∷ ("evidence", words s.evidence)
    ∷ []

abbrev read_steps : Option Message → List Step
read_steps (some (objects steps)) = map step_in steps
read_steps _ = []

abbrev read_objects_of : Message → Option (List (Object Message))
read_objects_of (objects steps) = some (map opened steps)
read_objects_of (field f) = none

abbrev read_int_of : Message → Option ℤ
read_int_of (field (number n)) = some n
read_int_of _ = none

abbrev read_bool_of : Message → Option Bool
read_bool_of (field (flag b)) = some b
read_bool_of _ = none

abbrev messages : Json
messages = record {
  Raw = Message;
  read_objects = read_objects_of;
  read_int = read_int_of;
  read_bool = read_bool_of;
  read_plan = λ o. some (plan_of (read_steps (key_of "steps" o)));
  write_objects = λ os. objects (map closed os);
  write_plan = λ p. ("steps", objects (map fields_of p.steps)) ∷ [];
}

abbrev two : List Step
two = step_of (pos 1) "pending" [] ∷ step_of (pos 2) "pending" [] ∷ []

-- `{"steps": [{"id": 1, "status": "done"}]}`
abbrev progress : Object Message
progress = ("steps", objects ((("id", number (pos 1)) ∷ ("status", word "done") ∷ []) ∷ [])) ∷ []

abbrev started_board : Board
started_board = record { current = some (plan_of two); revision = 1; observed = [] }

-- The second step, which the update does not name, is still there.
progress_test :
    merge_plan messages (some (plan_of two)) progress false
    ≡ some (plan_of (step_of (pos 1) "done" [] ∷ step_of (pos 2) "pending" [] ∷ []))
unfolding merge_plan int_eq
progress_test = refl

abbrev old_steps : List (Object Message)
old_steps = map (λ s. opened (fields_of s)) two

abbrev done_one : Object Message
done_one = ("id", field (number (pos 1))) ∷ ("status", field (word "done")) ∷ []

abbrev new_steps : List (Object Message)
new_steps =
    opened (fields_of (step_of (pos 1) "done" []))
    ∷ opened (fields_of (step_of (pos 2) "pending" []))
    ∷ []

merged_steps : merge_steps messages old_steps [] old_steps (done_one ∷ []) ≡ some new_steps
unfolding merge_steps int_eq
merged_steps = refl

abbrev id_or_zero : Option ℤ → ℤ
id_or_zero none = pos 0
id_or_zero (some id) = id

abbrev size_of_int : ℤ → ℕ
size_of_int (pos n) = n
size_of_int (negsuc n) = n

abbrev second_step : Object Message
second_step = opened (fields_of (step_of (pos 2) "pending" []))

unnamed : IsUnnamed messages (kept_id messages second_step) (done_one ∷ [])
unfolding update_id kept_id
unnamed = (
  λ id e same. absurd (omega (arith, ap (λ x. size_of_int (id_or_zero x)) e, ap size_of_int same)),
  tt,
)

merge_steps-kept_example : get_elem? new_steps 1 ≡ some second_step
merge_steps-kept_example =
    merge_steps-kept messages old_steps (done_one ∷ []) new_steps 1 second_step merged_steps refl
      unnamed

revised : Changes same same messages new_board 1 (clear_board new_board)
revised = next here (clears new_board)

Changes-fresh_example : new_board.revision ≢ (clear_board new_board).revision
unfolding new_board
Changes-fresh_example =
    Changes-fresh same same messages (omega arith) (omega arith) (omega arith) revised

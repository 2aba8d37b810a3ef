-- ===== src/Plan/Merge.antt =====
-- mergePlan of internal/plan/plan.go. JSON texts stay what they are in the source, raw messages:
-- `Json` holds the calls of encoding/json.
pub mod Kept
use collomia.Common.{
  ℕ, zero, suc, ◌≤◌, ◌<◌, List, [], ◌∷◌, ◌++◌, Option, none, some, String, str_eq, Bool, true,
  false, ◌||◌, length, if◌then◌else◌, ◌==◌, is_empty,
}
use collomia.Common.Int.{ℤ, pos, int_eq, has_int}
use collomia.Plan.Data.{Plan}

-- map[string]json.RawMessage: an entry for each key.
abbrev pub Object : Type 0 → Type 0
Object Raw = List (String × Raw)

-- Unmarshal into a list of objects, an int, a bool and a plan; Marshal of a list of objects and of a
-- plan. A missing message is not JSON, so no call is made on it.
pub record Json : Type 1 where
  pub Raw : Type 0
  pub read_objects : Raw → Option (List (Object Raw))
  pub read_int : Raw → Option ℤ
  pub read_bool : Raw → Option Bool
  pub read_plan : Object Raw → Option Plan
  pub write_objects : List (Object Raw) → Raw
  pub write_plan : Plan → Object Raw

abbrev pub key_of {ℓ} : {A : Type ℓ} → String → List (String × A) → Option A
key_of k [] = none
key_of k ((name, v) ∷ rest) = let later = key_of k rest in if str_eq name k then some v else later

-- `m[k] = v`
abbrev pub put_key {ℓ} : {A : Type ℓ} → String → A → List (String × A) → List (String × A)
put_key k v [] = (k, v) ∷ []
put_key k v ((name, w) ∷ rest) =
    let later = (name, w) ∷ put_key k v rest in if str_eq name k then (name, v) ∷ rest else later

-- `for k, v := range update { m[k] = v }`
unfoldable pub put_all {ℓ} :
    {A : Type ℓ} → List (String × A) → List (String × A) → List (String × A)
put_all [] m = m
put_all ((k, v) ∷ rest) m = put_all rest (put_key k v m)

abbrev pub drop_key {ℓ} : {A : Type ℓ} → String → List (String × A) → List (String × A)
drop_key k [] = []
drop_key k ((name, v) ∷ rest) =
    let later = drop_key k rest in if str_eq name k then later else (name, v) ∷ later

abbrev pub modify {ℓ} : {A : Type ℓ} → ℕ → (A → A) → List A → List A
modify n f [] = []
modify zero f (x ∷ xs) = f x ∷ xs
modify (suc n) f (x ∷ xs) = x ∷ modify n f xs

abbrev pub get_elem? {ℓ} : {A : Type ℓ} → List A → ℕ → Option A
get_elem? [] n = none
get_elem? (x ∷ xs) zero = some x
get_elem? (x ∷ xs) (suc n) = get_elem? xs n

module _ (J : Json) where
  unfoldable pub update_id : Object J.Raw → Option ℤ
  update_id step = elim (key_of "id" step) [ none ↦ none | some raw ↦ J.read_int raw ]

  -- The ID of a step that is kept, 0 where it cannot be read.
  unfoldable pub kept_id : Object J.Raw → ℤ
  unfolding update_id
  kept_id step = elim (update_id step) [ none ↦ pos 0 | some id ↦ id ]

  -- `positions[id]`: the last of the steps with the ID, the first of them at `n`.
  unfoldable pub position : ℕ → List (Object J.Raw) → ℤ → Option ℕ
  unfolding kept_id
  position n [] id = none
  position n (s ∷ ss) id = elim (position (suc n) ss id) [
    | some i ↦ some i
    | none ↦ if int_eq (kept_id s) id then some n else none
  ]

  -- One update on the steps, whose positions are those of `old`.
  unfoldable pub merge_step :
      List (Object J.Raw) → ℤ → Object J.Raw → List (Object J.Raw) → List (Object J.Raw)
  unfolding position put_all
  merge_step old id update steps = elim (position 0 old id) [
    | some i ↦ modify i (put_all update) steps
    | none ↦ steps ++ update ∷ []
  ]

  unfoldable pub merge_steps :
      List (Object J.Raw)
      → List ℤ
      → List (Object J.Raw)
      → List (Object J.Raw)
      → Option (List (Object J.Raw))
  unfolding update_id merge_step has_int
  merge_steps old seen steps [] = some steps
  merge_steps old seen steps (u ∷ us) = elim (update_id u) [
    | none ↦ none
    | some id ↦
        let later = merge_steps old (id ∷ seen) (merge_step old id u steps) us in
        if int_eq id (pos 0) || has_int seen id then none else later
  ]

  -- The steps of the update merged into those of the plan.
  unfoldable pub merge_incoming : Object J.Raw → Object J.Raw → Option (Object J.Raw)
  unfolding merge_steps
  merge_incoming base incoming = elim (key_of "steps" incoming) [
    | none ↦ some incoming
    | some raw ↦ elim (key_of "steps" base) [
      | none ↦ none
      | some kept ↦ elim (J.read_objects kept) [
        | none ↦ none
        | some old ↦ elim (J.read_objects raw) [
          | none ↦ none
          | some updates ↦
              if is_empty updates then none else elim (merge_steps old [] old updates) [
                | none ↦ none
                | some merged ↦ some (put_key "steps" (J.write_objects merged) incoming)
              ]
        ]
      ]
    ]
  ]

  unfoldable pub merge_plan : Option Plan → Object J.Raw → Bool → Option Plan
  unfolding merge_incoming put_all
  merge_plan none incoming replace = J.read_plan (put_all incoming [])
  merge_plan (some p) incoming replace =
      let base = J.write_plan p in
      if replace then J.read_plan (put_all incoming []) else elim (merge_incoming base incoming) [
        | none ↦ none
        | some merged ↦ J.read_plan (put_all merged base)
      ]

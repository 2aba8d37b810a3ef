-- ===== src/GoalGraph/Ready/Fuel.antt =====
-- internal/goalgraph/graph.go: the fuel of the search for ancestors and of the passes over dependents.
use mathlib.Core.List.{Memᴰ}
use collomia.Common.{
  ℕ, zero, suc, ◌≤◌, ◌<◌, Bool, true, false, not, ◌&&◌, ◌||◌, List, [], ◌∷◌, map, any, count,
  length, count_mono, count-strict, count≤length, some, if◌then◌else◌, ◌≡◌, refl, sym, ◌∙◌, ap,
  arith, Bool-cases, Option-cases, inl, inr, if_elim, subst,
}
use collomia.Common.Int.{ℤ, int_eq, has_int, int_eq→eq, int_eq_refl}
use collomia.GoalGraph.Data.{Node}
use collomia.GoalGraph.Slots.{find, find-Mem}
use collomia.GoalGraph.Ready.Stale.{
  deps_of, add_ancestors, ancestors, stale_dependent, dependents_pass, dependents_loop,
  invalidate_dependents,
}

abbrev ids_of : List Node → List ℤ
ids_of ns = map (λ n. n.id) ns

-- The ids that are not in a set yet.
abbrev missing : List ℤ → List ℤ → ℕ
missing set ids = count (λ i. not (has_int set i)) ids

-- One set holds whatever another does.
abbrev Grows : List ℤ → List ℤ → Type 0
Grows more set = (i : ℤ) → has_int set i ≡ true → has_int more i ≡ true

Grows-cons : (d : ℤ) (set : List ℤ) → Grows (d ∷ set) set
unfolding has_int
Grows-cons d set i h = ground arith

has_head : (d : ℤ) (set : List ℤ) → has_int (d ∷ set) d ≡ true
unfolding has_int
has_head d set = let on = int_eq_refl d in ground arith

missing_mono : (more set ids : List ℤ) → Grows more set → missing more ids ≤ missing set ids
missing_mono more set ids g =
    count_mono (λ i. not (has_int more i)) (λ i. not (has_int set i)) (λ i h. still i h) ids
  where
    still : (i : ℤ) → not (has_int more i) ≡ true → not (has_int set i) ≡ true
    still i h = ground (arith, g i)

-- A set that gains one of the ids misses fewer.
missing-strict :
    (more set ids : List ℤ) {i : ℤ}
    → Grows more set
    → Memᴰ i ids
    → has_int set i ≡ false
    → has_int more i ≡ true
    → missing more ids < missing set ids
missing-strict more set ids {i} g m off on =
    count-strict (λ j. not (has_int more j)) (λ j. not (has_int set j)) (λ j h. still j h) ids m
      (ground arith) (ground arith)
  where
    still : (j : ℤ) → not (has_int more j) ≡ true → not (has_int set j) ≡ true
    still j h = ground (arith, g j)

length-ids : (ns : List Node) → length (ids_of ns) ≡ length ns
length-ids [] = refl
length-ids (n ∷ ns) = omega (arith, length-ids ns)

id-Mem : {n : Node} (ns : List Node) → Memᴰ n ns → Memᴰ n.id (ids_of ns)
id-Mem ns (Memᴰ.head e) = Memᴰ.head (ap (λ (k : Node). k.id) e)
id-Mem ns (Memᴰ.tail {xs = ms} m) = Memᴰ.tail (id-Mem ms m)

module _ (nodes : List Node) where
  add_ancestors-Grows :
      (fuel : ℕ) (ds found : List ℤ) → Grows (add_ancestors fuel nodes ds found) found
  unfolding add_ancestors
  add_ancestors-Grows zero [] found i h = h
  add_ancestors-Grows zero (d ∷ ds) found i h = h
  add_ancestors-Grows (suc fuel) [] found i h = h
  add_ancestors-Grows (suc fuel) (d ∷ ds) found i h =
      let below = deps_of (find (λ n. int_eq n.id d) nodes) in
      let deeper = add_ancestors fuel nodes below (d ∷ found) in
      let next = if has_int found d then found else deeper in
      let still : has_int next i ≡ true =
        if_elim (λ set. has_int set i ≡ true) (has_int found d) (λ e. h)
          (λ e. add_ancestors-Grows fuel below (d ∷ found) i (Grows-cons d found i h)) in
      add_ancestors-Grows (suc fuel) ds next i still

  -- No fuel is needed where there is nothing to add.
  add_ancestors-nil : (fuel : ℕ) (found : List ℤ) → add_ancestors fuel nodes [] found ≡ found
  unfolding add_ancestors
  add_ancestors-nil zero found = refl
  add_ancestors-nil (suc fuel) found = refl

  -- A new id that is a node's leaves fewer nodes to find.
  fewer :
      (d : ℤ) (found : List ℤ) {n : Node}
      → find (λ m. int_eq m.id d) nodes ≡ some n
      → has_int found d ≡ false
      → missing (d ∷ found) (ids_of nodes) < missing found (ids_of nodes)
  fewer d found {n} at off =
      let (m, hit) = find-Mem (λ k. int_eq k.id d) nodes at in
      let e : n.id ≡ d = int_eq→eq n.id d hit in
      let there : Memᴰ d (ids_of nodes) = subst (λ i. Memᴰ i (ids_of nodes)) e (id-Mem nodes m) in
      missing-strict (d ∷ found) found (ids_of nodes) (Grows-cons d found) there off
        (has_head d found)

  add_ancestors_enough :
      (fuel more : ℕ) (ds found : List ℤ)
      → missing found (ids_of nodes) < fuel
      → missing found (ids_of nodes) < more
      → add_ancestors fuel nodes ds found ≡ add_ancestors more nodes ds found
  unfolding add_ancestors
  add_ancestors_enough zero more ds found h k = absurd (omega arith)
  add_ancestors_enough (suc fuel) zero ds found h k = absurd (omega arith)
  add_ancestors_enough (suc fuel) (suc more) [] found h k = refl
  add_ancestors_enough (suc fuel) (suc more) (d ∷ ds) found h k =
      let at = find (λ n. int_eq n.id d) nodes in
      elim (Bool-cases (has_int found d)) [
        | inl hit ↦ rw hit (add_ancestors_enough (suc fuel) (suc more) ds found h k)
        | inr miss ↦
            let e : add_ancestors fuel nodes (deps_of at) (d ∷ found)
                ≡ add_ancestors more nodes (deps_of at) (d ∷ found) =
              elim (Option-cases at) [
                | inl gone ↦
                    rw gone (
                      add_ancestors-nil fuel (d ∷ found) ∙ sym (add_ancestors-nil more (d ∷ found)))
                | inr (n, here) ↦
                    let less = fewer d found here miss in
                    add_ancestors_enough fuel more (deps_of at) (d ∷ found) (omega (arith, less))
                      (omega (arith, less))
              ] in
            let next = add_ancestors more nodes (deps_of at) (d ∷ found) in
            let grown : Grows next found =
              λ i o. add_ancestors-Grows more (deps_of at) (d ∷ found) i (Grows-cons d found i o) in
            let less = missing_mono next found (ids_of nodes) grown in
            rw miss (
              ap (λ set. add_ancestors (suc fuel) nodes ds set) e
              ∙ add_ancestors_enough (suc fuel) (suc more) ds next (omega (arith, less))
                  (omega (arith, less)))
      ]

stale_dependent-id : (n : Node) → (stale_dependent n).id ≡ n.id
stale_dependent-id n = ground arith

-- Whether a pass marks a node, and the set that it goes on with.
abbrev hits : List ℤ → Node → Bool
hits invalid n = not (has_int invalid n.id) && any (has_int invalid) n.depends_on

abbrev marked : List ℤ → Node → List ℤ
marked invalid n = if hits invalid n then n.id ∷ invalid else invalid

marked-Grows : (invalid : List ℤ) (n : Node) → Grows (marked invalid n) invalid
marked-Grows invalid n i h =
    if_elim (λ set. has_int set i ≡ true) (hits invalid n) (λ e. Grows-cons n.id invalid i h)
      (λ e. h)

pass-ids : (ns : List Node) (invalid : List ℤ) → ids_of (dependents_pass ns invalid).0 ≡ ids_of ns
unfolding dependents_pass
pass-ids [] invalid = refl
pass-ids (n ∷ ns) invalid =
    let head : (if hits invalid n then stale_dependent n else n).id ≡ n.id =
      if_elim (λ (m : Node). m.id ≡ n.id) (hits invalid n) (λ e. stale_dependent-id n)
        (λ e. refl) in
    λ i. head i ∷ pass-ids ns (marked invalid n) i

pass-Grows : (ns : List Node) (invalid : List ℤ) → Grows (dependents_pass ns invalid).1 invalid
unfolding dependents_pass
pass-Grows [] invalid i h = h
pass-Grows (n ∷ ns) invalid i h = pass-Grows ns (marked invalid n) i (marked-Grows invalid n i h)

or_false : {a b : Bool} → a ≡ false → a || b ≡ true → b ≡ true
or_false h k = ground arith

-- A node that a set need not gain leaves what is missing of the others.
skipped :
    (n : Node) (ns : List Node) (more set : List ℤ)
    → Grows more set
    → missing more (ids_of ns) < missing set (ids_of ns)
    → missing more (ids_of (n ∷ ns)) < missing set (ids_of (n ∷ ns))
skipped n ns more set g h = ground (arith, g n.id)

-- A pass that adds an id adds that of a node.
pass-strict :
    (ns : List Node) (invalid : List ℤ)
    → (dependents_pass ns invalid).2 ≡ true
    → missing (dependents_pass ns invalid).1 (ids_of ns) < missing invalid (ids_of ns)
unfolding dependents_pass
pass-strict [] invalid h = cc
pass-strict (n ∷ ns) invalid h = elim (Bool-cases (hits invalid n)) [
  | inl hit ↦
      let more = (dependents_pass (n ∷ ns) invalid).1 in
      let e : marked invalid n ≡ n.id ∷ invalid = rw hit refl in
      let inside : has_int (marked invalid n) n.id ≡ true =
        subst (λ set. has_int set n.id ≡ true) (sym e) (has_head n.id invalid) in
      missing-strict more invalid (ids_of (n ∷ ns)) (pass-Grows (n ∷ ns) invalid) (Memᴰ.head refl)
        (ground arith) (pass-Grows ns (marked invalid n) n.id inside)
  | inr miss ↦
      let e : marked invalid n ≡ invalid = rw miss refl in
      let more = (dependents_pass ns (marked invalid n)).1 in
      let again : (dependents_pass ns (marked invalid n)).2 ≡ true = or_false miss h in
      let later = pass-strict ns (marked invalid n) again in
      skipped n ns more invalid (pass-Grows (n ∷ ns) invalid)
        (subst (λ set. missing more (ids_of ns) < missing set (ids_of ns)) e later)
]

dependents_loop_enough :
    (fuel more : ℕ) (ns : List Node) (invalid : List ℤ)
    → missing invalid (ids_of ns) < fuel
    → missing invalid (ids_of ns) < more
    → dependents_loop fuel ns invalid ≡ dependents_loop more ns invalid
unfolding dependents_loop
dependents_loop_enough zero more ns invalid h k = absurd (omega arith)
dependents_loop_enough (suc fuel) zero ns invalid h k = absurd (omega arith)
dependents_loop_enough (suc fuel) (suc more) ns invalid h k =
    let pass = dependents_pass ns invalid in
    elim (Bool-cases pass.2) [
      | inl again ↦
          let less = pass-strict ns invalid again in
          let same : missing pass.1 (ids_of pass.0) ≡ missing pass.1 (ids_of ns) =
            ap (missing pass.1) (pass-ids ns invalid) in
          rw again (
            dependents_loop_enough fuel more pass.0 pass.1 (omega (arith, less, same))
              (omega (arith, less, same)))
      | inr last ↦ rw last refl
    ]

-- The search for a node's ancestors and the passes over its dependents end by themselves: with any
-- fuel above the number of nodes the result is the one that the program computes.
pub invalidation_enough :
    (fuel : ℕ) (nodes : List Node) (i : ℤ)
    → length nodes < fuel
    → (add_ancestors fuel nodes (deps_of (find (λ n. int_eq n.id i) nodes)) [] ≡ ancestors nodes i)
      × (dependents_loop fuel nodes (i ∷ []) ≡ invalidate_dependents i nodes)
unfolding ancestors invalidate_dependents
invalidation_enough fuel nodes i h =
    let few = count≤length (λ j. not (has_int [] j)) (ids_of nodes) in
    let few' = count≤length (λ j. not (has_int (i ∷ []) j)) (ids_of nodes) in
    let size = length-ids nodes in
    (
      add_ancestors_enough nodes fuel (suc (length nodes))
          (deps_of (find (λ n. int_eq n.id i) nodes)) [] (omega (arith, few, size))
          (omega (arith, few, size)),
      dependents_loop_enough fuel (suc (length nodes)) nodes (i ∷ []) (omega (arith, few', size))
          (omega (arith, few', size)),
    )

-- ===== src/Plan/Cycle.antt =====
-- dependencyCycle of internal/plan/plan.go: a depth-first search.
use collomia.Common.{ℕ, zero, suc, List, [], ◌∷◌, none, some, if◌then◌else◌, length, map}
use collomia.Common.Int.{ℤ, has_int}
use collomia.Plan.Data.{Step, last_of}

-- `clear` carries `visited`. The search never runs `out` of fuel.
pub data Search : Type 0 where
  clear : List ℤ → Search
  found : ℤ → Search
  out : Search

-- `edges[id]`, which is empty where no step has the ID.
unfoldable pub edges : List Step → ℤ → List ℤ
edges steps id = elim (last_of (λ s. s.depends_on) steps id) [ none ↦ [] | some ds ↦ ds ]

-- What follows a search that found no cycle.
abbrev pub on_clear : Search → (List ℤ → Search) → Search
on_clear (clear later) go = go later
on_clear (found c) go = found c
on_clear out go = out

-- The loop over a list of IDs that returns the first cycle.
unfoldable pub visit_all : (List ℤ → ℤ → Search) → List ℤ → List ℤ → Search
visit_all visit visited [] = clear visited
visit_all visit visited (d ∷ ds) = on_clear (visit visited d) (λ later. visit_all visit later ds)

-- `visiting` holds the IDs whose call is open: a call puts its ID there and takes it away on its
-- return, so it is an argument here.
unfoldable pub visit : List Step → ℕ → List ℤ → List ℤ → ℤ → Search
unfolding visit_all has_int edges
visit steps zero visiting visited id = out
visit steps (suc fuel) visiting visited id =
    let below = visit_all (visit steps fuel (id ∷ visiting)) visited (edges steps id) in
    let result = on_clear below (λ later. clear (id ∷ later)) in
    if has_int visiting id then found id else if has_int visited id then clear visited else result

-- An open call stands for a step, so the number of steps bounds their depth.
unfoldable pub dependency_cycle : List Step → Search
unfolding visit visit_all
dependency_cycle steps = visit_all (visit steps (suc (length steps)) []) [] (map (λ s. s.id) steps)

-- ===== src/Plan/Acyclic.antt =====
-- The search of internal/plan/plan.go for a cycle is exact: it ends, and it finds a cycle exactly
-- when the dependencies have one.
use mathlib.Core.List.{Memᴰ}
use mathlib.Core.List.Memᴰ
use collomia.Common.{
  ℕ, zero, suc, ◌<◌, List, [], ◌∷◌, none, some, length, true, false, not, ◌≡◌, ◌⊎◌, inl, inr, refl,
  arith, All, All-Mem, All_of_Mem, Bool-cases, Option-cases, count, count-strict, count≤length, map,
  subst,
}
use collomia.Common.Int.{ℤ, int_eq, has_int, has_int→Mem, int_eq_refl}
use collomia.Plan.Data.{Step, last_of, last_of-Mem}
use collomia.Plan.Cycle.{
  Search, clear, found, out, edges, on_clear, visit_all, visit, dependency_cycle,
}

module _ (steps : List Step) where
  -- A step depends on another, directly or through others.
  pub data Needs : ℤ → ℤ → Type 0 where
    direct : {a b : ℤ} → Memᴰ b (edges steps a) → Needs a b
    through : {a b c : ℤ} → Memᴰ b (edges steps a) → Needs b c → Needs a c

  Needs-snoc : {a b c : ℤ} → Needs a b → Memᴰ c (edges steps b) → Needs a c
  Needs-snoc (direct m) n = through m (direct n)
  Needs-snoc (through m h) n = through m (Needs-snoc h n)

  -- `visited` lists every ID before the IDs it depends on.
  abbrev Sorted : List ℤ → Type 0
  Sorted [] = Unit
  Sorted (v ∷ vs) = All (λ d. Memᴰ d vs) (edges steps v) × Sorted vs

  Sorted-closed :
      (vs : List ℤ) {a b : ℤ} → Sorted vs → Memᴰ a vs → Memᴰ b (edges steps a) → Memᴰ b vs
  Sorted-closed [] h m n = elim m [ ]
  Sorted-closed (v ∷ vs) {a} {b} h (Memᴰ.head e) n =
      Memᴰ.tail (All-Mem (λ d. Memᴰ d vs) (edges steps v) h.0 (rw (← e) n))
  Sorted-closed (v ∷ vs) h (Memᴰ.tail m) n = Memᴰ.tail (Sorted-closed vs h.1 m n)

  Sorted-Needs : (vs : List ℤ) {a b : ℤ} → Sorted vs → Memᴰ a vs → Needs a b → Memᴰ b vs
  Sorted-Needs vs h m (direct n) = Sorted-closed vs h m n
  Sorted-Needs vs h m (through n k) = Sorted-Needs vs h (Sorted-closed vs h m n) k

  Needs-step : {a b : ℤ} → Needs a b → (d : ℤ) × Memᴰ d (edges steps a) × ((d ≡ b) ⊎ Needs d b)
  Needs-step {b} (direct n) = (b, n, inl refl)
  Needs-step (through {b = d} n rest) = (d, n, inr rest)

  Sorted-acyclic : (vs : List ℤ) {a : ℤ} → Sorted vs → Memᴰ a vs → ¬ Needs a a
  Sorted-acyclic [] h m k = elim m [ ]
  Sorted-acyclic (v ∷ vs) h (Memᴰ.tail m) k = Sorted-acyclic vs h.1 m k
  Sorted-acyclic (v ∷ vs) {a} h (Memᴰ.head e) k =
      let (d, n, last) = Needs-step k in
      let m : Memᴰ d vs = All-Mem (λ d. Memᴰ d vs) (edges steps v) h.0 (rw (← e) n) in
      let again : Memᴰ a vs = elim last [
        | inl f ↦ rw (← f) m
        | inr rest ↦ Sorted-Needs vs h.1 m rest
      ] in
      Sorted-acyclic vs h.1 again k

  -- What a call of the search owes for one ID, and for a list of them.
  abbrev Good : List ℤ → ℤ → Search → Type 0
  Good vs id (clear later) = Sorted later × ((x : ℤ) → Memᴰ x vs → Memᴰ x later) × Memᴰ id later
  Good vs id (found c) = Needs c c
  Good vs id out = ⊥

  abbrev GoodAll : List ℤ → List ℤ → Search → Type 0
  GoodAll vs ds (clear later) =
      Sorted later × ((x : ℤ) → Memᴰ x vs → Memᴰ x later) × All (λ d. Memᴰ d later) ds
  GoodAll vs ds (found c) = Needs c c
  GoodAll vs ds out = ⊥

  GoodAll-cons :
      (vs later : List ℤ) (d : ℤ) (ds : List ℤ) (r : Search)
      → Good vs d (clear later)
      → GoodAll later ds r
      → GoodAll vs (d ∷ ds) r
  GoodAll-cons vs later d ds (clear last) (_, was, here) (sorted, kept, all_in) =
      (sorted, λ x m. kept x (was x m), (kept d here, all_in))
  GoodAll-cons vs later d ds (found c) g h = h
  GoodAll-cons vs later d ds out g h = h

  on_clear-GoodAll :
      (vs : List ℤ) (d : ℤ) (ds : List ℤ) (go : List ℤ → Search) (r : Search)
      → Good vs d r
      → ((later : List ℤ) → Sorted later → GoodAll later ds (go later))
      → GoodAll vs (d ∷ ds) (on_clear r go)
  on_clear-GoodAll vs d ds go (clear later) (sorted, was, here) h =
      GoodAll-cons vs later d ds (go later) (sorted, was, here) (h later sorted)
  on_clear-GoodAll vs d ds go (found c) g h = g
  on_clear-GoodAll vs d ds go out g h = g

  visit_all-Good :
      (call : List ℤ → ℤ → Search) (ds : List ℤ)
      → ((vs : List ℤ) (d : ℤ) → Memᴰ d ds → Sorted vs → Good vs d (call vs d))
      → (vs : List ℤ) → Sorted vs
      → GoodAll vs ds (visit_all call vs ds)
  unfolding visit_all
  visit_all-Good call [] ok vs h = (h, λ x m. m, tt)
  visit_all-Good call (d ∷ ds) ok vs h =
      on_clear-GoodAll vs d ds (λ later. visit_all call later ds) (call vs d)
        (ok vs d (Memᴰ.head refl) h) (visit_all-Good call ds (λ us e m. ok us e (Memᴰ.tail m)))

  on_clear-Good :
      (vs : List ℤ) (id : ℤ) (r : Search)
      → GoodAll vs (edges steps id) r
      → Good vs id (on_clear r (λ later. clear (id ∷ later)))
  on_clear-Good vs id (clear later) (sorted, was, all_in) =
      ((all_in, sorted), λ x m. Memᴰ.tail (was x m), Memᴰ.head refl)
  on_clear-Good vs id (found c) g = g
  on_clear-Good vs id out g = g

  -- The steps whose call is not open.
  abbrev free : List ℤ → ℕ
  free visiting = count (λ s. not (has_int visiting s.id)) steps

  edges-step : (id : ℤ) {d : ℤ} → Memᴰ d (edges steps id) → (s : Step) × Memᴰ s steps × (s.id ≡ id)
  unfolding edges
  edges-step id {d} m = elim (Option-cases (last_of (λ s. s.depends_on) steps id)) [
    | inl e ↦
        let none_here : Memᴰ d [] = subst (λ o. Memᴰ d (elim o [ none ↦ [] | some ds ↦ ds ])) e m in
        elim none_here [ ]
    | inr (ds, e) ↦
        let (s, k, same, value) = last_of-Mem (λ s. s.depends_on) steps id e in (s, k, same)
  ]

  free_drops :
      (visiting : List ℤ) (id : ℤ) {d : ℤ}
      → Memᴰ d (edges steps id)
      → has_int visiting id ≡ false
      → free (id ∷ visiting) < free visiting
  unfolding has_int
  free_drops visiting id m h =
      let (s, k, e) = edges-step id m in
      let same : int_eq s.id id ≡ true = rw e (int_eq_refl id) in
      count-strict (λ s. not (has_int (id ∷ visiting) s.id)) (λ s. not (has_int visiting s.id))
        (λ s h. ground arith) steps k (ground arith) (rw e (ground arith))

  visit-Good :
      (fuel : ℕ) (visiting visited : List ℤ) (id : ℤ)
      → free visiting < fuel
      → All (λ v. Needs v id) visiting
      → Sorted visited
      → Good visited id (visit steps fuel visiting visited id)
  unfolding visit
  visit-Good zero visiting visited id f v h = absurd (omega (arith, f))
  visit-Good (suc fuel) visiting visited id f v h = elim (Bool-cases (has_int visiting id)) [
    | inl e ↦ rw e (All-Mem (λ v. Needs v id) visiting v (has_int→Mem visiting id e))
    | inr e ↦ elim (Bool-cases (has_int visited id)) [
      | inl k ↦ rw (e, k) (h, λ x m. m, has_int→Mem visited id k)
      | inr k ↦
          let below =
            visit_all-Good (visit steps fuel (id ∷ visiting)) (edges steps id)
              (λ vs d m sorted.
                visit-Good fuel (id ∷ visiting) vs d (omega (arith, f, free_drops visiting id m e))
                  (
                    direct m,
                    All_of_Mem (λ v. Needs v d) visiting
                        (λ w n. Needs-snoc (All-Mem (λ v. Needs v id) visiting v n) m),
                  )
                  sorted)
              visited h in
          rw (e, k)
            (on_clear-Good visited id
              (visit_all (visit steps fuel (id ∷ visiting)) visited (edges steps id)) below)
    ]
  ]

  -- What the answer of the search means.
  abbrev pub IsExact : Search → Type 0
  IsExact (clear visited) = (a : ℤ) → ¬ Needs a a
  IsExact (found c) = Needs c c
  IsExact out = ⊥

  GoodAll-IsExact : (r : Search) → GoodAll [] (map (λ s. s.id) steps) r → IsExact r
  GoodAll-IsExact (clear later) (sorted, was, all_in) = λ a k.
      let (d, m, last) = Needs-step k in
      let (s, n, e) = edges-step a m in
      let listed : Memᴰ a (map (λ s. s.id) steps) =
        subst (λ x. Memᴰ x (map (λ s. s.id) steps)) e (Memᴰ.map (λ s. s.id) n) in
      Sorted-acyclic later sorted
        (All-Mem (λ d. Memᴰ d later) (map (λ s. s.id) steps) all_in listed) k
  GoodAll-IsExact (found c) g = g
  GoodAll-IsExact out g = g

  -- The search always ends: with a step that depends on itself, directly or through others, or
  -- without one, and then no step does.
  pub dependency_cycle-IsExact : IsExact (dependency_cycle steps)
  unfolding dependency_cycle
  dependency_cycle-IsExact = GoodAll-IsExact (dependency_cycle steps) (
      visit_all-Good (visit steps (suc (length steps)) []) (map (λ s. s.id) steps)
        (λ vs d m sorted.
          visit-Good (suc (length steps)) [] vs d
            (omega (arith, count≤length (λ s. not (has_int [] s.id)) steps)) tt sorted)
        [] tt)

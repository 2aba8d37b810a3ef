-- ===== src/Writescope/Collected.antt =====
-- What the loop of Normalize and its helper compact of internal/writescope/scope.go leave.
use mathlib.Core.List.{Memᴰ}
use mathlib.Core.List.Memᴰ
use collomia.Common.{
  ℕ, Bool, true, false, List, [], ◌∷◌, ◌++◌, map, any, Option, none, some, ◌≡◌, ◌⊎◌, inl, inr, refl,
  sym, ap, ◌∙◌, subst, arith, any→Mem, All, All-append, All_of_Mem, All-Mem, if_elim, if◌then◌else◌,
  length, ltb,
}
use collomia.Common.Text.{Codes, text_eq, text_eq→eq, text_eq_refl}
use collomia.Writescope.{
  workspace, Normalized, normal, failed, ScopeError, text_lt, insert_scope, Checked, whole, path,
  bad, check_scope, collect, covers, compact_from, compact, normalize, max_items, too_many,
}

module _ (lower fold : ℕ → ℕ) where
  covers_self : (s : Codes) → covers lower fold s s ≡ true
  unfolding covers
  covers_self s = ground (arith, text_eq_refl (map fold s))

  -- compact has kept a scope for this one.
  abbrev pub HasCover : List Codes → Codes → Type 0
  HasCover out s = (e : Codes) × Memᴰ e out × (covers lower fold e s ≡ true)

  compact_from-kept :
      (out ss : List Codes) {e : Codes} → Memᴰ e out → Memᴰ e (compact_from lower fold out ss)
  unfolding compact_from
  compact_from-kept out [] m = m
  compact_from-kept out (s ∷ ss) {e} m =
      compact_from-kept (if any (λ e. covers lower fold e s) out then out else out ++ s ∷ []) ss (
        if_elim (Memᴰ e) (any (λ e. covers lower fold e s) out) (λ h. m)
          (λ h. Memᴰ.append_left (s ∷ []) m))

  Mem_last : (out : List Codes) (s : Codes) → Memᴰ s (out ++ s ∷ [])
  Mem_last [] s = Memᴰ.head refl
  Mem_last (x ∷ out) s = Memᴰ.tail (Mem_last out s)

  extend-HasCover :
      (out : List Codes) (s : Codes)
      → HasCover (if any (λ e. covers lower fold e s) out then out else out ++ s ∷ []) s
  extend-HasCover out s =
      if_elim (λ xs. HasCover xs s) (any (λ e. covers lower fold e s) out)
        (λ h. any→Mem (λ e. covers lower fold e s) out h) (λ h. (s, Mem_last out s, covers_self s))

  compact_from-HasCover :
      (out ss : List Codes) (s : Codes) → Memᴰ s ss → HasCover (compact_from lower fold out ss) s
  unfolding compact_from
  compact_from-HasCover out [] s m = elim m [ ]
  compact_from-HasCover out (t ∷ ss) s (Memᴰ.tail m) =
      compact_from-HasCover (if any (λ e. covers lower fold e t) out then out else out ++ t ∷ []) ss
        s m
  compact_from-HasCover out (t ∷ ss) s (Memᴰ.head e) =
      let (x, m, k) = extend-HasCover out t in
      (
        x,
        compact_from-kept (if any (λ e. covers lower fold e t) out then out else out ++ t ∷ []) ss
            m,
        rw e k,
      )

  compact_from-origin :
      (P : Codes → Type 0) (out ss : List Codes)
      → All P out
      → All P ss
      → All P (compact_from lower fold out ss)
  unfolding compact_from
  compact_from-origin P out [] h k = h
  compact_from-origin P out (s ∷ ss) h (p, ps) =
      compact_from-origin P (if any (λ e. covers lower fold e s) out then out else out ++ s ∷ []) ss
        (if_elim (All P) (any (λ e. covers lower fold e s) out) (λ e. h)
          (λ e. All-append P out (s ∷ []) h (p, tt)))
        ps

insert_scope-All :
    (P : Codes → Type 0) (s : Codes) (ts : List Codes) → P s → All P ts → All P (insert_scope s ts)
unfolding insert_scope
insert_scope-All P s [] p h = (p, tt)
insert_scope-All P s (t ∷ ts) p (q, qs) =
    if_elim (All P) (text_eq s t) (λ e. (q, qs))
      (λ e.
        if_elim (All P) (text_lt s t) (λ l. (p, (q, qs))) (λ l. (q, insert_scope-All P s ts p qs)))

insert_scope-Mem : (s : Codes) (ts : List Codes) → Memᴰ s (insert_scope s ts)
unfolding insert_scope
insert_scope-Mem s [] = Memᴰ.head refl
insert_scope-Mem s (t ∷ ts) =
    if_elim (Memᴰ s) (text_eq s t) (λ e. Memᴰ.head (text_eq→eq s t e))
      (λ e.
        if_elim (Memᴰ s) (text_lt s t) (λ l. Memᴰ.head refl)
          (λ l. Memᴰ.tail (insert_scope-Mem s ts)))

insert_scope-kept :
    (s : Codes) (ts : List Codes) {t : Codes} → Memᴰ t ts → Memᴰ t (insert_scope s ts)
unfolding insert_scope
insert_scope-kept s [] m = elim m [ ]
insert_scope-kept s (u ∷ ts) {t} m =
    if_elim (Memᴰ t) (text_eq s u) (λ e. m)
      (λ e.
        if_elim (Memᴰ t) (text_lt s u) (λ l. Memᴰ.tail m)
          (λ l. elim m [
            | Memᴰ.head k ↦ Memᴰ.head k
            | Memᴰ.tail k ↦ Memᴰ.tail (insert_scope-kept s ts k)
          ]))

-- A scope that an input gives.
abbrev pub IsGiven : List Codes → Codes → Type 0
IsGiven inputs s = (raw : Codes) × Memᴰ raw inputs × (check_scope raw ≡ path s)

-- What the loop of Normalize leaves where it finds no error and no marker of the whole workspace:
-- each input is a scope and is there, and with `P` of the scopes of the inputs `P` holds of all.
abbrev Collected :
    (Codes → Type 0) → List Codes → List Codes → Option ScopeError × Bool × List Codes → Type 0
Collected P seen inputs r =
    r.0 ≡ none
    → r.1 ≡ false
    → All (λ raw. (s : Codes) × (check_scope raw ≡ path s) × Memᴰ s r.2) inputs
      × All P r.2
      × ((t : Codes) → Memᴰ t seen → Memᴰ t r.2)

abbrev go_on : Bool → List Codes → List Codes → Checked → Option ScopeError × Bool × List Codes
go_on wide seen rest whole = collect true seen rest
go_on wide seen rest (path p) = collect wide (insert_scope p seen) rest
go_on wide seen rest (bad e) = (some e, wide, seen)

collect-turn :
    (wide : Bool) (seen : List Codes) (raw : Codes) (rest : List Codes)
    → collect wide seen (raw ∷ rest) ≡ go_on wide seen rest (check_scope raw)
unfolding collect
collect-turn wide seen raw rest = refl

Checked-cases :
    (c : Checked) → (c ≡ whole) ⊎ ((s : Codes) × (c ≡ path s)) ⊎ ((e : ScopeError) × (c ≡ bad e))
Checked-cases whole = inl refl
Checked-cases (path s) = inr (inl (s, refl))
Checked-cases (bad e) = inr (inr (e, refl))

collect_moved :
    (wide : Bool) (seen : List Codes) (raw : Codes) (rest : List Codes) {c : Checked}
    (P : Option ScopeError × Bool × List Codes → Type 0)
    → check_scope raw ≡ c
    → P (go_on wide seen rest c)
    → P (collect wide seen (raw ∷ rest))
collect_moved wide seen raw rest P k h =
    subst P (sym (collect-turn wide seen raw rest ∙ ap (go_on wide seen rest) k)) h

collect-wide : (seen inputs : List Codes) → (collect true seen inputs).1 ≡ true
unfolding collect
collect-wide seen [] = refl
collect-wide seen (raw ∷ rest) = elim (Checked-cases (check_scope raw)) [
  | inl k ↦ collect_moved true seen raw rest (λ r. r.1 ≡ true) k (collect-wide seen rest)
  | inr (inl (p, k)) ↦
      collect_moved true seen raw rest (λ r. r.1 ≡ true) k (collect-wide (insert_scope p seen) rest)
  | inr (inr (x, k)) ↦ collect_moved true seen raw rest (λ r. r.1 ≡ true) k refl
]

collect-Collected :
    (P : Codes → Type 0) (seen inputs : List Codes)
    → ((raw s : Codes) → Memᴰ raw inputs → check_scope raw ≡ path s → P s)
    → All P seen
    → Collected P seen inputs (collect false seen inputs)
unfolding collect
collect-Collected P seen [] given h = λ e w. (tt, h, λ t m. m)
collect-Collected P seen (raw ∷ rest) given h = elim (Checked-cases (check_scope raw)) [
  | inl k ↦
      collect_moved false seen raw rest (Collected P seen (raw ∷ rest)) k
        (λ e w. let wide = collect-wide seen rest in cc)
  | inr (inl (p, k)) ↦ collect_moved false seen raw rest (Collected P seen (raw ∷ rest)) k (λ e w.
      let (ins, all_p, was) =
        collect-Collected P (insert_scope p seen) rest (λ r s m. given r s (Memᴰ.tail m))
          (insert_scope-All P p seen (given raw p (Memᴰ.head refl) k) h) e w in
      (
        ((p, k, was p (insert_scope-Mem p seen)), ins),
        all_p,
        λ t m. was t (insert_scope-kept p seen m),
      ))
  | inr (inr (x, k)) ↦
      collect_moved false seen raw rest (Collected P seen (raw ∷ rest)) k (λ e w. cc)
]

module _ (lower fold : ℕ → ℕ) where
  -- Normal, by the test of compact.
  abbrev pub HasNormal : List Codes → List Codes → Type 0
  HasNormal inputs out =
      (out ≡ workspace ∷ [])
      ⊎ (All (IsGiven inputs) out
          × All (λ raw. (s : Codes) × (check_scope raw ≡ path s) × HasCover lower fold out s)
              inputs)

  compact-HasNormal :
      (inputs seen : List Codes)
      → All (IsGiven inputs) seen
      → All (λ raw. (s : Codes) × (check_scope raw ≡ path s) × Memᴰ s seen) inputs
      → HasNormal inputs (compact lower fold seen)
  unfolding compact
  compact-HasNormal inputs seen given there = inr (
    compact_from-origin lower fold (IsGiven inputs) [] seen tt given,
    All_of_Mem
        (λ raw.
          (s : Codes) × (check_scope raw ≡ path s)
          × HasCover lower fold (compact lower fold seen) s)
        inputs
        (λ raw m.
          let (s, k, n) =
            All-Mem (λ raw. (s : Codes) × (check_scope raw ≡ path s) × Memᴰ s seen) inputs there
              m in
          let (e, kept, c) = compact_from-HasCover lower fold [] seen s n in (s, k, (e, kept, c))),
  )

  abbrev scopes_of : Normalized → List Codes
  scopes_of (normal out) = out
  scopes_of (failed e) = []

  abbrev concluded : Option ScopeError × Bool × List Codes → Normalized
  concluded r = elim r.0 [
    | some e ↦ failed e
    | none ↦ if r.1 then normal (workspace ∷ []) else normal (compact lower fold r.2)
  ]

  concluded-HasNormal :
      (inputs out : List Codes) (r : Option ScopeError × Bool × List Codes)
      → Collected (IsGiven inputs) [] inputs r
      → concluded r ≡ normal out
      → HasNormal inputs out
  concluded-HasNormal inputs out (some e, wide, seen) c h = cc
  concluded-HasNormal inputs out (none, true, seen) c h = inl (sym (ap scopes_of h))
  concluded-HasNormal inputs out (none, false, seen) c h =
      let (there, given, was) = c refl refl in
      subst (HasNormal inputs) (ap scopes_of h) (compact-HasNormal inputs seen given there)

  not_too_many :
      (b : Bool) {n : Normalized} {out : List Codes}
      → (if b then failed too_many else n) ≡ normal out
      → n ≡ normal out
  not_too_many true h = cc
  not_too_many false h = h

  pub normalize-HasNormal :
      (inputs out : List Codes)
      → normalize lower fold inputs true ≡ normal out
      → HasNormal inputs out
  unfolding normalize
  normalize-HasNormal [] out h = inl (sym (ap scopes_of h))
  normalize-HasNormal (raw ∷ rest) out h =
      concluded-HasNormal (raw ∷ rest) out (collect false [] (raw ∷ rest))
        (collect-Collected (IsGiven (raw ∷ rest)) [] (raw ∷ rest) (λ r s m k. (r, m, k)) tt)
        (not_too_many (ltb max_items (length (raw ∷ rest))) h)

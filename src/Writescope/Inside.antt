-- ===== src/Writescope/Inside.antt =====
-- A scope that Normalize of internal/writescope/scope.go accepts is a path below the workspace.
use mathlib.Core.List.{reverse-cons}
use collomia.Common.{
  ℕ, Bool, true, false, ◌||◌, List, [], ◌∷◌, ◌++◌, ◌==◌, ltb, if◌then◌else◌, is_empty, reverse, ◌≡◌,
  ◌≢◌, ◌⊎◌, inl, inr, refl, sym, ap, ◌∙◌, subst, arith, All, All-append, All-Mem, All_of_Mem,
  if_elim,
}
use collomia.Common.Text.{
  Codes, trim_space, text_eq, text_eq_refl, has_prefix, ends_with, contains_any, byte_len,
}
use collomia.Writescope.{
  not_relative, too_long, escapes, forbidden, max_bytes, normal, normalize, Checked, whole, path,
  bad, check_scope, clean, split_slash, join_slash, workspace,
}
use collomia.Writescope.Collected.{IsGiven, normalize-HasNormal}
use collomia.Writescope.Clean.{dot, dot_dot, put_char, step_up, clean_step, clean_parts}

-- A component of a path that names an entry of the directory before it.
pub record IsName (p : Codes) : Type 0 where
  pub some_name : is_empty p ≡ false
  pub no_dot : text_eq p dot ≡ false
  pub no_up : text_eq p dot_dot ≡ false
  pub one : All (λ c. c ≢ b'/') p

abbrev IsPart : Codes → Type 0
IsPart p = All (λ c. c ≢ b'/') p

abbrev IsSplit : List Codes → Type 0
IsSplit ps = All IsPart ps × (ps ≢ [])

put_char-IsSplit : (c : ℕ) (ps : List Codes) → IsSplit ps → IsSplit (put_char c ps)
put_char-IsSplit c [] (h, n) = absurd (n refl)
put_char-IsSplit c (p ∷ ps) ((h, hs), n) =
    if_elim IsSplit (c == b'/') (λ e. ((tt, (h, hs)), λ k. cc))
      (λ e. (((λ k. ground (arith, k), h), hs), λ k. cc))

split_slash-IsSplit : (s : Codes) → IsSplit (split_slash s)
unfolding split_slash
split_slash-IsSplit [] = ((tt, tt), λ k. cc)
split_slash-IsSplit (c ∷ s) = put_char-IsSplit c (split_slash s) (split_slash-IsSplit s)

-- The components kept by path.Clean, the last first: names, and before them steps up.
Kept : List Codes → Type 0
Kept [] = Unit
Kept (p ∷ ps) = (IsName p × Kept ps) ⊎ ((p ≡ dot_dot) × All (λ q. q ≡ dot_dot) ps)

step_up-Kept : (kept : List Codes) → Kept kept → Kept (step_up false kept)
unfolding Kept text_eq
step_up-Kept [] h = inr (refl, tt)
step_up-Kept (q ∷ qs) (inl (name, h)) =
    if_elim Kept (text_eq q dot_dot) (λ e. let no = name.no_up in cc) (λ e. h)
step_up-Kept (q ∷ qs) (inr (up, ups)) =
    if_elim Kept (text_eq q dot_dot) (λ e. inr (refl, (up, ups)))
      (λ e. let yes : text_eq q dot_dot ≡ true = rw up refl in cc)

clean_step-Kept :
    (kept : List Codes) (p : Codes) → IsPart p → Kept kept → Kept (clean_step false kept p)
unfolding clean_step Kept
clean_step-Kept kept p part h =
    if_elim Kept (is_empty p) (λ e. h)
      (λ e.
        if_elim Kept (text_eq p dot) (λ d. h)
          (λ d.
            if_elim Kept (text_eq p dot_dot) (λ u. step_up-Kept kept h)
              (λ u. inl (record { some_name = e; no_dot = d; no_up = u; one = part }, h))))

Kept-nil : Kept []
unfolding Kept
Kept-nil = tt

clean_parts-Kept :
    (kept ps : List Codes) → All IsPart ps → Kept kept → Kept (clean_parts false kept ps)
unfolding clean_parts
clean_parts-Kept kept [] h k = k
clean_parts-Kept kept (p ∷ ps) (h, hs) k =
    clean_parts-Kept (clean_step false kept p) ps hs (clean_step-Kept kept p h k)

-- The first of the components is a step up.
abbrev StartsUp : List Codes → Type 0
StartsUp ps = (rest : List Codes) × (ps ≡ dot_dot ∷ rest)

StartsUp-snoc : (p : Codes) (ps : List Codes) → StartsUp (reverse ps) → StartsUp (reverse (p ∷ ps))
StartsUp-snoc p ps (rest, e) = (rest ++ p ∷ [], reverse-cons p ps ∙ ap (λ r. r ++ p ∷ []) e)

ups-StartsUp : (ps : List Codes) → All (λ q. q ≡ dot_dot) ps → StartsUp (reverse (dot_dot ∷ ps))
ups-StartsUp [] h = ([], refl)
ups-StartsUp (q ∷ qs) (e, h) =
    StartsUp-snoc dot_dot (q ∷ qs)
      (subst (λ q. StartsUp (reverse (q ∷ qs))) (sym e) (ups-StartsUp qs h))

Kept-cases : (ps : List Codes) → Kept ps → All IsName (reverse ps) ⊎ StartsUp (reverse ps)
unfolding Kept
Kept-cases [] h = inl tt
Kept-cases (p ∷ ps) (inl (name, h)) = elim (Kept-cases ps h) [
  | inl names ↦ inl (
      subst (All IsName) (sym (reverse-cons p ps))
        (All-append IsName (reverse ps) (p ∷ []) names (name, tt)))
  | inr up ↦ inr (StartsUp-snoc p ps up)
]
Kept-cases (p ∷ ps) (inr (e, ups)) =
    inr (subst (λ q. StartsUp (reverse (q ∷ ps))) (sym e) (ups-StartsUp ps ups))

-- A relative path that was cleaned: `.`, a path that begins with a step up, or names.
abbrev IsCleaned : Codes → Type 0
IsCleaned r =
    (r ≡ dot)
    ⊎ ((text_eq r dot_dot || has_prefix r (b'.' ∷ b'.' ∷ b'/' ∷ [])) ≡ true)
    ⊎ ((parts : List Codes) × (is_empty parts ≡ false) × All IsName parts × (r ≡ join_slash parts))

up-IsCleaned :
    (rest : List Codes)
    → IsCleaned
        (if is_empty (join_slash (dot_dot ∷ rest)) then dot else join_slash (dot_dot ∷ rest))
unfolding join_slash text_eq has_prefix
up-IsCleaned [] = inr (inl refl)
up-IsCleaned (q ∷ qs) = inr (inl refl)

join_slash-not_empty :
    (p : Codes) (ps : List Codes) → is_empty p ≡ false → is_empty (join_slash (p ∷ ps)) ≡ false
unfolding join_slash
join_slash-not_empty [] ps h = cc
join_slash-not_empty (c ∷ p) [] h = refl
join_slash-not_empty (c ∷ p) (q ∷ qs) h = refl

names-IsCleaned :
    (parts : List Codes)
    → All IsName parts
    → IsCleaned (if is_empty (join_slash parts) then dot else join_slash parts)
unfolding join_slash
names-IsCleaned [] h = inl refl
names-IsCleaned (p ∷ ps) (name, names) =
    if_elim IsCleaned (is_empty (join_slash (p ∷ ps)))
      (λ e. let no = join_slash-not_empty p ps name.some_name in cc)
      (λ e. inr (inr (p ∷ ps, refl, (name, names), refl)))

abbrev finished : Bool → List Codes → Codes
finished rooted parts =
    let body = join_slash (reverse (clean_parts rooted [] parts)) in
    if rooted then b'/' ∷ body else if is_empty body then dot else body

finished-IsCleaned : (parts : List Codes) → All IsPart parts → IsCleaned (finished false parts)
finished-IsCleaned parts h =
    elim (Kept-cases (clean_parts false [] parts) (clean_parts-Kept [] parts h Kept-nil)) [
      | inl names ↦ names-IsCleaned (reverse (clean_parts false [] parts)) names
      | inr (rest, e) ↦
          subst (λ ps. IsCleaned (if is_empty (join_slash ps) then dot else join_slash ps)) (sym e)
            (up-IsCleaned rest)
    ]

clean-IsCleaned : (s : Codes) → has_prefix s (b'/' ∷ []) ≡ false → IsCleaned (clean s)
unfolding clean has_prefix
clean-IsCleaned [] h = inl refl
clean-IsCleaned (c ∷ t) h =
    let relative : c == b'/' ≡ false = ground arith in
    subst (λ rooted. IsCleaned (finished rooted (split_slash (c ∷ t)))) (sym relative)
      (finished-IsCleaned (split_slash (c ∷ t)) (split_slash-IsSplit (c ∷ t)).0)

-- A path below the workspace: names joined by slashes, and a slash behind a directory.
abbrev pub IsInside : Codes → Type 0
IsInside s =
    (parts : List Codes) × (is_empty parts ≡ false)
    × All IsName parts
    × ((s ≡ join_slash parts) ⊎ (s ≡ join_slash parts ++ b'/' ∷ []))

or-false : (a b : Bool) → a || b ≡ false → (a ≡ false) × (b ≡ false)
or-false true b h = cc
or-false false b h = (refl, h)

abbrev path_of : Checked → Codes
path_of (path s) = s
path_of _ = []

accepted :
    (is_whole rooted long up : Bool) {s t : Codes}
    → (if is_whole
        then whole
        else if rooted
        then bad not_relative
        else if long
        then bad too_long
        else if up
        then bad escapes
        else path t)
      ≡ path s
    → (rooted ≡ false) × (up ≡ false) × (t ≡ s)
accepted true b2 b3 b4 h = cc
accepted false true b3 b4 h = cc
accepted false false true b4 h = cc
accepted false false false true h = cc
accepted false false false false {s} {t} h = (refl, refl, ap path_of h)

cleaned-IsInside :
    (cleaned : Codes) (directory : Bool)
    → (text_eq cleaned dot
        || text_eq cleaned dot_dot
        || has_prefix cleaned (b'.' ∷ b'.' ∷ b'/' ∷ []))
      ≡ false
    → IsCleaned cleaned
    → IsInside (if directory then cleaned ++ b'/' ∷ [] else cleaned)
cleaned-IsInside cleaned directory stays (inl e) =
    let same : text_eq cleaned dot ≡ true = rw e (text_eq_refl dot) in
    let no : text_eq cleaned dot ≡ false = ground arith in cc
cleaned-IsInside cleaned directory stays (inr (inl up)) = ground arith
cleaned-IsInside cleaned directory stays (inr (inr (parts, some_parts, names, e))) = (
  parts,
  some_parts,
  names,
  if_elim (λ s. (s ≡ join_slash parts) ⊎ (s ≡ join_slash parts ++ b'/' ∷ [])) directory
      (λ d. inr (ap (λ s. s ++ b'/' ∷ []) e)) (λ d. inl e),
)

-- A scope that Normalize accepts names an entry below the workspace: it is not rooted, and none of
-- its components is empty, `.` or `..`.
pub check_scope-IsInside : (raw s : Codes) → check_scope raw ≡ path s → IsInside s
unfolding check_scope
check_scope-IsInside raw s h =
    let scope = trim_space raw in
    let cleaned = clean scope in
    let (relative, stays, e) =
      accepted (text_eq scope workspace)
        (is_empty scope || contains_any scope forbidden || has_prefix scope (b'/' ∷ []))
        (ltb max_bytes (byte_len scope))
        (text_eq cleaned dot
          || text_eq cleaned dot_dot
          || has_prefix cleaned (b'.' ∷ b'.' ∷ b'/' ∷ []))
        h in
    let rooted = has_prefix scope (b'/' ∷ []) in
    let plain = (or-false (is_empty scope || contains_any scope forbidden) rooted relative).1 in
    subst IsInside e
      (cleaned-IsInside cleaned (ends_with scope b'/') stays (clean-IsCleaned scope plain))

-- The scopes that Normalize returns for a writer's inputs are the marker of the whole workspace
-- alone, or paths below the workspace: not rooted, and with no component that is empty, `.` or `..`.
pub normalize-IsInside :
    (lower fold : ℕ → ℕ) (inputs out : List Codes)
    → normalize lower fold inputs true ≡ normal out
    → (out ≡ workspace ∷ []) ⊎ All IsInside out
normalize-IsInside lower fold inputs out h = elim (normalize-HasNormal lower fold inputs out h) [
  | inl e ↦ inl e
  | inr (given, covered) ↦ inr (
      All_of_Mem IsInside out (λ s m.
        let (raw, k, e) = All-Mem (IsGiven inputs) out given m in check_scope-IsInside raw s e))
]

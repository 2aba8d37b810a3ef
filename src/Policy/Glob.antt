-- ===== src/Policy/Glob.antt =====
-- path.Match of Go's standard library, which filepath.Match equals where the separator is '/'.
-- `parse` reads a pattern into chunks (scanChunk and the syntax half of matchChunk); a malformed
-- pattern is `none`, which the callers treat as no match, as they do Go's ErrBadPattern.
use collomia.Common.{
  ℕ, zero, suc, Bool, true, false, not, ◌&&◌, ◌||◌, List, [], ◌∷◌, ◌++◌, Option, none, some, leb,
  ◌==◌, if◌then◌else◌, String, is_empty, any, length, ◌+◌,
}
use collomia.Common.Text.{Codes, codes}

-- One matched character, and the runs of them between stars.
pub data Item : Type 0 where
  any_char : Item
  literal : ℕ → Item
  class : Bool → List (ℕ × ℕ) → Item

pub record Chunk : Type 0 where
  pub star : Bool
  pub items : List Item

-- getEsc: one character of a class, perhaps escaped, with a character left behind it.
get_esc : Codes → Option (ℕ × Codes)
get_esc [] = none
get_esc (c ∷ []) = none
get_esc (c ∷ d ∷ s) =
    if c == b'-' || c == b']'
    then none
    else if c == b'\\'
    then elim s [ [] ↦ none | e ∷ t ↦ some (d, e ∷ t) ]
    else some (c, d ∷ s)

-- One range of a class: `lo` or `lo-hi`.
get_range : Codes → Option ((ℕ × ℕ) × Codes)
unfolding get_esc
get_range s = elim (get_esc s) [
  | none ↦ none
  | some (lo, rest) ↦ elim rest [
    | [] ↦ none
    | d ∷ t ↦
        if d == b'-'
        then elim (get_esc t) [ none ↦ none | some (hi, u) ↦ some ((lo, hi), u) ]
        else some ((lo, lo), d ∷ t)
  ]
]

-- The ranges of a class up to its `]`, of which there is at least one. The fuel is the text's
-- length: each range takes a character.
get_ranges : ℕ → List (ℕ × ℕ) → Codes → Option (List (ℕ × ℕ) × Codes)
unfolding get_range
get_ranges zero acc s = none
get_ranges (suc fuel) acc [] = none
get_ranges (suc fuel) acc (c ∷ s) =
    let more : Option (List (ℕ × ℕ) × Codes) = elim (get_range (c ∷ s)) [
      | none ↦ none
      | some (range, rest) ↦ get_ranges fuel (acc ++ range ∷ []) rest
    ] in
    if c == b']' && not (is_empty acc) then some (acc, s) else more

abbrev push : Item → List Chunk → List Chunk
push i [] = record { star = false; items = i ∷ [] } ∷ []
push i (c ∷ cs) =
    if c.star
    then record { star = false; items = i ∷ [] } ∷ c ∷ cs
    else record c { items = i ∷ c.items } ∷ cs

-- Successive stars are one star.
abbrev push_star : List Chunk → List Chunk
push_star [] = record { star = true; items = [] } ∷ []
push_star (c ∷ cs) =
    if c.star
    then (if is_empty c.items then c ∷ cs else record { star = true; items = [] } ∷ c ∷ cs)
    else record c { star = true } ∷ cs

abbrev with_item : Item → Option (List Chunk) → Option (List Chunk)
with_item i none = none
with_item i (some cs) = some (push i cs)

abbrev with_star : Option (List Chunk) → Option (List Chunk)
with_star none = none
with_star (some cs) = some (push_star cs)

-- The chunks of a pattern; `fuel` is its length.
parse_from : ℕ → Codes → Option (List Chunk)
unfolding get_ranges
parse_from zero s = elim s [ [] ↦ some [] | _ ↦ none ]
parse_from (suc fuel) [] = some []
parse_from (suc fuel) (c ∷ s) =
    let plain = with_item (literal c) (parse_from fuel s) in
    let one = with_item any_char (parse_from fuel s) in
    let stars = with_star (parse_from fuel s) in
    let escaped : Option (List Chunk) = elim s [
      | [] ↦ none
      | d ∷ t ↦ with_item (literal d) (parse_from fuel t)
    ] in
    let negated : Option (List Chunk) = elim s [
      | [] ↦ none
      | d ∷ t ↦ elim (get_ranges (length t + 1) [] (if d == b'^' then t else d ∷ t)) [
        | none ↦ none
        | some (ranges, rest) ↦ with_item (class (d == b'^') ranges) (parse_from fuel rest)
      ]
    ] in
    if c == b'*'
    then stars
    else if c == b'?'
    then one
    else if c == b'\\'
    then escaped
    else if c == b'['
    then negated
    else plain

parse : Codes → Option (List Chunk)
unfolding parse_from
parse s = parse_from (length s) s

in_ranges : ℕ → List (ℕ × ℕ) → Bool
in_ranges c = any (λ r. leb r.0 c && leb c r.1)

item_matches : Item → ℕ → Bool
unfolding in_ranges
item_matches any_char c = not (c == b'/')
item_matches (literal d) c = d == c
item_matches (class negated ranges) c =
    if negated then not (in_ranges c ranges) else in_ranges c ranges

-- matchChunk: what is left of the name, if the items match at its head.
match_items : List Item → Codes → Option Codes
unfolding item_matches
match_items [] s = some s
match_items (i ∷ is) [] = none
match_items (i ∷ is) (c ∷ s) =
    let rest = match_items is s in if item_matches i c then rest else none

-- The last chunk must use up the name.
abbrev accepts : Bool → Option Codes → Option Codes
accepts last none = none
accepts last (some t) = if not last || is_empty t then some t else none

-- Go's loop that skips characters, never a '/', to the first place at which a chunk fits.
seek : List Item → Bool → Codes → Option Codes
unfolding match_items
seek items last [] = none
seek items last (c ∷ s) =
    let onward : Option Codes = elim (accepts last (match_items items s)) [
      | some t ↦ some t
      | none ↦ seek items last s
    ] in
    if c == b'/' then none else onward

match_chunks : List Chunk → Codes → Bool
unfolding match_items seek
match_chunks [] s = is_empty s
match_chunks (c ∷ cs) s =
    let at_head = accepts (is_empty cs) (match_items c.items s) in
    let found : Option Codes = elim at_head [
      | some t ↦ some t
      | none ↦ if c.star then seek c.items (is_empty cs) s else none
    ] in
    if c.star && is_empty c.items
    then not (any (λ d. d == b'/') s)
    else elim found [ none ↦ false | some t ↦ match_chunks cs t ]

-- `ok, err := path.Match(pattern, value); return err == nil && ok`
unfoldable pub path_match : String → String → Bool
unfolding parse match_chunks
path_match pattern value = elim (parse (codes pattern)) [
  | none ↦ false
  | some chunks ↦ match_chunks chunks (codes value)
]

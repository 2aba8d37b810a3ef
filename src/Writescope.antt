-- ===== src/Writescope.antt =====
-- internal/writescope/scope.go. Texts are their code points. `lower` is unicode.ToLower and `fold`
-- sends a character to the representative of those that unicode.SimpleFold joins it with: Unicode's
-- tables are parameters.
mod Clean
pub mod Overlaps
pub mod Disjoint
pub mod Collected
pub mod Normal
pub mod Inside
mod Tests
unfoldable pub use Clean.{clean, split_slash, join_slash}
use collomia.Common.{
  ℕ, Bool, true, false, not, ◌&&◌, ◌||◌, List, [], ◌∷◌, ◌++◌, map, any, all, keep, ltb, ◌==◌,
  if◌then◌else◌, is_empty, length, Option, none, some,
}
use collomia.Common.Text.{
  Codes, codes, trim_space, text_eq, has_prefix, ends_with, contains_any, byte_len,
}

abbrev pub workspace : Codes
workspace = b'*' ∷ []

abbrev pub max_items : ℕ
max_items = 64

abbrev pub max_bytes : ℕ
max_bytes = 1024

pub data ScopeError : Type 0 where
  needs_write too_many not_relative too_long escapes : ScopeError

pub data Normalized : Type 0 where
  normal : List Codes → Normalized
  failed : ScopeError → Normalized

-- The order of sort.Strings.
unfoldable pub text_lt : Codes → Codes → Bool
text_lt [] [] = false
text_lt [] (b ∷ t) = true
text_lt (a ∷ s) [] = false
text_lt (a ∷ s) (b ∷ t) = if a == b then text_lt s t else ltb a b

-- The keys of `seen` in order: each text once.
unfoldable pub insert_scope : Codes → List Codes → List Codes
unfolding text_lt text_eq
insert_scope s [] = s ∷ []
insert_scope s (t ∷ ts) =
    let later = t ∷ insert_scope s ts in
    if text_eq s t then t ∷ ts else if text_lt s t then s ∷ t ∷ ts else later

-- sort.Strings on a list that may repeat a text.
unfoldable pub insert_text : Codes → List Codes → List Codes
unfolding text_lt
insert_text s [] = s ∷ []
insert_text s (t ∷ ts) =
    let later = t ∷ insert_text s ts in if text_lt t s then later else s ∷ t ∷ ts

unfoldable pub sort_texts : List Codes → List Codes
unfolding insert_text
sort_texts [] = []
sort_texts (s ∷ ss) = insert_text s (sort_texts ss)

-- "\x00\r\n\\:*?[]"
abbrev pub forbidden : Codes
forbidden = 0 ∷ 13 ∷ 10 ∷ b'\\' ∷ b':' ∷ b'*' ∷ b'?' ∷ b'[' ∷ b']' ∷ []

-- What one turn of the loop of Normalize finds.
pub data Checked : Type 0 where
  whole : Checked
  path : Codes → Checked
  bad : ScopeError → Checked

unfoldable pub check_scope : Codes → Checked
unfolding trim_space text_eq byte_len ends_with clean has_prefix
check_scope raw =
    let scope = trim_space raw in
    let cleaned = clean scope in
    if text_eq scope workspace
    then whole
    else if is_empty scope || contains_any scope forbidden || has_prefix scope (b'/' ∷ [])
    then bad not_relative
    else if ltb max_bytes (byte_len scope)
    then bad too_long
    else if text_eq cleaned (b'.' ∷ [])
        || text_eq cleaned (b'.' ∷ b'.' ∷ [])
        || has_prefix cleaned (b'.' ∷ b'.' ∷ b'/' ∷ [])
    then bad escapes
    else path (if ends_with scope b'/' then cleaned ++ b'/' ∷ [] else cleaned)

-- The loop, with its two variables.
unfoldable pub collect : Bool → List Codes → List Codes → Option ScopeError × Bool × List Codes
unfolding insert_scope check_scope
collect wide seen [] = (none, wide, seen)
collect wide seen (raw ∷ rest) = elim (check_scope raw) [
  | whole ↦ collect true seen rest
  | path p ↦ collect wide (insert_scope p seen) rest
  | bad e ↦ (some e, wide, seen)
]

module _ (lower : ℕ → ℕ) where
  -- strings.ToLower
  abbrev pub to_lower : Codes → Codes
  to_lower s = map lower s

  -- The cases of the switch of Overlap for one pair.
  unfoldable pub pair_overlaps : Codes → Codes → Bool
  unfolding text_eq ends_with has_prefix
  pair_overlaps a b =
      text_eq a workspace
      || text_eq b workspace
      || text_eq (to_lower a) (to_lower b)
      || ends_with a b'/' && has_prefix (to_lower b) (to_lower a)
      || ends_with b b'/' && has_prefix (to_lower a) (to_lower b)

  unfoldable pub overlap : List Codes → List Codes → Bool
  unfolding pair_overlaps
  overlap left right =
      if is_empty left || is_empty right
      then false
      else any (λ a. any (λ b. pair_overlaps a b) right) left

module _ (lower fold : ℕ → ℕ) where
  -- strings.EqualFold
  abbrev pub equal_fold : Codes → Codes → Bool
  equal_fold s t = text_eq (map fold s) (map fold t)

  -- An element already kept covers a scope: the same, or a directory above it.
  unfoldable pub covers : Codes → Codes → Bool
  unfolding text_eq ends_with has_prefix
  covers existing scope =
      equal_fold existing scope
      || ends_with existing b'/' && has_prefix (to_lower lower scope) (to_lower lower existing)

  -- The loop of compact, with the scopes kept so far.
  unfoldable pub compact_from : List Codes → List Codes → List Codes
  unfolding covers
  compact_from out [] = out
  compact_from out (s ∷ ss) =
      compact_from (if any (λ e. covers e s) out then out else out ++ s ∷ []) ss

  unfoldable pub compact : List Codes → List Codes
  unfolding compact_from
  compact scopes = compact_from [] scopes

  unfoldable pub normalize : List Codes → Bool → Normalized
  unfolding collect compact
  normalize inputs write =
      if not write
      then (if is_empty inputs then normal [] else failed needs_write)
      else if is_empty inputs
      then normal (workspace ∷ [])
      else if ltb max_items (length inputs)
      then failed too_many
      else let (error, wide, seen) = collect false [] inputs in
        elim error [
          | some e ↦ failed e
          | none ↦ if wide then normal (workspace ∷ []) else normal (compact seen)
        ]

abbrev trim_dot_slash : Codes → Codes
trim_dot_slash [] = []
trim_dot_slash (c ∷ []) = c ∷ []
trim_dot_slash (c ∷ d ∷ s) = if c == b'.' && d == b'/' then s else c ∷ d ∷ s

-- strings.TrimPrefix(strings.ReplaceAll(raw, "\\", "/"), "./")
unfoldable pub changed_path : Codes → Codes
changed_path raw = trim_dot_slash (map (λ c. if c == b'\\' then b'/' else c) raw)

unfoldable pub in_scope : Codes → Codes → Bool
unfolding text_eq ends_with has_prefix
in_scope p scope = text_eq scope p || ends_with scope b'/' && has_prefix p scope

-- The paths that no scope allows, in the order of the changes.
unfoldable pub outside_of : List Codes → List Codes → List Codes
unfolding changed_path in_scope
outside_of declared [] = []
outside_of declared (raw ∷ rest) =
    let later = outside_of declared rest in
    if any (λ s. in_scope (changed_path raw) s) declared then later else changed_path raw ∷ later

abbrev pub is_whole : List Codes → Bool
is_whole [] = false
is_whole (s ∷ []) = text_eq s workspace
is_whole (s ∷ t ∷ ss) = false

unfoldable pub violations : List Codes → List Codes → List Codes
unfolding outside_of sort_texts text_eq
violations declared changed =
    if is_empty declared || is_empty changed || is_whole declared
    then []
    else sort_texts (outside_of declared changed)

-- ===== src/Writescope/Clean.antt =====
-- path.Clean of Go's standard library, component by component.
use collomia.Common.{ℕ, Bool, false, List, [], ◌∷◌, ◌++◌, ◌==◌, if◌then◌else◌, is_empty, reverse}
use collomia.Common.Text.{Codes, text_eq}

-- A character in front of a text that is split at slashes.
abbrev pub put_char : ℕ → List Codes → List Codes
put_char c [] = (c ∷ []) ∷ []
put_char c (p ∷ ps) = if c == b'/' then [] ∷ p ∷ ps else (c ∷ p) ∷ ps

-- strings.Split(s, "/")
unfoldable pub split_slash : Codes → List Codes
split_slash [] = [] ∷ []
split_slash (c ∷ s) = put_char c (split_slash s)

unfoldable pub join_slash : List Codes → Codes
join_slash [] = []
join_slash (p ∷ []) = p
join_slash (p ∷ q ∷ ps) = p ++ b'/' ∷ join_slash (q ∷ ps)

abbrev pub dot : Codes
dot = b'.' ∷ []

abbrev pub dot_dot : Codes
dot_dot = b'.' ∷ b'.' ∷ []

-- `..` against the components kept so far, the last of them first.
abbrev pub step_up : Bool → List Codes → List Codes
step_up rooted [] = if rooted then [] else dot_dot ∷ []
step_up rooted (q ∷ qs) = if text_eq q dot_dot then dot_dot ∷ q ∷ qs else qs

-- One component of the path against the components kept so far, the last of them first.
unfoldable pub clean_step : Bool → List Codes → Codes → List Codes
unfolding text_eq
clean_step rooted kept p =
    if is_empty p
    then kept
    else if text_eq p dot
    then kept
    else if text_eq p dot_dot
    then step_up rooted kept
    else p ∷ kept

unfoldable pub clean_parts : Bool → List Codes → List Codes → List Codes
unfolding clean_step
clean_parts rooted kept [] = kept
clean_parts rooted kept (p ∷ ps) = clean_parts rooted (clean_step rooted kept p) ps

abbrev starts_rooted : Codes → Bool
starts_rooted [] = false
starts_rooted (c ∷ s) = c == b'/'

unfoldable pub clean : Codes → Codes
unfolding split_slash join_slash clean_parts
clean s =
    let rooted = starts_rooted s in
    let body = join_slash (reverse (clean_parts rooted [] (split_slash s))) in
    if rooted then b'/' ∷ body else if is_empty body then dot else body

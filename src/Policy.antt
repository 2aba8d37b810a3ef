-- ===== src/Policy.antt =====
-- internal/policy/policy.go: ordered, scoped approval rules, and the rule type of
-- internal/config/config.go.
mod Glob
pub mod Cover
mod Tests
unfoldable pub use Glob.{path_match}
use collomia.Common.{
  ℕ, suc, Bool, true, false, not, ◌&&◌, ◌||◌, List, [], ◌∷◌, Option, none, some, String, any, ◌==◌,
  ltb, str_eq, if◌then◌else◌, is_empty, length, count, reverse, ◌++◌,
}
use collomia.Common.Text.{Codes, codes, trim_space, text_eq, has_prefix}

-- config.Rule; `action` is the configured word, which is not checked here.
pub record Rule : Type 0 where
  pub action : String
  pub tool : String
  pub path : String
  pub command : String
  pub host : String
  pub server : String
  pub note : String

pub record Request : Type 0 where
  pub tool : String
  pub paths : List String
  pub executables : List String
  pub operations : List String
  pub hosts : List String
  pub server : String
  pub network : Bool
  pub hosts_undetermined : Bool
  pub inspectable : Bool

-- The matched rule and its index. `none` stands for the zero Decision.
pub record Decision : Type 0 where
  pub index : ℕ
  pub rule : Rule

-- `Matched`: a rule with an empty action word does not count as a match.
unfoldable pub matched : Option Decision → Bool
matched none = false
matched (some d) = not (str_eq d.rule.action "")

-- NamesOperation: the trimmed pattern holds a space.
unfoldable pub names_operation : String → Bool
unfolding trim_space
names_operation pattern = any (λ c. c == 32) (trim_space (codes pattern))

-- filepath.Match, where an error counts as no match.
unfoldable pub glob : String → String → Bool
unfolding path_match
glob pattern value = path_match pattern value

-- HostMatches
unfoldable pub host_matches : String → String → Bool
unfolding glob
host_matches pattern host = glob pattern host

-- The part of a text before a trailing "/**", if it ends so.
subtree_root : Codes → Option Codes
subtree_root s = elim (reverse s) [
  | [] ↦ none
  | a ∷ r ↦ elim r [
    | [] ↦ none
    | b ∷ q ↦ elim q [
      | [] ↦ none
      | c ∷ t ↦ if a == b'*' && b == b'*' && c == b'/' then some (reverse t) else none
    ]
  ]
]

-- pathGlob; paths are in slash form.
unfoldable pub path_glob : String → String → Bool
unfolding subtree_root path_match text_eq has_prefix
path_glob pattern value = elim (subtree_root (codes pattern)) [
  | some root ↦ text_eq (codes value) root || has_prefix (codes value) (root ++ b'/' ∷ [])
  | none ↦ path_match pattern value
]

-- matchSet
unfoldable pub match_set : String → List String → Bool → (String → String → Bool) → Bool
match_set pattern values require_all test =
    if is_empty values
    then false
    else let hits = count (test pattern) values in
      if require_all then hits == length values else ltb 0 hits

-- The four constraints of a rule, each of which an empty pattern leaves out.
command_matches : Rule → Request → Bool → Bool
unfolding names_operation match_set glob
command_matches rule req require_all =
    if str_eq rule.command ""
    then true
    else if require_all && not req.inspectable
    then false
    else match_set rule.command
        (if names_operation rule.command then req.operations else req.executables) require_all glob

path_matches : Rule → Request → Bool → Bool
unfolding match_set path_glob
path_matches rule req require_all =
    if str_eq rule.path "" then true else match_set rule.path req.paths require_all path_glob

host_rule_matches : Rule → Request → Bool → Bool
unfolding match_set glob
host_rule_matches rule req require_all =
    if str_eq rule.host ""
    then true
    else if require_all && req.hosts_undetermined
    then false
    else match_set rule.host req.hosts require_all glob

unfoldable pub matches : Rule → Request → Bool
unfolding glob command_matches path_matches host_rule_matches
matches rule req =
    if not (str_eq rule.tool "") && not (glob rule.tool req.tool)
    then false
    else if not (str_eq rule.server "") && not (glob rule.server req.server)
    then false
    else let require_all = str_eq rule.action "allow" in
      command_matches rule req require_all
      && path_matches rule req require_all
      && host_rule_matches rule req require_all

-- Evaluate: the first rule that matches, from index `i`.
unfoldable pub evaluate_from : ℕ → List Rule → Request → Option Decision
unfolding matches
evaluate_from i [] req = none
evaluate_from i (r ∷ rs) req =
    let rest = evaluate_from (suc i) rs req in
    if matches r req then some (record { index = i; rule = r }) else rest

unfoldable pub evaluate : List Rule → Request → Option Decision
unfolding evaluate_from
evaluate rules req = evaluate_from 0 rules req

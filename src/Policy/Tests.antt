-- ===== src/Policy/Tests.antt =====
-- Runs of the rule evaluator of internal/policy/policy.go on concrete rules, and the theorems there.
use collomia.Common.{true, false, List, [], ◌∷◌, none, some, String, ◌≡◌, refl}
use collomia.Policy.{Rule, Request, Decision, evaluate, names_operation, path_glob, host_matches}
use collomia.Policy.Glob.{path_match}
use collomia.Policy.Cover.{Covers, evaluate_allow-Covers}

path_match_tests :
    (path_match "go*" "gofmt" ≡ true)
    × (path_match "*.go" "a/b.go" ≡ false)
    × (path_match "a/*/c" "a/bb/c" ≡ true)
    × (path_match "[a-c]x" "bx" ≡ true)
    × (path_match "[^a-c]x" "bx" ≡ false)
    × (path_match "[a" "a" ≡ false)
    × (path_match "\\*" "*" ≡ true)
    × (path_match "*a*b" "xaayb" ≡ true)
    × (path_match "git" "git" ≡ true)
    × (path_match "" "" ≡ true)
    × (path_match "?" "/" ≡ false)
    × (path_match "a**" "abc" ≡ true)
    × (path_match "[]a]" "]" ≡ false)
unfolding path_match
path_match_tests = (refl, refl, refl, refl, refl, refl, refl, refl, refl, refl, refl, refl, refl)

path_glob_tests :
    (path_glob "/w/**" "/w" ≡ true)
    × (path_glob "/w/**" "/w/a/b" ≡ true)
    × (path_glob "/w/**" "/wx" ≡ false)
    × (path_glob "/w/*" "/w/a/b" ≡ false)
    × (names_operation "npm publish" ≡ true)
    × (names_operation " npm " ≡ false)
    × (host_matches "*.example.com" "api.example.com" ≡ true)
unfolding path_glob names_operation host_matches
path_glob_tests = (refl, refl, refl, refl, refl, refl, refl)

abbrev rule_of : String → String → String → Rule
rule_of action command host = record {
  action = action;
  tool = "";
  path = "";
  command = command;
  host = host;
  server = "";
  note = "";
}

abbrev install : Request
install = record {
  tool = "run_command";
  paths = [];
  executables = "npm" ∷ [];
  operations = "npm install" ∷ [];
  hosts = "registry.npmjs.org" ∷ [];
  server = "";
  network = true;
  hosts_undetermined = false;
  inspectable = true;
}

abbrev rules : List Rule
rules = rule_of "deny" "npm publish" "" ∷ rule_of "allow" "npm" "*.npmjs.org" ∷ []

abbrev chosen : Decision
chosen = record { index = 1; rule = rule_of "allow" "npm" "*.npmjs.org" }

evaluate_test : evaluate rules install ≡ some chosen
unfolding evaluate
evaluate_test = refl

opaque_test : evaluate rules (record install { inspectable = false }) ≡ none
unfolding evaluate
opaque_test = refl

evaluate_allow-Covers_example : Covers (rule_of "allow" "npm" "*.npmjs.org") install
evaluate_allow-Covers_example = evaluate_allow-Covers rules install chosen evaluate_test refl

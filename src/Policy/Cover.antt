-- ===== src/Policy/Cover.antt =====
-- What a decision of internal/policy/policy.go vouches for: the first rule that matches decides,
-- and an allow rule matches only a request that it covers value by value.
use collomia.Common.{
  ℕ, suc, ◌≤◌, Bool, true, false, List, [], ◌∷◌, none, some, String, ◌≡◌, ◌≢◌, refl, ◌⊎◌, inl, inr,
  All, length, count, is_empty, eq_iff, arith, if◌then◌else◌, Bool-cases,
}
use collomia.Policy.{
  Rule, Request, Decision, names_operation, glob, path_glob, match_set, command_matches,
  path_matches, host_rule_matches, matches, evaluate_from, evaluate,
}

module _ {ℓ} {A : Type ℓ} (p : A → Bool) where
  count-le-length : (xs : List A) → count p xs ≤ length xs
  count-le-length [] = omega arith
  count-le-length (x ∷ xs) = ground (arith, count-le-length xs)

  All_of_count : (xs : List A) → count p xs ≡ length xs → All (λ x. p x ≡ true) xs
  All_of_count [] h = tt
  All_of_count (x ∷ xs) h = elim (Bool-cases (p x)) [
    | inl e ↦ (e, All_of_count xs (ground (arith)))
    | inr e ↦ absurd (ground (arith, count-le-length xs))
  ]

-- The values that a command rule is held against.
abbrev pub command_values : Rule → Request → List String
command_values rule req = if names_operation rule.command then req.operations else req.executables

-- Every value passes, and there is one.
abbrev pub CoversAll : (String → String → Bool) → String → List String → Type 0
CoversAll test pattern values = (is_empty values ≡ false) × All (λ v. test pattern v ≡ true) values

match_set-CoversAll :
    (pattern : String) (values : List String) (test : String → String → Bool)
    → match_set pattern values true test ≡ true
    → CoversAll test pattern values
unfolding match_set
match_set-CoversAll pattern [] test h = cc
match_set-CoversAll pattern (v ∷ vs) test h =
    (refl, All_of_count (test pattern) (v ∷ vs) (ground arith))

-- What a request must show for an allow rule to match it.
pub record Covers (rule : Rule) (req : Request) : Type 0 where
  pub tool : rule.tool ≢ "" → glob rule.tool req.tool ≡ true
  pub server : rule.server ≢ "" → glob rule.server req.server ≡ true
  pub command_read : rule.command ≢ "" → req.inspectable ≡ true
  pub command : rule.command ≢ "" → CoversAll glob rule.command (command_values rule req)
  pub path : rule.path ≢ "" → CoversAll path_glob rule.path req.paths
  pub host_read : rule.host ≢ "" → req.hosts_undetermined ≡ false
  pub host : rule.host ≢ "" → CoversAll glob rule.host req.hosts

module _ (rule : Rule) (req : Request) where
  command-covers :
      command_matches rule req true ≡ true
      → rule.command ≢ ""
      → (req.inspectable ≡ true) × CoversAll glob rule.command (command_values rule req)
  unfolding command_matches
  command-covers h n = elim (Bool-cases req.inspectable) [
    | inl e ↦ (
      e,
      match_set-CoversAll rule.command (command_values rule req) glob
          (ground (arith, eq_iff rule.command "")),
    )
    | inr e ↦ absurd (ground (arith, eq_iff rule.command ""))
  ]

  path-covers :
      path_matches rule req true ≡ true → rule.path ≢ "" → CoversAll path_glob rule.path req.paths
  unfolding path_matches
  path-covers h n =
      match_set-CoversAll rule.path req.paths path_glob (ground (arith, eq_iff rule.path ""))

  host-covers :
      host_rule_matches rule req true ≡ true
      → rule.host ≢ ""
      → (req.hosts_undetermined ≡ false) × CoversAll glob rule.host req.hosts
  unfolding host_rule_matches
  host-covers h n = elim (Bool-cases req.hosts_undetermined) [
    | inl e ↦ absurd (ground (arith, eq_iff rule.host ""))
    | inr e ↦
        (e, match_set-CoversAll rule.host req.hosts glob (ground (arith, eq_iff rule.host "")))
  ]

  matches-Covers : rule.action ≡ "allow" → matches rule req ≡ true → Covers rule req
  unfolding matches
  matches-Covers a h =
      let is_allow = (eq_iff rule.action "allow").1 a in
      let cm : command_matches rule req true ≡ true = ground arith in
      let pm : path_matches rule req true ≡ true = ground arith in
      let hm : host_rule_matches rule req true ≡ true = ground arith in
      record {
        tool = λ n. ground (arith, eq_iff rule.tool "");
        server = λ n. ground (arith, eq_iff rule.server "");
        command_read = λ n. (command-covers cm n).0;
        command = λ n. (command-covers cm n).1;
        path = path-covers pm;
        host_read = λ n. (host-covers hm n).0;
        host = λ n. (host-covers hm n).1;
      }

-- The rule that decides is the one at its index, it matches, and no rule before it does.
abbrev pub IsFirst : ℕ → List Rule → Request → Decision → Type 0
IsFirst i [] req d = ⊥
IsFirst i (r ∷ rs) req d =
    ((matches r req ≡ true) × (d.index ≡ i) × (d.rule ≡ r))
    ⊎ ((matches r req ≡ false) × IsFirst (suc i) rs req d)

evaluate_from-IsFirst :
    (i : ℕ) (rules : List Rule) (req : Request) (d : Decision)
    → evaluate_from i rules req ≡ some d
    → IsFirst i rules req d
unfolding evaluate_from
evaluate_from-IsFirst i [] req d h = cc
evaluate_from-IsFirst i (r ∷ rs) req d h = elim (Bool-cases (matches r req)) [
  | inl e ↦ inl (e, ground arith, ground arith)
  | inr e ↦ inr (e, evaluate_from-IsFirst (suc i) rs req d (ground arith))
]

IsFirst-matches :
    (i : ℕ) (rules : List Rule) (req : Request) (d : Decision)
    → IsFirst i rules req d
    → matches d.rule req ≡ true
IsFirst-matches i [] req d h = absurd h
IsFirst-matches i (r ∷ rs) req d (inl h) = rw h.2 h.0
IsFirst-matches i (r ∷ rs) req d (inr h) = IsFirst-matches (suc i) rs req d h.1

evaluate_from-none :
    (i : ℕ) (rules : List Rule) (req : Request)
    → evaluate_from i rules req ≡ none
    → All (λ r. matches r req ≡ false) rules
unfolding evaluate_from
evaluate_from-none i [] req h = tt
evaluate_from-none i (r ∷ rs) req h = elim (Bool-cases (matches r req)) [
  | inl e ↦ absurd (ground arith)
  | inr e ↦ (e, evaluate_from-none (suc i) rs req (ground arith))
]

-- `evaluate` decides by the first rule in order that matches the request, reported with its
-- index, and decides by none only when no rule matches.
pub evaluate-IsFirst :
    (rules : List Rule) (req : Request)
    → ((d : Decision) → evaluate rules req ≡ some d → IsFirst 0 rules req d)
      × (evaluate rules req ≡ none → All (λ r. matches r req ≡ false) rules)
unfolding evaluate
evaluate-IsFirst rules req = (evaluate_from-IsFirst 0 rules req, evaluate_from-none 0 rules req)

-- When `evaluate` decides by a rule whose action is "allow", the rule covers the request: every
-- constraint that the rule states holds of every value in the request, of which there is at
-- least one, a command constraint needs a fully inspected command and a host constraint needs
-- fully determined hosts.
pub evaluate_allow-Covers :
    (rules : List Rule) (req : Request) (d : Decision)
    → evaluate rules req ≡ some d
    → d.rule.action ≡ "allow"
    → Covers d.rule req
evaluate_allow-Covers rules req d h a =
    matches-Covers d.rule req a (IsFirst-matches 0 rules req d ((evaluate-IsFirst rules req).0 d h))

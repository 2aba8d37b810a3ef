-- ===== src/Permission/Session/Grants.antt =====
-- Session grants of internal/permission/permission.go: what they record, and that an offer is kept.
use collomia.Common.{
  true, false, not, ◌||◌, List, [], ◌∷◌, ◌++◌, String, is_empty, ◌≡◌, ◌⊎◌, inl, inr, refl, arith,
  ap, ◌∙◌, str_eq, Bool-cases, if_elim,
}
use collomia.Permission.Defs.{Action, Names, has, Manager, credential_targets, publication_targets}
use collomia.Permission.Session.{
  Kind, executable, network, credential, publishing, filesystem, server, apply_grant, apply_grants,
}

pub has-append : (xs ys : Names) (x : String) → has (xs ++ ys) x ≡ (has xs x || has ys x)
has-append [] ys x = refl
has-append (y ∷ xs) ys x = ground (arith, has-append xs ys x)

-- Every value that the session may use without a prompt was granted before, or is a value of the
-- action at hand and `Grantable` holds.
abbrev pub Within : Type 0 → Names → Names → List String → Type 0
Within Grantable new old shown =
    (x : String) → has new x ≡ true → (has old x ≡ true) ⊎ ((has shown x ≡ true) × Grantable)

module _ (classify : String → String) (a : Action) where
  -- The action carries no mandatory confirmation and all of its command was read.
  abbrev pub IsRead : Type 0
  IsRead = (is_empty a.confirm_reasons ≡ true) × (a.uninspectable ≡ false)

  -- The action carries no mandatory confirmation and all of its hosts are known.
  abbrev pub IsLocated : Type 0
  IsLocated = (is_empty a.confirm_reasons ≡ true) × (a.hosts_undetermined ≡ false)

  pub record OnlyShown (m n : Manager) : Type 0 where
    pub commands : Within IsRead n.allowed_commands m.allowed_commands a.executables
    pub hosts : Within IsLocated n.allowed_hosts m.allowed_hosts a.hosts
    pub credentials :
        Within
          (IsRead × (str_eq m.protect_credentials "prompt" ≡ true))
          n.allowed_credentials
          m.allowed_credentials
          (credential_targets classify a m.protect_credentials)
    pub publications :
        Within
          (IsRead × (str_eq m.publication "prompt" ≡ true))
          n.allowed_publications
          m.allowed_publications
          (publication_targets a m.publication)
    pub rest : n ≡ record m {
      allowed_commands = n.allowed_commands;
      allowed_hosts = n.allowed_hosts;
      allowed_credentials = n.allowed_credentials;
      allowed_publications = n.allowed_publications;
    }

  pub same_credentials :
      (m n : Manager) → OnlyShown m n → n.protect_credentials ≡ m.protect_credentials
  same_credentials m n p = ap (λ (x : Manager). x.protect_credentials) p.rest

  pub same_publication : (m n : Manager) → OnlyShown m n → n.publication ≡ m.publication
  same_publication m n p = ap (λ (x : Manager). x.publication) p.rest

  OnlyShown-refl : (m : Manager) → OnlyShown m m
  OnlyShown-refl m = record {
    commands = λ x h. inl h;
    hosts = λ x h. inl h;
    credentials = λ x h. inl h;
    publications = λ x h. inl h;
    rest = refl;
  }

  Within-append :
      {Grantable : Type 0} (shown old : List String)
      → Grantable
      → Within Grantable (shown ++ old) old shown
  Within-append shown old g x h = elim (Bool-cases (has shown x)) [
    | inl e ↦ inr (e, g)
    | inr e ↦ inl (ground (arith, has-append shown old x))
  ]

  -- A grant that its guard lets through, kind by kind.
  apply_grant-OnlyShown : (m : Manager) (k : Kind) → OnlyShown m (apply_grant classify a m k)
  unfolding apply_grant
  apply_grant-OnlyShown m executable =
      if_elim (OnlyShown m) (a.uninspectable || not (is_empty a.confirm_reasons))
        (λ e. OnlyShown-refl m)
        (λ e. record {
          commands = Within-append a.executables m.allowed_commands (ground arith, ground arith);
          hosts = λ x h. inl h;
          credentials = λ x h. inl h;
          publications = λ x h. inl h;
          rest = refl;
        })
  apply_grant-OnlyShown m network =
      if_elim (OnlyShown m) (a.hosts_undetermined || not (is_empty a.confirm_reasons))
        (λ e. OnlyShown-refl m)
        (λ e. record {
          commands = λ x h. inl h;
          hosts = Within-append a.hosts m.allowed_hosts (ground arith, ground arith);
          credentials = λ x h. inl h;
          publications = λ x h. inl h;
          rest = refl;
        })
  apply_grant-OnlyShown m credential =
      if_elim (OnlyShown m)
        (a.uninspectable
          || not (is_empty a.confirm_reasons)
          || not (str_eq m.protect_credentials "prompt"))
        (λ e. OnlyShown-refl m)
        (λ e. record {
          commands = λ x h. inl h;
          hosts = λ x h. inl h;
          credentials =
              Within-append (credential_targets classify a m.protect_credentials)
                m.allowed_credentials ((ground arith, ground arith), ground arith);
          publications = λ x h. inl h;
          rest = refl;
        })
  apply_grant-OnlyShown m publishing =
      if_elim (OnlyShown m)
        (a.uninspectable || not (is_empty a.confirm_reasons) || not (str_eq m.publication "prompt"))
        (λ e. OnlyShown-refl m)
        (λ e. record {
          commands = λ x h. inl h;
          hosts = λ x h. inl h;
          credentials = λ x h. inl h;
          publications =
              Within-append (publication_targets a m.publication) m.allowed_publications
                ((ground arith, ground arith), ground arith);
          rest = refl;
        })
  apply_grant-OnlyShown m filesystem = OnlyShown-refl m
  apply_grant-OnlyShown m server = OnlyShown-refl m

  Within-trans :
      {Grantable : Type 0} (l n o shown : List String)
      → Within Grantable n l shown
      → Within Grantable o n shown
      → Within Grantable o l shown
  Within-trans l n o shown p q x h = elim (q x h) [ inl e ↦ p x e | inr e ↦ inr e ]

  OnlyShown-trans : (l m n : Manager) → OnlyShown l m → OnlyShown m n → OnlyShown l n
  OnlyShown-trans l m n p q = record {
    commands = Within-trans _ _ _ _ p.commands q.commands;
    hosts = Within-trans _ _ _ _ p.hosts q.hosts;
    credentials = Within-trans _ _ _ _ p.credentials (rw (same_credentials l m p) at q.credentials);
    publications =
        Within-trans _ _ _ _ p.publications (rw (same_publication l m p) at q.publications);
    rest =
        q.rest
        ∙ ap
            (λ (x : Manager). record x {
              allowed_commands = n.allowed_commands;
              allowed_hosts = n.allowed_hosts;
              allowed_credentials = n.allowed_credentials;
              allowed_publications = n.allowed_publications;
            })
            p.rest;
  }

  -- Whatever kinds of grant an approver picks, the four lists of session grants afterwards hold only
  -- what they held before and values of the action that was shown: its executables if all of its
  -- command was read, its hosts if all of them are known, and its credential stores and publication
  -- targets if all of its command was read and their setting is to prompt; with a mandatory
  -- confirmation nothing is added. All else of the manager stays, the tool-wide grants too.
  pub apply_grants-OnlyShown :
      (m : Manager) (kinds : List Kind) → OnlyShown m (apply_grants classify a m kinds)
  unfolding apply_grants
  apply_grants-OnlyShown m [] = OnlyShown-refl m
  apply_grants-OnlyShown m (k ∷ ks) =
      OnlyShown-trans m (apply_grant classify a m k) (apply_grants classify a m (k ∷ ks))
        (apply_grant-OnlyShown m k) (apply_grants-OnlyShown (apply_grant classify a m k) ks)

apply_grant_confirm :
    (classify : String → String) (a : Action) (m : Manager) (k : Kind)
    → is_empty a.confirm_reasons ≡ false
    → apply_grant classify a m k ≡ m
unfolding apply_grant
apply_grant_confirm classify a m executable h = ground arith
apply_grant_confirm classify a m _ h = ground arith

-- An action that carries a mandatory confirmation leaves no grant behind, whatever is picked.
pub apply_grants_confirm :
    (classify : String → String) (a : Action) (m : Manager) (kinds : List Kind)
    → is_empty a.confirm_reasons ≡ false
    → apply_grants classify a m kinds ≡ m
unfolding apply_grants
apply_grants_confirm classify a m [] h = refl
apply_grants_confirm classify a m (k ∷ ks) h =
    rw (apply_grant_confirm classify a m k h) (apply_grants_confirm classify a m ks h)

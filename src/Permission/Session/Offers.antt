-- ===== src/Permission/Session/Offers.antt =====
-- An offered grant is kept: a dimension that the prompt of internal/permission/permission.go offers
-- is covered once the grant is picked, so it is not offered again.
use collomia.Common.{
  Bool, true, false, not, ◌&&◌, List, [], ◌∷◌, ◌++◌, String, any, all, str_eq, is_empty, ◌≡◌, inl,
  inr, refl, arith, Bool-cases, eq_refl, ◌∙◌, subst,
}
use collomia.Permission.Defs.{Action, Names, has, Manager, credential_targets, publication_targets}
use collomia.Permission.Session.{
  Kind, executable, network, credential, publishing, filesystem, server, apply_grant, apply_grants,
}
use collomia.Permission.Session.Grants.{has-append}

abbrev pub same_kind : Kind → Kind → Bool
same_kind filesystem filesystem = true
same_kind executable executable = true
same_kind network network = true
same_kind server server = true
same_kind credential credential = true
same_kind publishing publishing = true
same_kind _ _ = false

same_kind→eq : (k j : Kind) → same_kind k j ≡ true → k ≡ j
same_kind→eq filesystem filesystem h = refl
same_kind→eq executable executable h = refl
same_kind→eq network network h = refl
same_kind→eq server server h = refl
same_kind→eq credential credential h = refl
same_kind→eq publishing publishing h = refl
same_kind→eq _ _ h = cc

all-has_append : (ys xs ts : Names) → all (has xs) ts ≡ true → all (has (ys ++ xs)) ts ≡ true
all-has_append ys xs [] h = refl
all-has_append ys xs (t ∷ ts) h = ground (arith, has-append ys xs t, all-has_append ys xs ts)

all-has_self : (ys xs ts : Names) → all (has ys) ts ≡ true → all (has (ys ++ xs)) ts ≡ true
all-has_self ys xs [] h = refl
all-has_self ys xs (t ∷ ts) h = ground (arith, has-append ys xs t, all-has_self ys xs ts)

all-has_refl : (ts : Names) → all (has ts) ts ≡ true
all-has_refl [] = refl
all-has_refl (t ∷ ts) = ground (arith, eq_refl t, all-has_append (t ∷ []) ts ts, all-has_refl ts)

all-has_granted : (ts xs : Names) → all (has (ts ++ xs)) ts ≡ true
all-has_granted ts xs = all-has_self ts xs ts (all-has_refl ts)

module _ (classify : String → String) (a : Action) where
  -- The values of each kind that the session's grants hold all of.
  abbrev pub held : Manager → Kind → Bool
  held m executable = all (has m.allowed_commands) a.executables
  held m network = all (has m.allowed_hosts) a.hosts
  held m credential =
      all (has m.allowed_credentials) (credential_targets classify a m.protect_credentials)
  held m publishing = all (has m.allowed_publications) (publication_targets a m.publication)
  held m _ = false

  -- The guards of applyGrants.
  abbrev pub recordable : Manager → Kind → Bool
  recordable m executable = not a.uninspectable && is_empty a.confirm_reasons
  recordable m network = not a.hosts_undetermined && is_empty a.confirm_reasons
  recordable m credential =
      not a.uninspectable && is_empty a.confirm_reasons && str_eq m.protect_credentials "prompt"
  recordable m publishing =
      not a.uninspectable && is_empty a.confirm_reasons && str_eq m.publication "prompt"
  recordable m _ = false

  apply_grant_records :
      (m : Manager) (k : Kind) → recordable m k ≡ true → held (apply_grant classify a m k) k ≡ true
  unfolding apply_grant
  apply_grant_records m executable h =
      ground (arith, all-has_granted a.executables m.allowed_commands)
  apply_grant_records m network h = ground (arith, all-has_granted a.hosts m.allowed_hosts)
  apply_grant_records m credential h = ground (
    arith,
    all-has_granted (credential_targets classify a m.protect_credentials) m.allowed_credentials,
  )
  apply_grant_records m publishing h =
      ground (arith, all-has_granted (publication_targets a m.publication) m.allowed_publications)
  apply_grant_records m _ h = cc

  apply_grant-recordable :
      (m : Manager) (j k : Kind) → recordable (apply_grant classify a m j) k ≡ recordable m k
  unfolding apply_grant
  apply_grant-recordable m executable executable = ground arith
  apply_grant-recordable m _ _ = ground arith

  apply_grant-held :
      (m : Manager) (j k : Kind) → held m k ≡ true → held (apply_grant classify a m j) k ≡ true
  unfolding apply_grant
  apply_grant-held m executable executable h =
      ground (arith, all-has_append a.executables m.allowed_commands a.executables)
  apply_grant-held m network network h =
      ground (arith, all-has_append a.hosts m.allowed_hosts a.hosts)
  apply_grant-held m credential credential h =
      let creds = credential_targets classify a m.protect_credentials in
      ground (arith, all-has_append creds m.allowed_credentials creds)
  apply_grant-held m publishing publishing h =
      let pubs = publication_targets a m.publication in
      ground (arith, all-has_append pubs m.allowed_publications pubs)
  apply_grant-held m _ _ h = ground arith

  pub apply_grants-held_mono :
      (m : Manager) (ks : List Kind) (k : Kind)
      → held m k ≡ true
      → held (apply_grants classify a m ks) k ≡ true
  unfolding apply_grants
  apply_grants-held_mono m [] k h = h
  apply_grants-held_mono m (j ∷ ks) k h =
      apply_grants-held_mono (apply_grant classify a m j) ks k (apply_grant-held m j k h)

  -- A recordable kind that was picked is held afterwards.
  pub apply_grants-held :
      (m : Manager) (ks : List Kind) (k : Kind)
      → recordable m k ≡ true
      → any (same_kind k) ks ≡ true
      → held (apply_grants classify a m ks) k ≡ true
  unfolding apply_grants
  apply_grants-held m [] k r h = cc
  apply_grants-held m (j ∷ ks) k r h = elim (Bool-cases (same_kind k j)) [
    | inl e ↦ apply_grants-held_mono (apply_grant classify a m j) ks k (
        subst (λ i. held (apply_grant classify a m i) k ≡ true) (same_kind→eq k j e)
          (apply_grant_records m k r))
    | inr e ↦
        apply_grants-held (apply_grant classify a m j) ks k (apply_grant-recordable m j k ∙ r)
          (ground arith)
  ]

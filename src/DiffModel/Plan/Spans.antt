-- ===== src/DiffModel/Plan/Spans.antt =====
-- internal/diffmodel/diff.go, planReversals: what a plan says of the files before and after the
-- snapshots.
use collomia.Common.{
  ℕ, true, false, List, [], ◌∷◌, Option, none, some, if◌then◌else◌, ◌≡◌, refl, sym, ap, ◌∙◌,
  Bool-cases, inl, inr, arith,
}
use collomia.Common.Text.{Codes, text_eq, text_eq→eq, text_eq_refl, text_eq_sym}
use collomia.DiffModel.Data.{File, Disk, Snapshot, put}
use collomia.DiffModel.Plan.{Reversal, start_of_reversal, extend, add_reversal, plan_from}

abbrev pub file_of : Option Codes → ℕ → Option File
file_of none m = none
file_of (some text) m = some (record { content = text; mode = m })

-- The files before and after a list of recorded mutations, each of which was made by the agent.
pub data Follows : Disk → List Snapshot → Disk → Type 0 where
  still : {d : Disk} → Follows d [] d
  moves :
      {d e : Disk} {s : Snapshot} {ss : List Snapshot}
      → d s.path ≡ file_of s.before s.before_mode
      → Follows (put s.path (file_of s.after s.after_mode) d) ss e
      → Follows d (s ∷ ss) e

-- The reversal of a file.
unfoldable pub reversal_at : Codes → List Reversal → Option Reversal
unfolding text_eq
reversal_at p [] = none
reversal_at p (r ∷ rs) = let rest = reversal_at p rs in if text_eq p r.path then some r else rest

-- Each file has one reversal.
abbrev pub Unique : List Reversal → Type 0
Unique [] = Unit
Unique (r ∷ rs) = (reversal_at r.path rs ≡ none) × Unique rs

abbrev grown : Snapshot → Option Reversal → Reversal
grown s none = start_of_reversal s
grown s (some r) = extend s r

reversal_at-add_same :
    (p : Codes) (s : Snapshot) (rs : List Reversal)
    → text_eq p s.path ≡ true
    → reversal_at p (add_reversal s rs) ≡ some (grown s (reversal_at p rs))
unfolding reversal_at add_reversal
reversal_at-add_same p s [] h = rw h refl
reversal_at-add_same p s (r ∷ rs) h =
    let same : text_eq s.path r.path ≡ text_eq p r.path =
      ap (λ x. text_eq x r.path) (sym (text_eq→eq p s.path h)) in
    ground (arith, same, h, reversal_at-add_same p s rs h)

reversal_at-add_other :
    (p : Codes) (s : Snapshot) (rs : List Reversal)
    → text_eq p s.path ≡ false
    → reversal_at p (add_reversal s rs) ≡ reversal_at p rs
unfolding reversal_at add_reversal
reversal_at-add_other p s [] h = rw h refl
reversal_at-add_other p s (r ∷ rs) h = elim (Bool-cases (text_eq s.path r.path)) [
  | inl e ↦
      let other : text_eq p r.path ≡ false =
        ap (text_eq p) (sym (text_eq→eq s.path r.path e)) ∙ h in
      rw e (rw other refl)
  | inr e ↦ rw e (ground (arith, reversal_at-add_other p s rs h))
]

pub Unique-add : (s : Snapshot) (rs : List Reversal) → Unique rs → Unique (add_reversal s rs)
unfolding add_reversal reversal_at
Unique-add s [] u = (refl, tt)
Unique-add s (r ∷ rs) (u, us) = elim (Bool-cases (text_eq s.path r.path)) [
  | inl e ↦ rw e (u, us)
  | inr e ↦
      rw e
        (reversal_at-add_other r.path s rs (text_eq_sym r.path s.path ∙ e) ∙ u, Unique-add s rs us)
]

pub Unique-plan :
    (plan : List Reversal) (ss : List Snapshot) → Unique plan → Unique (plan_from plan ss)
unfolding plan_from
Unique-plan plan [] u = u
Unique-plan plan (s ∷ ss) u = Unique-plan (add_reversal s plan) ss (Unique-add s plan u)

-- What a reversal, if there is one, says of a file on two disks.
abbrev pub Tells : Disk → Disk → Codes → Option Reversal → Type 0
Tells before after p none = before p ≡ after p
Tells before after p (some r) =
    (before p ≡ file_of r.target r.target_mode) × (after p ≡ file_of r.expected r.expected_mode)

abbrev pub Spans : Disk → Disk → List Reversal → Type 0
Spans before after plan = (p : Codes) → Tells before after p (reversal_at p plan)

module _ (before : Disk) where
  Tells-grown :
      (now : Disk) (s : Snapshot) (o : Option Reversal)
      → Tells before now s.path o
      → now s.path ≡ file_of s.before s.before_mode
      → Tells before (put s.path (file_of s.after s.after_mode) now) s.path (some (grown s o))
  unfolding put
  Tells-grown now s none t h = (t ∙ h, rw (text_eq_refl s.path) refl)
  Tells-grown now s (some r) (a, b) h = (a, rw (text_eq_refl s.path) refl)

  Tells-other :
      (now : Disk) (s : Snapshot) (p : Codes) (o : Option Reversal)
      → text_eq p s.path ≡ false
      → Tells before now p o
      → Tells before (put s.path (file_of s.after s.after_mode) now) p o
  unfolding put
  Tells-other now s p none h t = rw h t
  Tells-other now s p (some r) h (a, b) = (a, rw h b)

  Spans-add :
      (now : Disk) (s : Snapshot) (plan : List Reversal)
      → Spans before now plan
      → now s.path ≡ file_of s.before s.before_mode
      → Spans before (put s.path (file_of s.after s.after_mode) now) (add_reversal s plan)
  Spans-add now s plan spans h p = elim (Bool-cases (text_eq p s.path)) [
    | inl e ↦
        rw (reversal_at-add_same p s plan e) (
          rw (text_eq→eq p s.path e) (Tells-grown now s (reversal_at s.path plan) (spans s.path) h))
    | inr e ↦
        rw (reversal_at-add_other p s plan e) (Tells-other now s p (reversal_at p plan) e (spans p))
  ]

  pub Spans-plan :
      (ss : List Snapshot) (plan : List Reversal) (now after : Disk)
      → Spans before now plan
      → Follows now ss after
      → Spans before after (plan_from plan ss)
  unfolding plan_from
  Spans-plan [] plan now after spans still = spans
  Spans-plan (s ∷ ss) plan now after spans (moves h rest) =
      Spans-plan ss (add_reversal s plan) _ after (Spans-add now s plan spans h) rest

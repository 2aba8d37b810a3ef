-- ===== src/Scheduler/Remove.antt =====
-- Taking one waiter out of a list of distinct ones (removeActiveLocked of
-- internal/agent/scheduler.go).
use mathlib.Core.List.{Memᴰ}
use mathlib.Core.List.Memᴰ
use collomia.Common.{
  ℕ, ◌+◌, Bool, List, [], ◌∷◌, ◌==◌, if◌then◌else◌, length, count, ◌≡◌, ◌≢◌, ap, arith, Bool-cases,
  inl, inr, All, All-Mem, ==_iff, ◌∙◌, subst,
}
use collomia.Scheduler.{Waiter, remove}
use collomia.Scheduler.Invariant.{Distinct, Apart}

module _ (i : ℕ) where
  pub Mem_of_remove : (v : Waiter) (ws : List Waiter) → Memᴰ v (remove i ws) → Memᴰ v ws
  unfolding remove
  Mem_of_remove v [] m = m
  Mem_of_remove v (w ∷ ws) m =
      let later = Mem_of_remove v ws in
      elim (Bool-cases (w.id == i)) [
        | inl e ↦ Memᴰ.tail (rw e at m)
        | inr e ↦ elim (Memᴰ.cases_cons (rw e at m)) [
          | inl q ↦ Memᴰ.head q
          | inr n ↦ Memᴰ.tail (later n)
        ]
      ]

  pub remove-All {κ} : (P : Waiter → Type κ) (ws : List Waiter) → All P ws → All P (remove i ws)
  unfolding remove
  remove-All P [] h = tt
  remove-All P (w ∷ ws) h = elim (Bool-cases (w.id == i)) [
    | inl e ↦ rw e h.1
    | inr e ↦ rw e (h.0, remove-All P ws h.1)
  ]

  pub remove-Distinct : (ws : List Waiter) → Distinct ws → Distinct (remove i ws)
  unfolding remove
  remove-Distinct [] h = tt
  remove-Distinct (w ∷ ws) h = elim (Bool-cases (w.id == i)) [
    | inl e ↦ rw e h.1
    | inr e ↦ rw e (remove-All (λ v. v.id ≢ w.id) ws h.0, remove-Distinct ws h.1)
  ]

  pub remove-Apart : (lower : ℕ → ℕ) (ws : List Waiter) → Apart lower ws → Apart lower (remove i ws)
  unfolding remove
  remove-Apart lower [] h = tt
  remove-Apart lower (w ∷ ws) h = elim (Bool-cases (w.id == i)) [
    | inl e ↦ rw e h.1
    | inr e ↦ rw e (remove-All _ ws h.0, remove-Apart lower ws h.1)
  ]

  pub remove-keep : {v : Waiter} {ws : List Waiter} → Memᴰ v ws → v.id ≢ i → Memᴰ v (remove i ws)
  unfolding remove
  remove-keep {v} (Memᴰ.head {x = w} {xs = ws} e) n = elim (Bool-cases (w.id == i)) [
    | inl q ↦ absurd (n (ap (λ (u : Waiter). u.id) e ∙ (==_iff w.id i).0 q))
    | inr q ↦ rw q (Memᴰ.head e)
  ]
  remove-keep {v} (Memᴰ.tail {x = w} {xs = ws} m) n =
      let later = remove-keep m n in
      elim (Bool-cases (w.id == i)) [ inl q ↦ rw q m | inr q ↦ rw q (Memᴰ.tail later) ]

  -- Nothing that is left has the identity that was removed.
  pub remove-All_ne : (ws : List Waiter) → Distinct ws → All (λ v. v.id ≢ i) (remove i ws)
  unfolding remove
  remove-All_ne [] h = tt
  remove-All_ne (w ∷ ws) h = elim (Bool-cases (w.id == i)) [
    | inl e ↦ rw e (subst (λ j. All (λ v. v.id ≢ j) ws) ((==_iff w.id i).0 e) h.0)
    | inr e ↦ rw e ((λ q. absurd (ground (arith, (==_iff w.id i).1 q))), remove-All_ne ws h.1)
  ]

pub count-remove :
    (f : Waiter → Bool) {w : Waiter} (ws : List Waiter)
    → Distinct ws
    → Memᴰ w ws
    → count f ws ≡ count f (remove w.id ws) + (if f w then 1 else 0)
unfolding remove
count-remove f [] d m = elim m [ ]
count-remove f {w} (u ∷ ws) d (Memᴰ.head e) = rw e (ground arith)
count-remove f {w} (u ∷ ws) d (Memᴰ.tail m) =
    let other : w.id ≢ u.id = All-Mem (λ v. v.id ≢ u.id) ws d.0 m in
    ground (arith, count-remove f ws d.1 m)

pub length-remove :
    {w : Waiter} (ws : List Waiter)
    → Distinct ws
    → Memᴰ w ws
    → length ws ≡ length (remove w.id ws) + 1
unfolding remove
length-remove [] d m = elim m [ ]
length-remove {w} (u ∷ ws) d (Memᴰ.head e) = rw e (ground arith)
length-remove {w} (u ∷ ws) d (Memᴰ.tail m) =
    let other : w.id ≢ u.id = All-Mem (λ v. v.id ≢ u.id) ws d.0 m in
    ground (arith, length-remove ws d.1 m)

-- ===== src/Scheduler/Steps.antt =====
-- Every operation of the scheduler of internal/agent/scheduler.go keeps its invariant.
use mathlib.Core.List.{Memᴰ}
use mathlib.Core.List.Memᴰ
use collomia.Common.{
  ℕ, false, List, [], ◌∷◌, ◌++◌, ◌≡◌, ◌≢◌, inl, inr, refl, sym, ap, ◌∙◌, Bool-cases, All, All-Mem,
  All_of_Mem,
}
use collomia.Scheduler.{Waiter, Scheduler, start, blocked, dispatch_queue, dispatch, acquire}
use collomia.Scheduler.Invariant.{Inv}
use collomia.Scheduler.Start.{start-Inv, Distinct-append}

module _ (lower : ℕ → ℕ) where
  dispatch_queue-Inv :
      (s : Scheduler) (ws : List Waiter)
      → Inv lower (record s { queue = ws })
      → Inv lower (dispatch_queue lower s ws)
  unfolding dispatch_queue
  dispatch_queue-Inv s [] h = h
  dispatch_queue-Inv s (w ∷ ws) h =
      let later = dispatch_queue-Inv (start s w) ws in
      elim (Bool-cases (blocked lower s w)) [
        | inl e ↦ rw e h
        | inr e ↦ rw e (later (start-Inv lower s w ws h e))
      ]

  pub dispatch-Inv : (s : Scheduler) → Inv lower s → Inv lower (dispatch lower s)
  unfolding dispatch
  dispatch-Inv s h = dispatch_queue-Inv s s.queue h

  -- A newly allocated waiter: no object has its identity, and its flags are down.
  abbrev pub IsFresh : Scheduler → Waiter → Type 0
  IsFresh s w =
      All (λ v. v.id ≢ w.id) s.issued × (s.started w.id ≡ false) × (s.released w.id ≡ false)

  pub acquire-Inv :
      (s : Scheduler) (w : Waiter) → Inv lower s → IsFresh s w → Inv lower (acquire lower s w)
  unfolding acquire
  acquire-Inv s w h f =
      dispatch-Inv (record s { queue = s.queue ++ w ∷ []; issued = w ∷ s.issued })
        (record {
          positive = h.positive;
          tightens = h.tightens;
          counted = h.counted;
          bounded = h.bounded;
          provider_counted = h.provider_counted;
          provider_bounded = h.provider_bounded;
          apart = h.apart;
          distinct_active = h.distinct_active;
          distinct_queue = Distinct-append s.queue w h.distinct_queue (
              All_of_Mem (λ v. v.id ≢ w.id) s.queue
                (λ v m. All-Mem (λ v. v.id ≢ w.id) s.issued f.0 (h.waiting v m).0));
          running = λ v m. (let (k, on, kept) = h.running v m in (Memᴰ.tail k, on, kept));
          waiting = λ v m. elim (Memᴰ.append_cases s.queue m) [
            | inl old ↦ (Memᴰ.tail (h.waiting v old).0, (h.waiting v old).1)
            | inr last ↦ rw (Memᴰ.eq_of_singleton last) (Memᴰ.head refl, f.1)
          ];
          held = λ v m on kept. elim (Memᴰ.cases_cons m) [
            | inl e ↦
                absurd (let off = f.1 in let same = ap (λ (u : Waiter). s.started u.id) e in cc)
            | inr old ↦ h.held v old on kept
          ];
          unique = λ u v mu mv e. elim (Memᴰ.cases_cons mu) [
            | inl p ↦ elim (Memᴰ.cases_cons mv) [
              | inl q ↦ p ∙ sym q
              | inr q ↦
                  absurd (
                    All-Mem (λ v. v.id ≢ w.id) s.issued f.0 q (sym e ∙ ap (λ (u : Waiter). u.id) p))
            ]
            | inr p ↦ elim (Memᴰ.cases_cons mv) [
              | inl q ↦
                  absurd
                    (All-Mem (λ v. v.id ≢ w.id) s.issued f.0 p (e ∙ ap (λ (u : Waiter). u.id) q))
              | inr q ↦ h.unique u v p q e
            ]
          ];
          ordered = h.ordered;
        })

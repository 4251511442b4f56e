-- ===== src/Utils/Retry/Waits.antt =====
-- How long a retried operation waits between its attempts.
use osm_polygon_wikidata_onl.Prelude.{
  ℕ, zero, suc, ◌≡◌, inl, inr, true, List, [], ◌∷◌, ◌++◌, Option, none, some, All, All-append,
  Bool-cases,
}
use mathlib.Core.Path.{subst}
use osm_polygon_wikidata_onl.Floats.{Floats, min_of, min_right-leq}
use osm_polygon_wikidata_onl.Utils.Retry.{
  Outcome, invalid_arguments, Plan, Retry, is_final_attempt, exhausted, valid_attempts, retry_of,
  retry_loop, with_retries,
}
use osm_polygon_wikidata_onl.Utils.Retry.Laws.{Verdict, success, decisive, retriable, verdict}

module _ (floats : Floats) {T E : Type 0} (p : Plan floats.Float T E) where
  open floats use {Float, leq, add, double, add_mono}

  -- The bound on a wait: the cap on the backoff and the largest jitter.
  abbrev pub Waits : List (Retry Float E) → Type 0
  Waits retries = All (λ r. leq r.delay (add p.max_delay p.base_delay) ≡ true) retries

  module _ (jitter_bound : (a : ℕ) → leq (p.jitter a) p.base_delay ≡ true) where
    abbrev RunWaits : Option (Outcome T E × List (Retry Float E)) → Type 0
    RunWaits none = Unit
    RunWaits (some run) = Waits run.1

    one_more :
        (a : ℕ) (e : E) (backoff : Float) (done : List (Retry Float E))
        → leq backoff p.max_delay ≡ true
        → Waits done
        → Waits (done ++ (retry_of floats p a e (add backoff (p.jitter a)) ∷ []))
    one_more a e backoff done b w =
        All-append (λ (r : Retry Float E). leq r.delay (add p.max_delay p.base_delay) ≡ true) done _
          w (add_mono backoff p.max_delay (p.jitter a) p.base_delay b (jitter_bound a), tt)

    round-Waits :
        (fuel a : ℕ) (backoff : Float) (last : Option E) (done : List (Retry Float E))
        → leq backoff p.max_delay ≡ true
        → Waits done
        → Verdict p a
        → ((e : E)
            → RunWaits (
                retry_loop floats p fuel
                  (suc a)
                  (min_of floats (double backoff) p.max_delay)
                  (some e)
                  (done ++ (retry_of floats p a e (add backoff (p.jitter a)) ∷ []))))
        → RunWaits (retry_loop floats p (suc fuel) a backoff last done)
    unfolding retry_loop
    round-Waits fuel a backoff last done b w v rest = elim (Bool-cases (exhausted a p.attempts)) [
      | inl over ↦ rw over w
      | inr more ↦ elim (Bool-cases (p.cancelled_at a)) [
        | inl stop ↦ rw more (rw stop w)
        | inr go ↦ elim v [
          | success x r out ↦ rw more (rw go (rw r w))
          | decisive r ↦ rw more (rw go (rw r w))
          | retriable e r out ↦ elim (Bool-cases (is_final_attempt a p.attempts)) [
            | inl final ↦ rw more (rw go (rw r (rw final w)))
            | inr later ↦ elim (Bool-cases (p.cancelled_after a)) [
              | inl stop ↦
                  rw more (rw go (rw r (rw later (rw stop (one_more a e backoff done b w)))))
              | inr wait ↦ rw more (rw go (rw r (rw later (rw wait (rest e)))))
            ]
          ]
        ]
      ]
    ]

    retry_loop-Waits :
        (fuel a : ℕ) (backoff : Float) (last : Option E) (done : List (Retry Float E))
        → leq backoff p.max_delay ≡ true
        → Waits done
        → RunWaits (retry_loop floats p fuel a backoff last done)
    retry_loop-Waits zero a backoff last done b w = unfold retry_loop in tt
    retry_loop-Waits (suc fuel) a backoff last done b w =
        round-Waits fuel a backoff last done b w (verdict p a) λ e.
          retry_loop-Waits fuel (suc a) (min_of floats (double backoff) p.max_delay) (some e)
            (done ++ (retry_of floats p a e (add backoff (p.jitter a)) ∷ []))
            (min_right-leq floats (double backoff) p.max_delay) (one_more a e backoff done b w)

  -- However many attempts are allowed, and wherever a cancellation falls, no wait is longer than the
  -- cap on the backoff and the largest jitter together.
  pub with_retries-Waits :
      ((a : ℕ) → leq (p.jitter a) p.base_delay ≡ true)
      → (fuel : ℕ) {out : Outcome T E} {retries : List (Retry Float E)}
      → with_retries floats p fuel ≡ some (out, retries)
      → Waits retries
  unfolding with_retries
  with_retries-Waits jitter_bound fuel {out} {retries} h =
      elim (Bool-cases (valid_attempts p.attempts)) [
        | inl valid ↦
            let run = retry_loop floats p fuel 1 (min_of floats p.base_delay p.max_delay) none [] in
            let waits : RunWaits jitter_bound run =
              retry_loop-Waits jitter_bound fuel 1 (min_of floats p.base_delay p.max_delay) none []
                (min_right-leq floats p.base_delay p.max_delay) tt in
            let same : run ≡ some (out, retries) = rw valid at h in
            subst (RunWaits jitter_bound) same waits
        | inr invalid ↦
            let same : some (invalid_arguments, []) ≡ some (out, retries) = rw invalid at h in
            subst (RunWaits jitter_bound) same tt
      ]

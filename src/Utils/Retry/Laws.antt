-- ===== src/Utils/Retry/Laws.antt =====
-- What a retried operation ends with, and after how many attempts.
use osm_polygon_wikidata_onl.Prelude.{
  ℕ, zero, suc, ◌+◌, ◌≤◌, ◌<◌, ◌≡◌, refl, ◌⊎◌, inl, inr, true, false, List, [], ◌∷◌, ◌++◌, Option,
  none, some, arith, length, length-append, Bool-cases,
}
use mathlib.Core.Path.{subst}
use native.Mathlib.Decide.{ℕ_discrete}
use osm_polygon_wikidata_onl.Floats.{Floats, min_of}
use osm_polygon_wikidata_onl.Utils.Retry.{
  Outcome, returned, raised, cancelled, invalid_arguments, no_attempt, Plan, Retry, succeeded,
  failed, reraised, should_reraise, is_final_attempt, exhausted, valid_attempts, run_attempt,
  retry_of, retry_loop, with_retries,
}

module _ {Float T E : Type 0} (p : Plan Float T E) where
  -- What an attempt means for the loop: it decides the outcome, or its exception is retried.
  pub data Verdict (attempt : ℕ) : Type 0 where
    success :
        (v : T)
        → run_attempt p attempt ≡ succeeded v
        → p.func attempt ≡ returned v
        → Verdict attempt
    decisive : run_attempt p attempt ≡ reraised (p.func attempt) → Verdict attempt
    retriable :
        (e : E) → run_attempt p attempt ≡ failed e → p.func attempt ≡ raised e → Verdict attempt

  pub verdict : (attempt : ℕ) → Verdict attempt
  unfolding run_attempt
  verdict attempt = of_outcome (p.func attempt) refl
    where
      of_outcome : (out : Outcome T E) → p.func attempt ≡ out → Verdict attempt
      of_outcome (returned v) e = success v (rw e) e
      of_outcome (raised error) e = elim (Bool-cases (p.retry_on error)) [
        | inr other ↦ decisive (rw e (rw other))
        | inl caught ↦ elim (Bool-cases (should_reraise error p.should_retry)) [
          | inl again ↦ decisive (rw e (rw caught (rw again)))
          | inr retry ↦ retriable error (rw e (rw caught (rw retry))) e
        ]
      ]
      of_outcome cancelled e = decisive (rw e)
      of_outcome invalid_arguments e = decisive (rw e)
      of_outcome no_attempt e = decisive (rw e)

  abbrev pub Fails : ℕ → Type 0
  Fails attempt = (e : E) × (run_attempt p attempt ≡ failed e)

  -- Attempt `k` is the first from `a` on that decides the outcome, or the last one allowed.
  pub record Decides (a n k : ℕ) : Type 0 where
    pub from_start : a ≤ k
    pub in_budget : k ≤ n
    pub failed_before : (j : ℕ) → a ≤ j → j < k → Fails j
    pub last_or_decisive : (k ≡ n) ⊎ ¬ Fails k

  Decides-now : (a n : ℕ) → a ≤ n → ((a ≡ n) ⊎ ¬ Fails a) → Decides a n a
  Decides-now a n h d = record {
    from_start = omega arith;
    in_budget = h;
    failed_before = λ j l r. absurd (omega arith);
    last_or_decisive = d;
  }

  Decides-later : (a n k : ℕ) → Fails a → Decides (suc a) n k → Decides a n k
  Decides-later a n k fails d = record {
    from_start = omega (arith, d.from_start);
    in_budget = d.in_budget;
    failed_before = λ j l r. before j l r;
    last_or_decisive = d.last_or_decisive;
  }
    where
      before : (j : ℕ) → a ≤ j → j < k → Fails j
      before j l r = elim (ℕ_discrete a j) [
        | yes same ↦ subst Fails same fails
        | no other ↦ d.failed_before j (omega arith) r
      ]

module _ (floats : Floats) {T E : Type 0} (p : Plan floats.Float T E) (n : ℕ)
    (bounded : p.attempts ≡ some n) (quiet_at : (a : ℕ) → p.cancelled_at a ≡ false)
    (quiet_after : (a : ℕ) → p.cancelled_after a ≡ false) where
  open floats use {Float, add, double}

  -- The loop ends with the outcome of the deciding attempt, and has retried each one before it.
  pub record Ends (a : ℕ) (done : List (Retry Float E))
      (run : Option (Outcome T E × List (Retry Float E))) : Type 0 where
    pub attempt : ℕ
    pub decides : Decides p a n attempt
    pub retries : List (Retry Float E)
    pub ended : run ≡ some (p.func attempt, retries)
    pub counted : length retries + a ≡ length done + attempt

  in_range : (a : ℕ) → a ≤ n → exhausted a p.attempts ≡ false
  unfolding exhausted
  in_range a h = rw bounded (ground arith)

  final_here : (a : ℕ) → a ≡ n → is_final_attempt a p.attempts ≡ true
  unfolding is_final_attempt
  final_here a h = rw bounded (ground arith)

  not_final_here : (a : ℕ) → ¬ (a ≡ n) → is_final_attempt a p.attempts ≡ false
  unfolding is_final_attempt
  not_final_here a h = rw bounded (ground arith)

  budget : 1 ≤ n → valid_attempts p.attempts ≡ true
  unfolding valid_attempts
  budget h = rw bounded (ground arith)

  -- One round, by the verdict on its attempt; `rest` is what the later rounds end with.
  round-Ends :
      (fuel a : ℕ) (backoff : Float) (last : Option E) (done : List (Retry Float E))
      → a ≤ n
      → Verdict p a
      → ((e : E)
          → a < n
          → Ends (suc a) (done ++ (retry_of floats p a e (add backoff (p.jitter a)) ∷ [])) (
              retry_loop floats p fuel
                (suc a)
                (min_of floats (double backoff) p.max_delay)
                (some e)
                (done ++ (retry_of floats p a e (add backoff (p.jitter a)) ∷ []))))
      → Ends a done (retry_loop floats p (suc fuel) a backoff last done)
  unfolding retry_loop
  round-Ends fuel a backoff last done h (success v r out) rest = rw (in_range a h) (
      rw (quiet_at a) (
        rw r (record {
          attempt = a;
          decides = Decides-now p a n h (inr (λ fails. cc (r, fails.1)));
          retries = done;
          ended = rw out;
          counted = refl;
        })))
  round-Ends fuel a backoff last done h (decisive r) rest = rw (in_range a h) (
      rw (quiet_at a) (
        rw r (record {
          attempt = a;
          decides = Decides-now p a n h (inr (λ fails. cc (r, fails.1)));
          retries = done;
          ended = refl;
          counted = refl;
        })))
  round-Ends fuel a backoff last done h (retriable e r out) rest = elim (ℕ_discrete a n) [
    | yes final ↦ rw (in_range a h) (
        rw (quiet_at a) (
          rw r (
            rw (final_here a final) (record {
              attempt = a;
              decides = Decides-now p a n h (inl final);
              retries = done;
              ended = rw out;
              counted = refl;
            }))))
    | no more ↦
        let ends = rest e (omega arith) in
        rw (in_range a h) (
          rw (quiet_at a) (
            rw r (
              rw (not_final_here a more) (
                rw (quiet_after a) (record {
                  attempt = ends.attempt;
                  decides = Decides-later p a n ends.attempt (e, r) ends.decides;
                  retries = ends.retries;
                  ended = ends.ended;
                  counted = omega (
                    arith,
                    ends.counted,
                    length-append done (retry_of floats p a e (add backoff (p.jitter a)) ∷ []),
                  );
                })))))
  ]

  retry_loop-Ends :
      (fuel a : ℕ) (backoff : Float) (last : Option E) (done : List (Retry Float E))
      → a ≤ n
      → n < a + fuel
      → Ends a done (retry_loop floats p fuel a backoff last done)
  retry_loop-Ends zero a backoff last done h f = absurd (omega arith)
  retry_loop-Ends (suc fuel) a backoff last done h f =
      round-Ends fuel a backoff last done h (verdict p a) λ e later.
        retry_loop-Ends fuel (suc a) (min_of floats (double backoff) p.max_delay) (some e)
          (done ++ (retry_of floats p a e (add backoff (p.jitter a)) ∷ [])) (omega arith)
          (omega arith)

  -- With a budget of `n` attempts, at least one, and no cancellation, `n` rounds of the loop are enough,
  -- and the call ends with the outcome of the first attempt whose exception is not retried, or of the last one. Every
  -- attempt before it failed with an exception that is retried, and each was followed by one wait.
  pub with_retries-Ends : 1 ≤ n → Ends 1 [] (with_retries floats p n)
  unfolding with_retries
  with_retries-Ends h =
      rw (budget h)
        (retry_loop-Ends n 1 (min_of floats p.base_delay p.max_delay) none [] h (omega arith))

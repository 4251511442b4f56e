-- ===== src/Utils/Retry.antt =====
-- utils/retry.py: `with_retries`. The operation, the jitter and the process-wide cancellation are
-- functions of the attempt's number; what the loop did is returned beside its result.
pub mod Laws
pub mod Waits
use osm_polygon_wikidata_onl.Prelude.{
  ℕ, zero, suc, ◌+◌, ◌-◌, ◌≡◌, Bool, true, false, ◌&&◌, ◌||◌, not, List, [], ◌∷◌, ◌++◌, Option,
  none, some, if◌then◌else◌, nat_beq, ltb,
}
use osm_polygon_wikidata_onl.Floats.{Floats, min_of}

-- what a call of the operation, or of the whole loop, ends with
pub data Outcome {ℓ} (T E : Type ℓ) : Type ℓ where
  returned : T → Outcome T E
  raised : E → Outcome T E
  -- `_RetryCancelled`
  cancelled : Outcome T E
  -- `ValueError` of the argument check
  invalid_arguments : Outcome T E
  -- `RuntimeError`: the loop ended with no attempt
  no_attempt : Outcome T E

-- The arguments of `with_retries` and what the process does around it.
pub record Plan (Float T E : Type 0) : Type 0 where
  pub func : ℕ → Outcome T E
  pub attempts : Option ℕ
  pub base_delay : Float
  pub max_delay : Float
  pub retry_on : E → Bool
  pub should_retry : Option (E → Bool)
  -- `random.uniform(0, base_delay)` at an attempt
  pub jitter : ℕ → Float
  -- the cancellation is set when an attempt begins, and during the wait after it
  pub cancelled_at : ℕ → Bool
  pub cancelled_after : ℕ → Bool

-- A failed attempt that is followed by a wait: `on_retry(attempt, error, delay)`.
pub record Retry (Float E : Type 0) : Type 0 where
  pub attempt : ℕ
  pub error : E
  pub delay : Float

pub data AttemptResult (T E : Type 0) : Type 0 where
  succeeded : T → AttemptResult T E
  failed : E → AttemptResult T E
  -- the exception leaves the loop
  reraised : Outcome T E → AttemptResult T E

unfoldable pub should_reraise : {E : Type 0} → E → Option (E → Bool) → Bool
should_reraise error none = false
should_reraise error (some test) = not (test error)

unfoldable pub is_final_attempt : ℕ → Option ℕ → Bool
is_final_attempt attempt none = false
is_final_attempt attempt (some n) = nat_beq attempt n

-- whether `_attempt_numbers` has been used up
unfoldable pub exhausted : ℕ → Option ℕ → Bool
exhausted attempt none = false
exhausted attempt (some n) = ltb n attempt

-- the end of the loop: `raise last_exc`
unfoldable pub finish : {T E : Type 0} → Option E → Outcome T E
finish none = no_attempt
finish (some error) = raised error

unfoldable pub valid_attempts : Option ℕ → Bool
valid_attempts none = true
valid_attempts (some n) = not (ltb n 1)

module _ {Float T E : Type 0} (p : Plan Float T E) where
  caught : E → AttemptResult T E
  unfolding should_reraise
  caught error =
      if p.retry_on error
      then (if should_reraise error p.should_retry then reraised (raised error) else failed error)
      else reraised (raised error)

  attempt_result : Outcome T E → AttemptResult T E
  unfolding caught
  attempt_result (returned v) = succeeded v
  attempt_result (raised error) = caught error
  attempt_result other = reraised other

  unfoldable pub run_attempt : ℕ → AttemptResult T E
  unfolding attempt_result
  run_attempt attempt = attempt_result (p.func attempt)

module _ (floats : Floats) {T E : Type 0} (p : Plan floats.Float T E) where
  open floats use {Float, add, double}

  abbrev pub retry_of : ℕ → E → Float → Retry Float E
  retry_of attempt error delay = record { attempt = attempt; error = error; delay = delay }

  -- `_run_retry_loop` from an attempt on, with what was retried before. `none`: the fuel ran out.
  unfoldable pub retry_loop :
      ℕ → ℕ → Float → Option E → List (Retry Float E) → Option (Outcome T E × List (Retry Float E))
  unfolding run_attempt is_final_attempt exhausted finish
  retry_loop zero attempt backoff last done = none
  retry_loop (suc fuel) attempt backoff last done =
      if exhausted attempt p.attempts
      then some (finish last, done)
      else if p.cancelled_at attempt
      then some (cancelled, done)
      else elim (run_attempt p attempt) [
        | succeeded v ↦ some (returned v, done)
        | reraised out ↦ some (out, done)
        | failed error ↦
            let delay = add backoff (p.jitter attempt) in
            let done' = done ++ (retry_of attempt error delay ∷ []) in
            let rest =
              retry_loop fuel (suc attempt) (min_of floats (double backoff) p.max_delay)
                (some error) done' in
            if is_final_attempt attempt p.attempts
            then some (raised error, done)
            else if p.cancelled_after attempt
            then some (cancelled, done')
            else rest
      ]

  unfoldable pub with_retries : ℕ → Option (Outcome T E × List (Retry Float E))
  unfolding retry_loop valid_attempts
  with_retries fuel =
      if valid_attempts p.attempts
      then retry_loop fuel 1 (min_of floats p.base_delay p.max_delay) none []
      else some (invalid_arguments, [])

-- ===== src/Hf/Uploads/Attempts/Laws.antt =====
-- hf/_upload_retry.py: how the attempts of one upload end, and how long the waits between them are.
use osm_polygon_wikidata_onl.Prelude.{
  ℕ, zero, suc, ◌-◌, ◌+◌, ◌≤◌, ◌<◌, ◌≡◌, refl, ◌⊎◌, inl, inr, Bool, true, false, ◌&&◌, List, Option,
  none, some, ltb, Bool-cases, arith, All,
}
use mathlib.Core.Path.{subst}
use osm_polygon_wikidata_onl.Utils.RetryAfter.{parse_retry_after}
use osm_polygon_wikidata_onl.Floats.{
  Floats, max_of, leq_refl, leq-max_left, leq-max_right, max-leq, min_right-leq, leq-min, leq-add,
}
use osm_polygon_wikidata_onl.Utils.RetryAfter.Bounds.{parse_retry_after-InRange}
use osm_polygon_wikidata_onl.Hf.Uploads.Attempts.{
  UploadFault, is_transient, should_retry, Surroundings, Ended, uploaded, failed,
  rate_limited_response, doubled, backoff_seconds, rate_limit_delay, retry_delay, attempted,
  upload_loop, run_upload_attempts,
}

no_retry :
    (attempt attempts : ℕ) (transient : Bool) {C : Type 0}
    → (ltb attempt attempts && transient) ≡ false
    → attempt ≤ attempts
    → (transient ≡ false) ⊎ ((attempt ≡ attempts) ⊎ C)
no_retry attempt attempts false h k = inl refl
no_retry attempt attempts true h k = inr (inl (ground arith))

module _ (floats : Floats) (around : Surroundings floats.Float) where
  open floats use {Float, leq, add, leq_trans, add_mono}

  -- An attempt that failed and was followed by another.
  abbrev pub Retried : ℕ → Type 0
  Retried j =
      (error : UploadFault) × (around.upload j ≡ some error)
      × (is_transient error ≡ true)
      × (around.cancelled_after j ≡ false)

  -- What the last attempt of the loop was.
  abbrev pub IsLast : ℕ → ℕ → Ended → Type 0
  IsLast attempts k ended =
      ((around.upload k ≡ none) × (ended ≡ uploaded))
      ⊎ ((error : UploadFault) × (around.upload k ≡ some error)
          × (ended ≡ failed error)
          × ((is_transient error ≡ false) ⊎ ((k ≡ attempts) ⊎ (around.cancelled_after k ≡ true))))

  abbrev pub Ends : ℕ → ℕ → Ended → Type 0
  Ends first attempts ended =
      (k : ℕ) × (first ≤ k)
      × (k ≤ attempts)
      × ((j : ℕ) → first ≤ j → j < k → Retried j)
      × IsLast attempts k ended

  Ends-here :
      (attempt attempts : ℕ) (ended : Ended)
      → attempt ≤ attempts
      → IsLast attempts attempt ended
      → Ends attempt attempts ended
  Ends-here attempt attempts ended h last =
      (attempt, omega arith, h, λ j p q. absurd (omega arith), last)

  first_or_later : (attempt j : ℕ) → attempt ≤ j → (attempt ≡ j) ⊎ (suc attempt ≤ j)
  first_or_later attempt j h = elim (Bool-cases (ltb attempt j)) [
    | inl e ↦ inr (ground arith)
    | inr e ↦ inl (ground arith)
  ]

  -- One attempt that is retried, before the others.
  later-Ends :
      (attempt attempts : ℕ) (ended : Ended)
      → Retried attempt
      → Ends (suc attempt) attempts ended
      → Ends attempt attempts ended
  later-Ends attempt attempts ended now (k, low, high, before, last) = (
    k,
    omega arith,
    high,
    λ j p q. elim (first_or_later attempt j p) [
      | inl e ↦ subst Retried e now
      | inr more ↦ before j more q
    ],
    last,
  )

  attempted-Ends :
      (o : Option UploadFault) (attempt attempts : ℕ) (rest : Ended × List Float)
      → around.upload attempt ≡ o
      → attempt ≤ attempts
      → (attempt < attempts → Ends (suc attempt) attempts rest.0)
      → Ends attempt attempts (attempted floats around o attempt attempts rest).0
  unfolding attempted should_retry
  attempted-Ends none attempt attempts rest e h more =
      Ends-here attempt attempts uploaded h (inl (e, refl))
  attempted-Ends (some error) attempt attempts rest e h more =
      elim (Bool-cases (ltb attempt attempts && is_transient error)) [
        | inr permanent ↦ rw permanent (
            Ends-here attempt attempts (failed error) h
              (inr (error, e, refl, no_retry attempt attempts (is_transient error) permanent h)))
        | inl retried ↦ elim (Bool-cases (around.cancelled_after attempt)) [
          | inl cancelled ↦
              rw (retried, cancelled)
                (Ends-here attempt attempts (failed error) h
                  (inr (error, e, refl, inr (inr cancelled))))
          | inr going ↦
              rw (retried, going)
                (later-Ends attempt attempts rest.0 (error, e, ground (arith, retried), going)
                  (more (ground (arith, retried))))
        ]
      ]

  upload_loop-Ends :
      (left attempt attempts : ℕ)
      → attempt + left ≡ suc attempts
      → 1 ≤ left
      → Ends attempt attempts (upload_loop floats around left attempt attempts).0
  unfolding upload_loop
  upload_loop-Ends zero attempt attempts e h = absurd (omega arith)
  upload_loop-Ends (suc left) attempt attempts e h =
      attempted-Ends (around.upload attempt) attempt attempts _ refl (omega arith)
        (λ more. upload_loop-Ends left (suc attempt) attempts (omega arith) (omega arith))

  -- With at least one attempt allowed, the loop makes some number of attempts within the budget, from the
  -- first on. Each but the last raised a transient failure and was followed by a wait that was not
  -- cancelled. The upload counts as delivered exactly when the last attempt returned; otherwise the
  -- failure is that of the last attempt, which was not transient, or the last of the budget, or followed
  -- by a cancelled wait.
  pub run_upload_attempts-Ends :
      (attempts : ℕ) → 1 ≤ attempts → Ends 1 attempts (run_upload_attempts floats around attempts).0
  unfolding run_upload_attempts
  run_upload_attempts-Ends attempts h =
      let enough : ltb attempts 1 ≡ false = ground arith in
      rw enough (upload_loop-Ends attempts 1 attempts (omega arith) h)

  -- Every wait of the list is between zero and a ceiling.
  abbrev pub Waits : Float → List Float → Type 0
  Waits most = All (λ delay. (leq floats.zero delay ≡ true) × (leq delay most ≡ true))

  abbrev pub ceiling : Float
  ceiling = max_of floats (add around.max_delay around.base_delay) around.max_server_retry_after

  -- The surroundings: constants that are not negative, and a random part between zero and the base delay.
  pub record IsSound : Type 0 where
    pub base : leq floats.zero around.base_delay ≡ true
    pub capped : leq floats.zero around.max_delay ≡ true
    pub server : leq floats.zero around.max_server_retry_after ≡ true
    pub jitter_low : (n : ℕ) → leq floats.zero (around.jitter n) ≡ true
    pub jitter_high : (n : ℕ) → leq (around.jitter n) around.base_delay ≡ true

  module _ (sound : IsSound) where
    doubled_nonneg : (n : ℕ) → leq floats.zero (doubled floats around n) ≡ true
    unfolding doubled
    doubled_nonneg zero = sound.base
    doubled_nonneg (suc n) =
        leq_trans _ _ _ (doubled_nonneg n) (floats.double_leq _ (doubled_nonneg n))

    backoff_high :
        (n : ℕ)
        → leq (backoff_seconds floats around n) (add around.max_delay around.base_delay) ≡ true
    unfolding backoff_seconds
    backoff_high n = add_mono _ _ _ _ (min_right-leq floats _ _) (sound.jitter_high n)

    backoff_low : (n : ℕ) → leq floats.zero (backoff_seconds floats around n) ≡ true
    unfolding backoff_seconds
    backoff_low n =
        leq_trans _ _ _ (leq-min floats _ _ _ (doubled_nonneg (n - 1)) sound.capped)
          (leq-add floats _ _ (sound.jitter_low n))

    rate_limit_high :
        (error : UploadFault)
        → leq (rate_limit_delay floats around error) around.max_server_retry_after ≡ true
    unfolding rate_limit_delay
    rate_limit_high error =
        elim (rate_limited_response error)
          as (λ r.
            leq
              (elim r as (λ _. Float) [
                | none ↦ floats.zero
                | some response ↦
                    parse_retry_after floats around.parsers response.retry_after floats.zero
                      around.max_server_retry_after
              ])
              around.max_server_retry_after
            ≡ true) [
              | none ↦ sound.server
              | some response ↦
                  (parse_retry_after-InRange floats around.parsers response.retry_after floats.zero
                    around.max_server_retry_after sound.server
                    (leq_refl floats floats.zero, sound.server)).1
            ]

    retry_delay_bounds :
        (n : ℕ) (error : UploadFault)
        → (leq floats.zero (retry_delay floats around n error) ≡ true)
          × (leq (retry_delay floats around n error) ceiling ≡ true)
    unfolding retry_delay
    retry_delay_bounds n error = (
      leq_trans _ _ _ (backoff_low n) (leq-max_left floats _ _),
      max-leq floats _ _ _ (leq_trans _ _ _ (backoff_high n) (leq-max_left floats _ _))
          (leq_trans _ _ _ (rate_limit_high error) (leq-max_right floats _ _)),
    )

    attempted-Waits :
        (o : Option UploadFault) (attempt attempts : ℕ) (rest : Ended × List Float)
        → Waits ceiling rest.1
        → Waits ceiling (attempted floats around o attempt attempts rest).1
    unfolding attempted
    attempted-Waits none attempt attempts rest h = tt
    attempted-Waits (some error) attempt attempts rest h =
        elim (Bool-cases (should_retry error attempt attempts)) [
          | inr permanent ↦ rw permanent tt
          | inl retried ↦ elim (Bool-cases (around.cancelled_after attempt)) [
            | inl cancelled ↦ rw (retried, cancelled) (retry_delay_bounds attempt error, tt)
            | inr going ↦ rw (retried, going) (retry_delay_bounds attempt error, h)
          ]
        ]

    upload_loop-Waits :
        (left attempt attempts : ℕ)
        → Waits ceiling (upload_loop floats around left attempt attempts).1
    unfolding upload_loop
    upload_loop-Waits zero attempt attempts = tt
    upload_loop-Waits (suc left) attempt attempts =
        attempted-Waits (around.upload attempt) attempt attempts _
          (upload_loop-Waits left (suc attempt) attempts)

    -- Whatever the attempts raise and a server asks for, no wait between two attempts is negative or
    -- longer than the larger of the ceiling of the backoff with the base delay, and the ceiling for a
    -- server's request; where the random part is between zero and the base delay.
    pub run_upload_attempts-Waits :
        (attempts : ℕ) → Waits ceiling (run_upload_attempts floats around attempts).1
    unfolding run_upload_attempts
    run_upload_attempts-Waits attempts = elim (Bool-cases (ltb attempts 1)) [
      | inl e ↦ rw e tt
      | inr e ↦ rw e (upload_loop-Waits attempts 1 attempts)
    ]

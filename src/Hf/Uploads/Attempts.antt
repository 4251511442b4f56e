-- ===== src/Hf/Uploads/Attempts.antt =====
-- hf/_upload_retry.py: the attempts of one upload.
pub mod Laws
use osm_polygon_wikidata_onl.Prelude.{
  ℕ, zero, suc, ◌-◌, ◌+◌, Bool, true, false, ◌&&◌, not, List, [], ◌∷◌, Option, none, some,
  if◌then◌else◌, ltb, nat_beq, Str, Result, ok, err, value_error, Raised,
}
use osm_polygon_wikidata_onl.Floats.{Floats, max_of, min_of}
use osm_polygon_wikidata_onl.Utils.Transient.{Exn, is_transient_network_error}
use osm_polygon_wikidata_onl.Utils.RetryAfter.{Parsers, parse_retry_after}

pub record Response : Type 0 where
  pub status_code : Option ℕ
  pub retry_after : Option Str

-- An exception of the callback: the flag of an `UploadError`, its place among network errors, and the
-- response that each link of its chain carries.
pub record UploadFault : Type 0 where
  pub transient_flag : Option Bool
  pub exn : Exn
  pub responses : List (Option Response)

unfoldable pub is_transient : UploadFault → Bool
unfolding is_transient_network_error
is_transient error = elim error.transient_flag [
  | some transient ↦ transient
  | none ↦ is_transient_network_error error.exn
]

abbrev pub max_cause_depth : ℕ
max_cause_depth = 10

abbrev is_429 : Option Response → Option Response
is_429 none = none
is_429 (some response) = elim response.status_code [
  | some code ↦ if nat_beq code 429 then some response else none
  | none ↦ none
]

-- the loop of `_rate_limited_response`
rate_limited_from : ℕ → List (Option Response) → Option Response
rate_limited_from zero links = none
rate_limited_from (suc depth) [] = none
rate_limited_from (suc depth) (link ∷ links) = elim (is_429 link) [
  | some response ↦ some response
  | none ↦ rate_limited_from depth links
]

unfoldable pub rate_limited_response : UploadFault → Option Response
unfolding rate_limited_from
rate_limited_response error = rate_limited_from max_cause_depth error.responses

unfoldable pub should_retry : UploadFault → ℕ → ℕ → Bool
unfolding is_transient
should_retry error attempt attempts = ltb attempt attempts && is_transient error

-- The constants of the module, and what happens around the loop: the callback at each attempt (none
-- where it returns), the random part of the wait, and a cancellation during the wait.
pub record Surroundings (Float : Type 0) : Type 0 where
  pub base_delay : Float
  pub max_delay : Float
  pub max_server_retry_after : Float
  pub parsers : Parsers Float
  pub upload : ℕ → Option UploadFault
  pub jitter : ℕ → Float
  pub cancelled_after : ℕ → Bool

pub data Ended : Type 0 where
  uploaded : Ended
  failed : UploadFault → Ended
  no_attempts : Ended

module _ (floats : Floats) (around : Surroundings floats.Float) where
  open floats use {Float, double, add}

  -- `_BASE_DELAY_SECONDS * 2 ** n`
  unfoldable pub doubled : ℕ → Float
  doubled zero = around.base_delay
  doubled (suc n) = double (doubled n)

  unfoldable pub backoff_seconds : ℕ → Float
  unfolding doubled
  backoff_seconds attempt =
      add (min_of floats (doubled (attempt - 1)) around.max_delay) (around.jitter attempt)

  unfoldable pub rate_limit_delay : UploadFault → Float
  unfolding rate_limited_response
  rate_limit_delay error = elim (rate_limited_response error) [
    | none ↦ floats.zero
    | some response ↦
        parse_retry_after floats around.parsers response.retry_after floats.zero
          around.max_server_retry_after
  ]

  -- the wait of `_wait_before_retry`
  unfoldable pub retry_delay : ℕ → UploadFault → Float
  unfolding backoff_seconds rate_limit_delay
  retry_delay attempt error = max_of floats (backoff_seconds attempt) (rate_limit_delay error)

  -- What the loop does with the outcome of an attempt, where `rest` are the attempts after it.
  unfoldable pub attempted : Option UploadFault → ℕ → ℕ → Ended × List Float → Ended × List Float
  unfolding should_retry retry_delay
  attempted none attempt attempts rest = (uploaded, [])
  attempted (some error) attempt attempts rest =
      if not (should_retry error attempt attempts)
      then (failed error, [])
      else if around.cancelled_after attempt
      then (failed error, retry_delay attempt error ∷ [])
      else (rest.0, retry_delay attempt error ∷ rest.1)

  -- The loop from an attempt on, with the number of attempts that are left; beside the end, the waits.
  unfoldable pub upload_loop : ℕ → ℕ → ℕ → Ended × List Float
  unfolding attempted
  upload_loop zero attempt attempts = (uploaded, [])
  upload_loop (suc left) attempt attempts =
      attempted (around.upload attempt) attempt attempts (upload_loop left (suc attempt) attempts)

  unfoldable pub run_upload_attempts : ℕ → Ended × List Float
  unfolding upload_loop
  run_upload_attempts attempts =
      if ltb attempts 1 then (no_attempts, []) else upload_loop attempts 1 attempts

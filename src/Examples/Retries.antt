-- ===== src/Examples/Retries.antt =====
-- A call that fails once, and chains of exceptions.
use osm_polygon_wikidata_onl.Prelude.{
  ℕ, ◌≡◌, ◌<◌, ◌↔◌, refl, true, false, List, [], ◌∷◌, none, some, arith, nat_beq, if◌then◌else◌,
}
use osm_polygon_wikidata_onl.Floats.{min_of}
use osm_polygon_wikidata_onl.Examples.Clock.{seconds}
use osm_polygon_wikidata_onl.Utils.Transient.{
  url_error, certificate, timeout, Exn, exn, nothing, just, is_transient_network_error,
  is_transient_failure,
}
use osm_polygon_wikidata_onl.Utils.Transient.Laws.{Link, IsOutage, is_transient_failure_iff}
use osm_polygon_wikidata_onl.Utils.Retry.{Plan, Outcome, returned, raised, Retry, with_retries}
use osm_polygon_wikidata_onl.Utils.Retry.Laws.{Ends, with_retries-Ends}

abbrev fails_once : ℕ → Outcome ℕ ℕ
fails_once attempt = if nat_beq attempt 1 then raised 503 else returned 7

abbrev retry_plan : Plan ℕ ℕ ℕ
retry_plan = record {
  func = fails_once;
  attempts = some 3;
  base_delay = 1;
  max_delay = 8;
  retry_on = λ e. true;
  should_retry = none;
  jitter = λ attempt. 1;
  cancelled_at = λ attempt. false;
  cancelled_after = λ attempt. false;
}

with_retries-Ends_example :
    Ends seconds retry_plan 3 refl (λ a. refl) (λ a. refl) 1 [] (with_retries seconds retry_plan 3)
with_retries-Ends_example =
    with_retries-Ends seconds retry_plan 3 refl (λ a. refl) (λ a. refl) (omega arith)

abbrev one_wait : List (Retry ℕ ℕ)
one_wait = record { attempt = 1; error = 503; delay = 2 } ∷ []

returned_seven : with_retries seconds retry_plan 3 ≡ some (returned 7, one_wait)
unfolding with_retries min_of
returned_seven = refl

-- a certificate failure behind an error of the URL, and a timeout behind a certificate failure
abbrev behind_url : Exn
behind_url = exn url_error nothing (just (exn certificate nothing nothing nothing)) nothing

abbrev late : Exn
late = exn timeout nothing nothing nothing

abbrev before_late : Exn
before_late = exn certificate nothing nothing (just late)

is_transient_failure_iff_example :
    (is_transient_failure before_late none ≡ true)
    ↔ ((n : ℕ) × (d : Exn) × Link n before_late d × (n < 8) × IsOutage d)
is_transient_failure_iff_example = is_transient_failure_iff before_late

-- It is retried, for the timeout behind the certificate failure.
retried : is_transient_failure before_late none ≡ true
unfolding is_transient_failure is_transient_network_error
retried = refl

-- ===== src/Examples/Publishing.antt =====
-- Three attempts of an upload, the second with a `Retry-After` header, in whole seconds.
use osm_polygon_wikidata_onl.Prelude.{
  ℕ, ◌≡◌, refl, true, false, [], ◌∷◌, none, some, codes, arith, nat_beq, if◌then◌else◌,
}
use osm_polygon_wikidata_onl.Floats.{max_of}
use osm_polygon_wikidata_onl.Examples.Clock.{seconds}
use osm_polygon_wikidata_onl.Utils.Transient.{exn, timeout, nothing}
use osm_polygon_wikidata_onl.Utils.RetryAfter.{numeric, no_number, Parsers, parse_retry_after}
use osm_polygon_wikidata_onl.Utils.RetryAfter.Bounds.{InRange, parse_retry_after-InRange}
use osm_polygon_wikidata_onl.Hf.Uploads.Attempts.{
  UploadFault, Surroundings, uploaded, run_upload_attempts,
}
use osm_polygon_wikidata_onl.Hf.Uploads.Attempts.Laws.{Ends, IsSound, run_upload_attempts-Ends}

abbrev parsers : Parsers ℕ
parsers = record {
  float_of = λ value. elim value [ [] ↦ no_number | c ∷ cs ↦ numeric 400 ];
  until = λ value. none;
}

parse_retry_after-InRange_example :
    InRange seconds 300 (parse_retry_after seconds parsers (some (codes "400")) 0 300)
parse_retry_after-InRange_example =
    parse_retry_after-InRange seconds parsers (some (codes "400")) 0 300 refl (refl, refl)

abbrev limited : UploadFault
limited = record {
  transient_flag = some true;
  exn = exn timeout nothing nothing nothing;
  responses =
      none ∷ some (record { status_code = some 429; retry_after = some (codes "400") }) ∷ [];
}

abbrev around : Surroundings ℕ
around = record {
  base_delay = 1;
  max_delay = 8;
  max_server_retry_after = 300;
  parsers = parsers;
  upload = λ attempt. if nat_beq attempt 3 then none else some limited;
  jitter = λ attempt. 1;
  cancelled_after = λ attempt. false;
}

around-IsSound : IsSound seconds around
around-IsSound = record {
  base = refl;
  capped = refl;
  server = refl;
  jitter_low = λ n. refl;
  jitter_high = λ n. refl;
}

run_upload_attempts-Ends_example : Ends seconds around 1 3 (run_upload_attempts seconds around 3).0
run_upload_attempts-Ends_example = run_upload_attempts-Ends seconds around 3 (omega arith)

-- The third attempt returns, after two waits of five minutes.
attempts_end : run_upload_attempts seconds around 3 ≡ (uploaded, 300 ∷ 300 ∷ [])
unfolding run_upload_attempts max_of parse_retry_after
attempts_end = refl

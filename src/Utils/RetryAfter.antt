-- ===== src/Utils/RetryAfter.antt =====
-- utils/http_retry.py: the delay that a `Retry-After` header asks for. The two parsers of the standard
-- library are arguments.
pub mod Bounds
use osm_polygon_wikidata_onl.Prelude.{Option, none, some, if◌then◌else◌, is_empty, Str}
use osm_polygon_wikidata_onl.Floats.{Floats, max_of, min_of}

-- What `float` reads of a text: no number, NaN, or any other float.
pub data Parsed (Float : Type 0) : Type 0 where
  no_number not_a_number : Parsed Float
  numeric : Float → Parsed Float

-- `until` is the time from now to the date that `parsedate_to_datetime` reads, none where that raises.
pub record Parsers (Float : Type 0) : Type 0 where
  pub float_of : Str → Parsed Float
  pub until : Str → Option Float

module _ (floats : Floats) where
  open floats use {Float, zero}

  -- `min(max_s, max(0.0, seconds))`
  unfoldable pub clamp : Float → Float → Float
  unfolding max_of min_of
  clamp max_s seconds = min_of floats max_s (max_of floats zero seconds)

  -- `max(0.0, nan)` is 0.0
  unfoldable pub numeric_retry_delay : Parsed Float → Float → Option Float
  unfolding clamp
  numeric_retry_delay no_number max_s = none
  numeric_retry_delay not_a_number max_s = some (clamp max_s zero)
  numeric_retry_delay (numeric seconds) max_s = some (clamp max_s seconds)

  unfoldable pub date_retry_delay : Option Float → Float → Float → Float
  unfolding clamp
  date_retry_delay none max_s default_s = default_s
  date_retry_delay (some seconds) max_s default_s = clamp max_s seconds

  unfoldable pub parse_retry_after : Parsers Float → Option Str → Float → Float → Float
  unfolding numeric_retry_delay date_retry_delay
  parse_retry_after parsers none default_s max_s = default_s
  parse_retry_after parsers (some value) default_s max_s =
      if is_empty value
      then default_s
      else elim (numeric_retry_delay (parsers.float_of value) max_s) [
        | some delay ↦ delay
        | none ↦ date_retry_delay (parsers.until value) max_s default_s
      ]

  -- `headers` is none when the error carries none; then it is what they have under `Retry-After`
  unfoldable pub retry_after_seconds : Parsers Float → Option (Option Str) → Float → Float → Float
  unfolding parse_retry_after
  retry_after_seconds parsers none default_s max_s = parse_retry_after parsers none default_s max_s
  retry_after_seconds parsers (some value) default_s max_s =
      parse_retry_after parsers value default_s max_s

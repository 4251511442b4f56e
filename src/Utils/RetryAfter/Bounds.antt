-- ===== src/Utils/RetryAfter/Bounds.antt =====
-- utils/http_retry.py: the range of the delay.
use osm_polygon_wikidata_onl.Prelude.{
  ◌≡◌, inl, inr, true, Option, none, some, Str, is_empty, Bool-cases,
}
use osm_polygon_wikidata_onl.Floats.{Floats, max_of, leq-max_left, leq-min, min_left-leq}
use osm_polygon_wikidata_onl.Utils.RetryAfter.{
  Parsed, no_number, not_a_number, numeric, Parsers, clamp, numeric_retry_delay, date_retry_delay,
  parse_retry_after,
}

module _ (floats : Floats) where
  open floats use {Float, leq, zero}

  abbrev pub InRange : Float → Float → Type 0
  InRange max_s delay = (leq zero delay ≡ true) × (leq delay max_s ≡ true)

  clamp-InRange :
      (max_s seconds : Float) → leq zero max_s ≡ true → InRange max_s (clamp floats max_s seconds)
  unfolding clamp
  clamp-InRange max_s seconds h = (
    leq-min floats max_s (max_of floats zero seconds) zero h (leq-max_left floats zero seconds),
    min_left-leq floats max_s (max_of floats zero seconds),
  )

  numeric_date-InRange :
      (parsed : Parsed Float) (until : Option Float) (default_s max_s : Float)
      → leq zero max_s ≡ true
      → InRange max_s default_s
      → InRange max_s (elim (numeric_retry_delay floats parsed max_s) as (λ _. Float) [
        | some delay ↦ delay
        | none ↦ date_retry_delay floats until max_s default_s
      ])
  unfolding numeric_retry_delay date_retry_delay
  numeric_date-InRange no_number none default_s max_s h d = d
  numeric_date-InRange no_number (some seconds) default_s max_s h d = clamp-InRange max_s seconds h
  numeric_date-InRange not_a_number until default_s max_s h d = clamp-InRange max_s zero h
  numeric_date-InRange (numeric seconds) until default_s max_s h d = clamp-InRange max_s seconds h

  -- Whatever the header holds, if it is there at all, and however its date compares with the clock, the
  -- delay is between zero and the ceiling, where the ceiling is not negative and the default is between
  -- them.
  pub parse_retry_after-InRange :
      (parsers : Parsers Float) (value : Option Str) (default_s max_s : Float)
      → leq zero max_s ≡ true
      → InRange max_s default_s
      → InRange max_s (parse_retry_after floats parsers value default_s max_s)
  unfolding parse_retry_after
  parse_retry_after-InRange parsers none default_s max_s h d = d
  parse_retry_after-InRange parsers (some value) default_s max_s h d =
      elim (Bool-cases (is_empty value)) [
        | inl e ↦ rw e d
        | inr e ↦ rw e (
            numeric_date-InRange (parsers.float_of value) (parsers.until value) default_s max_s h d)
      ]

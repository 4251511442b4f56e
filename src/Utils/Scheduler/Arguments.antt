-- ===== src/Utils/Scheduler/Arguments.antt =====
-- utils/request_scheduler.py: the checks of the constructor's arguments, and the state it starts with. A
-- negative whole number is rejected as 0 is, so the whole numbers are natural here.
use osm_polygon_wikidata_onl.Prelude.{
  ℕ, ◌≡◌, refl, true, false, ◌&&◌, ◌||◌, not, [], Option, none, some, leb, arith, Result, ok,
  value_error, guard, ◌>>◌, ◌>>=◌, >>=-eq-ok, is_some, ok_injective, ap,
}
use mathlib.Core.Path.{subst}
use osm_polygon_wikidata_onl.Floats.{Floats}
use osm_polygon_wikidata_onl.Utils.Scheduler.{Scheduler, SystemicConfig}
use osm_polygon_wikidata_onl.Utils.Scheduler.Steps.{World}
use osm_polygon_wikidata_onl.Utils.Scheduler.Steps.Rate.{IsPaced}
use osm_polygon_wikidata_onl.Utils.Scheduler.Steps.Permits.{IsBalanced}
use osm_polygon_wikidata_onl.Utils.Scheduler.Steps.Reductions.{IsSuppressing, none_yet}

-- The constructor's arguments, those of `HostHealthPolicy` among them.
pub record Arguments (Float : Type 0) : Type 0 where
  pub max_in_flight : ℕ
  pub requests_per_minute : Float
  pub max_requests_per_minute : Option Float
  pub minimum_requests_per_minute : Float
  pub successes_per_increase : ℕ
  pub host_throttle_window_s : Float
  pub host_throttle_threshold : ℕ
  pub active_host_window_s : Option Float
  pub minimum_systemic_hosts : Option ℕ
  pub systemic_host_fraction : Option Float

-- `1.0`, and the module's defaults for the settings of the proportional mode
pub record Defaults (Float : Type 0) : Type 0 where
  pub one : Float
  pub active_host_window : Float
  pub minimum_hosts : ℕ
  pub host_fraction : Float

abbrev with_default : {A : Type 0} → Option A → A → A
with_default none default = default
with_default (some value) default = value

module _ (floats : Floats) (defaults : Defaults floats.Float) where
  open floats use {Float, leq}

  -- `_require_positive`
  abbrev require_positive : Float → Result (Unit {0})
  require_positive value = guard (not (leq value floats.zero)) value_error

  unfoldable pub validate_scheduler_values : Arguments Float → Result Float
  validate_scheduler_values a =
      let maximum = with_default a.max_requests_per_minute a.requests_per_minute in
      guard (leb 1 a.max_in_flight && leb a.max_in_flight 16) value_error
      >> require_positive a.requests_per_minute
      >> guard (leq a.requests_per_minute maximum) value_error
      >> require_positive a.minimum_requests_per_minute
      >> guard (leq a.minimum_requests_per_minute a.requests_per_minute) value_error
      >> guard (leb 1 a.successes_per_increase) value_error
      >> require_positive a.host_throttle_window_s
      >> guard (leb 1 a.host_throttle_threshold) value_error
      >> ok maximum

  unfoldable pub resolve_systemic_config : Arguments Float → Result (SystemicConfig Float)
  resolve_systemic_config a =
      let window = with_default a.active_host_window_s defaults.active_host_window in
      let hosts = with_default a.minimum_systemic_hosts defaults.minimum_hosts in
      let fraction = with_default a.systemic_host_fraction defaults.host_fraction in
      require_positive window
      >> guard (leb 1 hosts) value_error
      >> guard (not (leq fraction floats.zero) && leq fraction defaults.one) value_error
      >> ok (record {
        proportional_mode =
            is_some a.active_host_window_s
            || is_some a.minimum_systemic_hosts
            || is_some a.systemic_host_fraction;
        active_host_window_s = window;
        minimum_systemic_hosts = hosts;
        systemic_host_fraction = fraction;
      })

  -- the state of a new scheduler
  unfoldable pub started : Arguments Float → Float → SystemicConfig Float → Scheduler Float
  started a maximum systemic = record {
    systemic = systemic;
    limits = record {
      max_in_flight = a.max_in_flight;
      max_requests_per_minute = maximum;
      minimum_requests_per_minute = a.minimum_requests_per_minute;
      successes_per_increase = a.successes_per_increase;
      host_throttle_window_s = a.host_throttle_window_s;
      host_throttle_threshold = a.host_throttle_threshold;
    };
    rate = record {
      current_requests_per_minute = a.requests_per_minute;
      successful_requests = 0;
      next_request_at = floats.zero;
      cooldown_until = floats.zero;
      in_flight = 0;
      last_systemic_reduction_at = none;
    };
    history = record {
      systemic_host_events = [];
      global_throttle_times = [];
      active_host_timestamps = [];
    };
    permits = a.max_in_flight;
    host_states = [];
    request_started_at = [];
  }

  -- `__init__`
  unfoldable pub new_scheduler : Arguments Float → Result (Scheduler Float)
  unfolding validate_scheduler_values resolve_systemic_config started
  new_scheduler a = validate_scheduler_values a >>= λ maximum.
      resolve_systemic_config a >>= λ systemic. ok (started a maximum systemic)

  abbrev pub alone : Scheduler Float → World Float
  alone s = record { scheduler = s; waiting = 0; leaving = 0; reductions = [] }

  -- What a new scheduler starts with, when its arguments are accepted.
  pub record IsSound (s : Scheduler Float) : Type 0 where
    pub paced : IsPaced floats s.limits s.rate
    pub balanced : IsBalanced floats (alone s)
    pub suppressing : IsSuppressing floats (alone s)

  validated :
      (a : Arguments Float) (maximum : Float)
      → validate_scheduler_values a ≡ ok maximum
      → (leq a.minimum_requests_per_minute floats.zero ≡ false)
        × (leq a.minimum_requests_per_minute a.requests_per_minute ≡ true)
        × (leq a.requests_per_minute maximum ≡ true)
  unfolding validate_scheduler_values
  validated a maximum h =
      let limit = with_default a.max_requests_per_minute a.requests_per_minute in
      ground (
        arith,
        h,
        ok_injective {a = limit} {b = maximum},
        (λ (e : limit ≡ maximum). ap (leq a.requests_per_minute) e),
      )

  -- A scheduler whose arguments are accepted starts with its rate between positive bounds, all its permits
  -- free and no reduction recorded.
  pub new_scheduler-IsSound :
      (a : Arguments Float) (s : Scheduler Float) → new_scheduler a ≡ ok s → IsSound s
  unfolding new_scheduler started
  new_scheduler-IsSound a s h =
      let (maximum, valid, more) =
        >>=-eq-ok (validate_scheduler_values a)
          (λ m. resolve_systemic_config a >>= λ systemic. ok (started a m systemic)) h in
      let (systemic, resolved, same) =
        >>=-eq-ok (resolve_systemic_config a) (λ c. ok (started a maximum c)) more in
      let (positive, above, below) = validated a maximum valid in
      subst IsSound (ok_injective same) (record {
        paced = record { positive = positive; above = above; below = below };
        balanced = record { balance = omega arith };
        suppressing = record { last_eq = refl; spaced = none_yet };
      })

-- ===== src/Examples/Requests.antt =====
-- A scheduler of two permits, and what its threads do.
use osm_polygon_wikidata_onl.Prelude.{
  ℕ, ◌≤◌, ◌≡◌, refl, true, false, [], ◌∷◌, Option, none, some, Str, codes, ok, arith, leb, ◌+◌,
}
use osm_polygon_wikidata_onl.Floats.{max_of}
use osm_polygon_wikidata_onl.Examples.Clock.{seconds}
use osm_polygon_wikidata_onl.Utils.Scheduler.{
  Scheduler, host_state, throttle_host, reserve_slot, global_ready_at, apply_global_throttle,
}
use osm_polygon_wikidata_onl.Utils.Scheduler.Arguments.{
  Arguments, Defaults, new_scheduler, new_scheduler-IsSound,
}
use osm_polygon_wikidata_onl.Utils.Scheduler.Pacing.{Turn, Departure, pace_host, pace_host-cooled}
use osm_polygon_wikidata_onl.Utils.Scheduler.Steps.{
  World, Reach, here, next, acquires, starts, throttles_host, decides, throttles, takes_slot,
  update, decide, acquire, start,
}
use osm_polygon_wikidata_onl.Utils.Scheduler.Steps.Rate.{Paced, Reach-Paced}
use osm_polygon_wikidata_onl.Utils.Scheduler.Steps.Permits.{IsBalanced, in_flight_le}
use osm_polygon_wikidata_onl.Utils.Scheduler.Steps.Reductions.{IsSuppressing, Reach-IsSuppressing}
use osm_polygon_wikidata_onl.Utils.Scheduler.Steps.Cooldown.{IsLater, Reach-IsLater}
use osm_polygon_wikidata_onl.Utils.Scheduler.Steps.Slots.{slots_spaced}

abbrev arguments : Arguments ℕ
arguments = record {
  max_in_flight = 2;
  requests_per_minute = 12;
  max_requests_per_minute = some 30;
  minimum_requests_per_minute = 6;
  successes_per_increase = 2;
  host_throttle_window_s = 10;
  host_throttle_threshold = 1;
  active_host_window_s = none;
  minimum_systemic_hosts = none;
  systemic_host_fraction = none;
}

abbrev defaults : Defaults ℕ
defaults = record { one = 1; active_host_window = 60; minimum_hosts = 5; host_fraction = 1 }

abbrev fresh : Scheduler ℕ
fresh = record {
  systemic = record {
    proportional_mode = false;
    active_host_window_s = 60;
    minimum_systemic_hosts = 5;
    systemic_host_fraction = 1;
  };
  limits = record {
    max_in_flight = 2;
    max_requests_per_minute = 30;
    minimum_requests_per_minute = 6;
    successes_per_increase = 2;
    host_throttle_window_s = 10;
    host_throttle_threshold = 1;
  };
  rate = record {
    current_requests_per_minute = 12;
    successful_requests = 0;
    next_request_at = 0;
    cooldown_until = 0;
    in_flight = 0;
    last_systemic_reduction_at = none;
  };
  history = record {
    systemic_host_events = [];
    global_throttle_times = [];
    active_host_timestamps = [];
  };
  permits = 2;
  host_states = [];
  request_started_at = [];
}

accepted : new_scheduler seconds defaults arguments ≡ ok fresh
unfolding new_scheduler
accepted = refl

abbrev idle : World ℕ
idle = record { scheduler = fresh; waiting = 0; leaving = 0; reductions = [] }

abbrev wiki : Str
wiki = codes "en.wikipedia.org"

-- a thread takes a permit and a slot and begins its request; then a host throttles another one, and the
-- rate is reduced
abbrev busy : World ℕ
busy = update seconds 60 (apply_global_throttle seconds 5 101) (
    decide seconds 60 wiki 100 100 (
      update seconds 60 (throttle_host seconds 60 wiki 5 100) (
        start seconds 60 20
          (update seconds 60 (reserve_slot seconds 10) (acquire seconds 60 idle)))))

run_of_one : Reach seconds 60 idle busy
unfolding acquire start
run_of_one =
    next
      (next
        (next
          (next (next (next here (acquires (omega arith))) (takes_slot 10 (omega arith)))
            (starts 20 (omega arith)))
          (throttles_host wiki 5 100))
        (decides wiki 100 100))
      (throttles 5 101)

balanced : IsBalanced seconds idle
balanced = record { balance = omega arith }

paced : Paced seconds fresh
paced = record { positive = refl; above = refl; below = refl }

suppressing : IsSuppressing seconds idle
suppressing = (new_scheduler-IsSound seconds defaults arguments fresh accepted).suppressing

in_flight_le_example : busy.scheduler.rate.in_flight ≤ busy.scheduler.limits.max_in_flight
in_flight_le_example = in_flight_le seconds 60 idle busy balanced run_of_one

Reach-Paced_example : Paced seconds busy.scheduler
Reach-Paced_example = Reach-Paced seconds 60 {w = idle} {v = busy} paced run_of_one

Reach-IsSuppressing_example : IsSuppressing seconds busy
Reach-IsSuppressing_example = Reach-IsSuppressing seconds 60 idle busy suppressing run_of_one

Reach-IsLater_example : IsLater seconds idle.scheduler busy.scheduler
Reach-IsLater_example = Reach-IsLater seconds 60 idle busy run_of_one

abbrev reserved : World ℕ
reserved = record idle { scheduler = reserve_slot seconds 10 fresh }

-- the second thread, after the first one's slot and a throttle
abbrev deferred : World ℕ
deferred = update seconds 60 (apply_global_throttle seconds 5 11) reserved

then_throttled : Reach seconds 60 reserved deferred
then_throttled = next here (throttles 5 11)

slots_spaced_example :
    leb (global_ready_at seconds 10 fresh + 5) (global_ready_at seconds 12 deferred.scheduler)
    ≡ true
slots_spaced_example = slots_spaced seconds 60 idle deferred 10 12 paced then_throttled

-- The host is throttled while the first turn sleeps, so the loop takes a second one.
abbrev interrupted_turn : Turn ℕ
interrupted_turn = record {
  before = λ s. s;
  reserved_at = 30;
  between = λ s. s;
  measured_at = 29;
  woken_at = 31;
  meanwhile = throttle_host seconds 60 wiki 5 30;
}

abbrev last_turn : Turn ℕ
last_turn = record {
  before = λ s. s;
  reserved_at = 32;
  between = throttle_host seconds 60 wiki 5 32;
  measured_at = 32;
  woken_at = 40;
  meanwhile = λ s. fresh;
}

abbrev throttled : Scheduler ℕ
throttled = throttle_host seconds 60 wiki 5 30 fresh

abbrev paced_host : Option (Departure ℕ)
paced_host = pace_host seconds wiki 1 20 (interrupted_turn ∷ last_turn ∷ []) throttled

two_turns : (out : Departure ℕ) × (paced_host ≡ some out)
unfolding pace_host throttle_host max_of
two_turns = (_, refl)

pace_host-cooled_example :
    leb (two_turns.0).last_seen.cooldown_until (two_turns.0).returned_at ≡ true
pace_host-cooled_example =
    pace_host-cooled seconds wiki 1 20 (interrupted_turn ∷ last_turn ∷ []) throttled two_turns.0
      two_turns.1

settles :
    (s : Scheduler ℕ)
    → leb (host_state seconds wiki (last_turn.meanwhile s)).cooldown_until last_turn.woken_at ≡ true
unfolding host_state
settles s = refl

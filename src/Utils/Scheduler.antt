-- ===== src/Utils/Scheduler.antt =====
-- utils/request_scheduler.py: the state of `AdaptiveRequestScheduler` and its critical sections. Each
-- `with lock` block is one function; the clock's reading inside it is an argument.
pub mod Arguments
pub mod Pacing
pub mod Snapshot
pub mod Steps
use osm_polygon_wikidata_onl.Prelude.{
  ℕ, zero, suc, ◌+◌, ◌-◌, ◌≡◌, Bool, true, false, ◌&&◌, ◌||◌, not, List, [], ◌∷◌, ◌++◌, Option,
  none, some, if◌then◌else◌, ltb, leb, nat_beq, length, filter, Str, str_eq, Dict, get, put, max,
  min,
}
use osm_polygon_wikidata_onl.Floats.{Floats, max_of, min_of, lt}

pub record HostState (Float : Type 0) : Type 0 where
  pub cooldown_until : Float
  pub next_request_at : Float
  pub recent_throttles : List Float

pub record RateLimits (Float : Type 0) : Type 0 where
  pub max_in_flight : ℕ
  pub max_requests_per_minute : Float
  pub minimum_requests_per_minute : Float
  pub successes_per_increase : ℕ
  pub host_throttle_window_s : Float
  pub host_throttle_threshold : ℕ

pub record GlobalRateState (Float : Type 0) : Type 0 where
  pub current_requests_per_minute : Float
  pub successful_requests : ℕ
  pub next_request_at : Float
  pub cooldown_until : Float
  pub in_flight : ℕ
  -- none is minus infinity
  pub last_systemic_reduction_at : Option Float

pub record ThrottleHistory (Float : Type 0) : Type 0 where
  pub systemic_host_events : Dict Str Float
  pub global_throttle_times : List Float
  pub active_host_timestamps : Dict Str Float

pub record SystemicConfig (Float : Type 0) : Type 0 where
  pub proportional_mode : Bool
  pub active_host_window_s : Float
  pub minimum_systemic_hosts : ℕ
  pub systemic_host_fraction : Float

-- `permits` is what the bounded semaphore has left.
pub record Scheduler (Float : Type 0) : Type 0 where
  pub systemic : SystemicConfig Float
  pub limits : RateLimits Float
  pub rate : GlobalRateState Float
  pub history : ThrottleHistory Float
  pub permits : ℕ
  pub host_states : Dict Str (HostState Float)
  pub request_started_at : List Float

module _ (floats : Floats) where
  open floats use {Float, leq, add, sub, double, half, grow, interval, ceil_mul}

  -- `ROLLING_WINDOW_S` is an argument of the pruning: 60 seconds
  unfoldable pub prune_recent : Float → List Float → Float → List Float
  prune_recent window [] now = []
  prune_recent window (t ∷ times) now =
      let rest = prune_recent window times now in
      if lt floats t (sub now window) then rest else t ∷ times

  unfoldable pub record_recent : Float → List Float → Float → List Float
  unfolding prune_recent
  record_recent window times now = prune_recent window (times ++ (now ∷ [])) now

  -- the new state of one host, when it has none
  abbrev pub new_host : HostState Float
  new_host = record {
    cooldown_until = floats.zero;
    next_request_at = floats.zero;
    recent_throttles = [];
  }

  abbrev pub known_or_new : Option (HostState Float) → HostState Float
  known_or_new none = new_host
  known_or_new (some h) = h

  -- `_host_state`
  unfoldable pub host_state : Str → Scheduler Float → HostState Float
  host_state host s = known_or_new (get host s.host_states)

  unfoldable pub set_host : Str → HostState Float → Scheduler Float → Scheduler Float
  set_host host h s = record s { host_states = put host h s.host_states }

  -- `max(0.0, delay)`
  abbrev pub at_least_zero : Float → Float
  at_least_zero d = max_of floats floats.zero d

  unfoldable pub defer : Float → Float → Scheduler Float → Scheduler Float
  defer delay now s = record s {
    rate = record (s.rate) {
      cooldown_until = max_of floats s.rate.cooldown_until (add now (at_least_zero delay));
    };
  }

  -- the first critical section of `pace_host`
  unfoldable pub mark_active : Str → Float → Scheduler Float → Scheduler Float
  mark_active host now s = record s {
    history = record (s.history) {
      active_host_timestamps = put host now s.history.active_host_timestamps;
    };
  }

  -- the slot that `pace_host` reserves: when the request may start, and the next one's earliest time
  unfoldable pub host_ready_at : HostState Float → Float → Float
  host_ready_at h now = max_of floats (max_of floats now h.cooldown_until) h.next_request_at

  unfoldable pub reserve_host : Str → Float → Float → Scheduler Float → Scheduler Float
  unfolding host_state set_host host_ready_at
  reserve_host host min_interval now s =
      let h = host_state host s in
      set_host host
        (record h { next_request_at = add (host_ready_at h now) (at_least_zero min_interval) }) s

  unfoldable pub report_success : Scheduler Float → Scheduler Float
  report_success s =
      let r = s.rate in
      if leq s.limits.max_requests_per_minute r.current_requests_per_minute
      then record s { rate = record r { successful_requests = 0 } }
      else if ltb (r.successful_requests + 1) s.limits.successes_per_increase
      then record s { rate = record r { successful_requests = r.successful_requests + 1 } }
      else record s {
        rate = record r {
          successful_requests = 0;
          current_requests_per_minute =
              min_of floats s.limits.max_requests_per_minute (grow r.current_requests_per_minute);
        };
      }

  -- `_apply_global_throttle_locked`; `report_throttled` is this section alone
  unfoldable pub apply_global_throttle : Float → Float → Scheduler Float → Scheduler Float
  apply_global_throttle delay now s = record s {
    rate = record (s.rate) {
      cooldown_until = max_of floats s.rate.cooldown_until (add now (at_least_zero delay));
      current_requests_per_minute =
          max_of floats s.limits.minimum_requests_per_minute
            (half s.rate.current_requests_per_minute);
      successful_requests = 0;
    };
  }

  -- the host's part of `report_host_throttled`
  unfoldable pub throttle_host : Float → Str → Float → Float → Scheduler Float → Scheduler Float
  unfolding host_state set_host record_recent
  throttle_host window host delay now s =
      let h = host_state host s in
      set_host host
        (record h {
          cooldown_until = max_of floats h.cooldown_until (add now (at_least_zero delay));
          recent_throttles = record_recent window h.recent_throttles now;
        })
        s

  -- the entries of a dictionary of times that are younger than a window
  unfoldable pub younger : Float → Float → Dict Str Float → Dict Str Float
  younger window now d = filter (λ (e : Str × Float). lt floats (sub now window) e.1) d

  -- `_active_host_count`, which also drops what is too old; the clock is read again
  unfoldable pub prune_active : Float → Scheduler Float → Scheduler Float
  unfolding younger
  prune_active now s = record s {
    history = record (s.history) {
      active_host_timestamps =
          younger s.systemic.active_host_window_s now s.history.active_host_timestamps;
    };
  }

  abbrev pub threshold_of : ℕ → Scheduler Float → ℕ
  threshold_of active s =
      if nat_beq active 0
      then s.limits.host_throttle_threshold
      else min active (
          max s.systemic.minimum_systemic_hosts (ceil_mul active s.systemic.systemic_host_fraction))

  -- `_systemic_threshold`
  unfoldable pub systemic_threshold : Float → Scheduler Float → Scheduler Float × ℕ
  unfolding prune_active
  systemic_threshold now s =
      if not s.systemic.proportional_mode
      then (s, s.limits.host_throttle_threshold)
      else let pruned = prune_active now s in
        (pruned, threshold_of (length pruned.history.active_host_timestamps) pruned)

  -- whether the last reduction lies more than a window back
  abbrev pub window_passed : Option Float → Float → Float → Bool
  window_passed none now window = true
  window_passed (some last) now window = lt floats window (sub now last)

  -- `_record_systemic_host_event`: one critical section that decides and remembers the decision
  unfoldable pub record_systemic_host_event :
      Float → Str → Float → Float → Scheduler Float → Scheduler Float × Bool
  unfolding record_recent younger systemic_threshold
  record_systemic_host_event window host now clock s =
      let events =
        put host now (younger s.limits.host_throttle_window_s now s.history.systemic_host_events) in
      let recorded = record s {
        history = record (s.history) {
          global_throttle_times = record_recent window s.history.global_throttle_times now;
          systemic_host_events = events;
        };
      } in
      let (counted, threshold) = systemic_threshold clock recorded in
      if leb threshold (length events)
        && window_passed counted.rate.last_systemic_reduction_at now s.limits.host_throttle_window_s
      then (
        record counted { rate = record (counted.rate) { last_systemic_reduction_at = some now } },
        true,
      )
      else (counted, false)

  -- `report_host_throttled`, when no other thread comes between its critical sections; the three
  -- readings are those of its own clock call, of the active count and of the global backoff
  unfoldable pub report_host_throttled :
      Float → Str → Float → Float → Float → Float → Scheduler Float → Scheduler Float
  unfolding throttle_host record_systemic_host_event apply_global_throttle
  report_host_throttled window host delay now clock later s =
      let (decided, systemic) =
        record_systemic_host_event window host now clock (throttle_host window host delay now s) in
      if systemic then apply_global_throttle delay later decided else decided

  -- the slot that `run` reserves under the lock
  unfoldable pub global_ready_at : Float → Scheduler Float → Float
  global_ready_at now s =
      max_of floats (max_of floats now s.rate.next_request_at) s.rate.cooldown_until

  unfoldable pub reserve_slot : Float → Scheduler Float → Scheduler Float
  unfolding global_ready_at
  reserve_slot now s = record s {
    rate = record (s.rate) {
      next_request_at = add (global_ready_at now s) (interval s.rate.current_requests_per_minute);
    };
  }

  unfoldable pub begin_request : Float → Float → Scheduler Float → Scheduler Float
  unfolding record_recent
  begin_request window now s = record s {
    request_started_at = record_recent window s.request_started_at now;
    rate = record (s.rate) { in_flight = s.rate.in_flight + 1 };
  }

  unfoldable pub end_request : Scheduler Float → Scheduler Float
  end_request s = record s { rate = record (s.rate) { in_flight = s.rate.in_flight - 1 } }

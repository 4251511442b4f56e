-- ===== src/Utils/Scheduler/Snapshot.antt =====
-- utils/request_scheduler.py: `snapshot` and its metrics, which also drop what is older than the rolling
-- window.
use osm_polygon_wikidata_onl.Prelude.{
  ℕ, ◌+◌, ◌≡◌, refl, arith, [], ◌∷◌, Option, none, some, if◌then◌else◌, length, is_empty, Str,
  str_eq, Dict, get,
}
use osm_polygon_wikidata_onl.Floats.{Floats, max_of, lt}
use osm_polygon_wikidata_onl.Utils.Scheduler.{
  Scheduler, HostState, prune_recent, host_state, host_ready_at, known_or_new,
}

pub record RequestSchedulerSnapshot (Float : Type 0) : Type 0 where
  pub requests_last_minute : ℕ
  pub current_requests_per_minute : Float
  pub maximum_requests_per_minute : Float
  pub utilization_percent : Float
  pub in_flight : ℕ
  pub max_in_flight : ℕ
  pub throttle_events : ℕ
  pub throttled_hosts_last_minute : ℕ
  pub cooling_down_hosts : ℕ
  pub cooldown_remaining_s : Float

module _ (floats : Floats) where
  open floats use {Float, sub, percent}

  -- what `_global_snapshot_metrics` leaves; its five results are read from it
  unfoldable pub prune_global : Float → Float → Scheduler Float → Scheduler Float
  unfolding prune_recent
  prune_global window now s = record s {
    request_started_at = prune_recent floats window s.request_started_at now;
    history = record (s.history) {
      global_throttle_times = prune_recent floats window s.history.global_throttle_times now;
    };
  }

  unfoldable pub pruned_host : Float → Float → HostState Float → HostState Float
  unfolding prune_recent
  pruned_host window now h = record h {
    recent_throttles = prune_recent floats window h.recent_throttles now;
  }

  -- the loop of `_host_snapshot_metrics`: the hosts it leaves, and its two counts
  unfoldable pub host_snapshot_metrics :
      Float → Float → Dict Str (HostState Float) → Dict Str (HostState Float) × ℕ × ℕ
  unfolding pruned_host
  host_snapshot_metrics window now [] = ([], 0, 0)
  host_snapshot_metrics window now ((host, h) ∷ hosts) =
      let pruned = pruned_host window now h in
      let (rest, throttled, cooling) = host_snapshot_metrics window now hosts in
      (
        (host, pruned) ∷ rest,
        if is_empty pruned.recent_throttles then throttled else throttled + 1,
        if lt floats now pruned.cooldown_until then cooling + 1 else cooling,
      )

  -- `snapshot`, when no other thread comes between its critical sections
  unfoldable pub snapshot :
      Float → Float → Scheduler Float → Scheduler Float × RequestSchedulerSnapshot Float
  unfolding prune_global host_snapshot_metrics
  snapshot window now s =
      let pruned = prune_global window now s in
      let (hosts, throttled, cooling) = host_snapshot_metrics window now pruned.host_states in
      let requests = length pruned.request_started_at in
      (
        record pruned { host_states = hosts },
        record {
          requests_last_minute = requests;
          current_requests_per_minute = s.rate.current_requests_per_minute;
          maximum_requests_per_minute = s.limits.max_requests_per_minute;
          utilization_percent = percent requests s.limits.max_requests_per_minute;
          in_flight = s.rate.in_flight;
          max_in_flight = s.limits.max_in_flight;
          throttle_events = length pruned.history.global_throttle_times;
          throttled_hosts_last_minute = throttled;
          cooling_down_hosts = cooling;
          cooldown_remaining_s = max_of floats floats.zero (sub s.rate.cooldown_until now);
        },
      )

  abbrev pruned_found : Float → Float → Option (HostState Float) → Option (HostState Float)
  pruned_found window now none = none
  pruned_found window now (some h) = some (pruned_host window now h)

  get-metrics :
      (window now : Float) (host : Str) (hosts : Dict Str (HostState Float))
      → get host (host_snapshot_metrics window now hosts).0
        ≡ pruned_found window now (get host hosts)
  unfolding host_snapshot_metrics
  get-metrics window now host [] = refl
  get-metrics window now host ((name, h) ∷ hosts) =
      ground (arith, get-metrics window now host hosts)

  ready-pruned :
      (window now later : Float) (found : Option (HostState Float))
      → host_ready_at floats (known_or_new floats (pruned_found window now found)) later
        ≡ host_ready_at floats (known_or_new floats found) later
  unfolding host_ready_at pruned_host
  ready-pruned window now later none = refl
  ready-pruned window now later (some h) = refl

  -- A snapshot does not change when the next request to a host may start, nor the global rate, its slot
  -- and its cooldown, nor the permits.
  pub snapshot-ready :
      (window now later : Float) (host : Str) (s : Scheduler Float)
      → (host_ready_at floats (host_state floats host (snapshot window now s).0) later
          ≡ host_ready_at floats (host_state floats host s) later)
        × ((snapshot window now s).0.rate ≡ s.rate)
        × ((snapshot window now s).0.permits ≡ s.permits)
  unfolding snapshot prune_global host_state
  snapshot-ready window now later host s = (
    rw (get-metrics window now host s.host_states)
        (ready-pruned window now later (get host s.host_states)),
    refl,
    refl,
  )

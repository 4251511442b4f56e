-- ===== src/Utils/Scheduler/Steps/Permits.antt =====
-- The concurrency bound of `run`: permits are neither lost nor made.
use osm_polygon_wikidata_onl.Prelude.{◌+◌, ◌≤◌, ◌≡◌, arith, Str}
use osm_polygon_wikidata_onl.Floats.{Floats}
use osm_polygon_wikidata_onl.Utils.Scheduler.{
  defer, mark_active, reserve_host, report_success, apply_global_throttle, throttle_host,
  record_systemic_host_event, reserve_slot, begin_request, end_request,
}
use osm_polygon_wikidata_onl.Utils.Scheduler.Steps.{
  World, decide, acquire, start, finish, release, Step, defers, marks, reserves, succeeds,
  throttles, throttles_host, decides, acquires, takes_slot, starts, finishes, releases, Reach, here,
  next,
}

module _ (floats : Floats) where
  open floats use {Float}

  -- Every permit is free, or held by a thread that waits, runs its operation or leaves.
  pub record IsBalanced (w : World Float) : Type 0 where
    pub balance :
        w.scheduler.permits + w.waiting + w.scheduler.rate.in_flight + w.leaving
        ≡ w.scheduler.limits.max_in_flight

  report_success-IsBalanced :
      (w : World Float)
      → IsBalanced w
      → IsBalanced (record w { scheduler = report_success floats w.scheduler })
  unfolding report_success
  report_success-IsBalanced w b = record { balance = ground (arith, b.balance) }

  decide-IsBalanced :
      (window : Float) (host : Str) (now clock : Float) (w : World Float)
      → IsBalanced w
      → IsBalanced (decide floats window host now clock w)
  unfolding decide record_systemic_host_event
  decide-IsBalanced window host now clock w b = record { balance = ground (arith, b.balance) }

  pub Step-IsBalanced :
      (window : Float) {w v : World Float} → Step floats window w v → IsBalanced w → IsBalanced v
  unfolding defer mark_active reserve_host throttle_host reserve_slot begin_request end_request
      acquire start finish release apply_global_throttle
  Step-IsBalanced window (defers delay now) b = record { balance = b.balance }
  Step-IsBalanced window (marks host now) b = record { balance = b.balance }
  Step-IsBalanced window (reserves host gap now) b = record { balance = b.balance }
  Step-IsBalanced window {w} succeeds b = report_success-IsBalanced w b
  Step-IsBalanced window (throttles delay now) b = record { balance = b.balance }
  Step-IsBalanced window (throttles_host host delay now) b = record { balance = b.balance }
  Step-IsBalanced window {w} (decides host now clock) b =
      decide-IsBalanced window host now clock w b
  Step-IsBalanced window (acquires h) b = record { balance = omega (arith, h, b.balance) }
  Step-IsBalanced window (takes_slot now h) b = record { balance = b.balance }
  Step-IsBalanced window (starts now h) b = record { balance = omega (arith, h, b.balance) }
  Step-IsBalanced window (finishes h) b = record { balance = omega (arith, h, b.balance) }
  Step-IsBalanced window (releases h) b = record { balance = omega (arith, h, b.balance) }

  pub Reach-IsBalanced :
      (window : Float) {w v : World Float} → IsBalanced w → Reach floats window w v → IsBalanced v
  Reach-IsBalanced window b here = b
  Reach-IsBalanced window b (next r st) = Step-IsBalanced window st (Reach-IsBalanced window b r)

  -- From a world whose permits are balanced, however the threads interleave, never more requests run at
  -- once than the scheduler's bound.
  pub in_flight_le :
      (window : Float) (w v : World Float)
      → IsBalanced w
      → Reach floats window w v
      → v.scheduler.rate.in_flight ≤ v.scheduler.limits.max_in_flight
  in_flight_le window w v b r = omega (arith, (Reach-IsBalanced window b r).balance)

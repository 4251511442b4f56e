-- ===== src/Utils/Scheduler/Steps/Rate.antt =====
-- The request rate stays between its bounds.
use osm_polygon_wikidata_onl.Prelude.{◌≡◌, true, false, arith, Str}
use osm_polygon_wikidata_onl.Floats.{
  Floats, max_of, min_of, leq-max_left, max-leq, min_left-leq, leq-min,
}
use osm_polygon_wikidata_onl.Utils.Scheduler.{
  Scheduler, RateLimits, GlobalRateState, defer, mark_active, reserve_host, report_success,
  apply_global_throttle, throttle_host, record_systemic_host_event, reserve_slot, begin_request,
  end_request,
}
use osm_polygon_wikidata_onl.Utils.Scheduler.Steps.{
  World, decide, acquire, start, finish, release, Step, defers, marks, reserves, succeeds,
  throttles, throttles_host, decides, acquires, takes_slot, starts, finishes, releases, Reach, here,
  next,
}

module _ (floats : Floats) where
  open floats use {Float, leq, half, grow, half_leq, grow_leq, leq_trans, leq_total}

  -- The rate lies between positive bounds.
  pub record IsPaced (limits : RateLimits Float) (rate : GlobalRateState Float) : Type 0 where
    pub positive : leq limits.minimum_requests_per_minute floats.zero ≡ false
    pub above : leq limits.minimum_requests_per_minute rate.current_requests_per_minute ≡ true
    pub below : leq rate.current_requests_per_minute limits.max_requests_per_minute ≡ true

  module _ (limits : RateLimits Float) (rate : GlobalRateState Float)
      (p : IsPaced limits rate) where
    rate_nonneg : leq floats.zero rate.current_requests_per_minute ≡ true
    rate_nonneg = ground (
      arith,
      p.positive,
      p.above,
      leq_total limits.minimum_requests_per_minute floats.zero,
      leq_trans floats.zero limits.minimum_requests_per_minute rate.current_requests_per_minute,
    )

    pub rate_positive : leq rate.current_requests_per_minute floats.zero ≡ false
    rate_positive = ground (
      arith,
      p.positive,
      p.above,
      leq_trans limits.minimum_requests_per_minute rate.current_requests_per_minute floats.zero,
    )

    halved-IsPaced : IsPaced limits (record rate {
      current_requests_per_minute =
          max_of floats limits.minimum_requests_per_minute (half rate.current_requests_per_minute);
    })
    halved-IsPaced = record {
      positive = p.positive;
      above = leq-max_left floats _ _;
      below =
          max-leq floats _ _ _ (leq_trans _ _ _ p.above p.below)
            (leq_trans _ _ _ (half_leq rate.current_requests_per_minute rate_nonneg) p.below);
    }

    grown-IsPaced : IsPaced limits (record rate {
      current_requests_per_minute =
          min_of floats limits.max_requests_per_minute (grow rate.current_requests_per_minute);
    })
    grown-IsPaced = record {
      positive = p.positive;
      above =
          leq-min floats _ _ _ (leq_trans _ _ _ p.above p.below)
            (leq_trans _ _ _ p.above (grow_leq rate.current_requests_per_minute rate_nonneg));
      below = min_left-leq floats _ _;
    }

  abbrev pub Paced : Scheduler Float → Type 0
  Paced s = IsPaced s.limits s.rate

  pub report_success-Paced : (s : Scheduler Float) → Paced s → Paced (report_success floats s)
  unfolding report_success
  report_success-Paced s p = ground (arith, grown-IsPaced s.limits s.rate p)

  pub apply_global_throttle-Paced :
      (delay now : Float) (s : Scheduler Float)
      → Paced s
      → Paced (apply_global_throttle floats delay now s)
  unfolding apply_global_throttle
  apply_global_throttle-Paced delay now s p = ground (arith, halved-IsPaced s.limits s.rate p)

  pub record_systemic_host_event-Paced :
      (window : Float) (host : Str) (now clock : Float) (s : Scheduler Float)
      → Paced s
      → Paced (record_systemic_host_event floats window host now clock s).0
  unfolding record_systemic_host_event
  record_systemic_host_event-Paced window host now clock s p = ground arith

  -- Every critical section keeps the rate between its bounds.
  pub Step-Paced :
      (window : Float) {w v : World Float}
      → Step floats window w v
      → Paced w.scheduler
      → Paced v.scheduler
  unfolding defer mark_active reserve_host throttle_host reserve_slot begin_request end_request
      decide acquire start finish release
  Step-Paced window (defers delay now) p = ground arith
  Step-Paced window (marks host now) p = p
  Step-Paced window (reserves host gap now) p = p
  Step-Paced window {w} succeeds p = report_success-Paced w.scheduler p
  Step-Paced window {w} (throttles delay now) p =
      apply_global_throttle-Paced delay now w.scheduler p
  Step-Paced window (throttles_host host delay now) p = p
  Step-Paced window {w} (decides host now clock) p =
      record_systemic_host_event-Paced window host now clock w.scheduler p
  Step-Paced window (acquires h) p = p
  Step-Paced window (takes_slot now h) p = ground arith
  Step-Paced window (starts now h) p = ground arith
  Step-Paced window (finishes h) p = ground arith
  Step-Paced window (releases h) p = p

  -- However the threads interleave, the rate never leaves its bounds.
  pub Reach-Paced :
      (window : Float) {w v : World Float}
      → Paced w.scheduler
      → Reach floats window w v
      → Paced v.scheduler
  Reach-Paced window p here = p
  Reach-Paced window p (next r st) = Step-Paced window st (Reach-Paced window p r)

-- ===== src/Utils/Scheduler/Steps/Slots.antt =====
-- `run` spaces the starts of requests by the interval of the rate.
use osm_polygon_wikidata_onl.Prelude.{◌≡◌, true, arith, Str}
use osm_polygon_wikidata_onl.Floats.{Floats, leq-max_left, leq-max_right, leq_refl, leq-add}
use osm_polygon_wikidata_onl.Utils.Scheduler.{
  Scheduler, defer, mark_active, reserve_host, report_success, apply_global_throttle, throttle_host,
  record_systemic_host_event, reserve_slot, begin_request, end_request, systemic_threshold,
  prune_active, global_ready_at,
}
use osm_polygon_wikidata_onl.Utils.Scheduler.Steps.{
  World, decide, acquire, start, finish, release, Step, defers, marks, reserves, succeeds,
  throttles, throttles_host, decides, acquires, takes_slot, starts, finishes, releases, Reach, here,
  next,
}
use osm_polygon_wikidata_onl.Utils.Scheduler.Steps.Rate.{Paced, rate_positive, Reach-Paced}

module _ (floats : Floats) where
  open floats use {Float, leq, add, interval, leq_trans, leq_total, interval_nonneg}

  -- the time from which the next slot may start
  abbrev reserved : World Float → Float
  reserved w = w.scheduler.rate.next_request_at

  report_success-reserved :
      (s : Scheduler Float)
      → leq s.rate.next_request_at (report_success floats s).rate.next_request_at ≡ true
  unfolding report_success
  report_success-reserved s = ground (arith, leq_refl floats s.rate.next_request_at)

  event-reserved :
      (window : Float) (host : Str) (now clock : Float) (s : Scheduler Float)
      → leq s.rate.next_request_at
          (record_systemic_host_event floats window host now clock s).0.rate.next_request_at
        ≡ true
  unfolding record_systemic_host_event systemic_threshold prune_active
  event-reserved window host now clock s = ground (arith, leq_refl floats s.rate.next_request_at)

  slot-reserved :
      (now : Float) (s : Scheduler Float)
      → Paced floats s
      → leq s.rate.next_request_at (reserve_slot floats now s).rate.next_request_at ≡ true
  unfolding reserve_slot global_ready_at
  slot-reserved now s p =
      leq_trans _ _ _
        (leq_trans _ _ _ (leq-max_right floats now s.rate.next_request_at)
          (leq-max_left floats _ s.rate.cooldown_until))
        (leq-add floats _ _ (interval_nonneg _ (rate_positive floats s.limits s.rate p)))

  -- No critical section takes a reserved slot back.
  Step-reserved :
      (window : Float) {w v : World Float}
      → Step floats window w v
      → Paced floats w.scheduler
      → leq (reserved w) (reserved v) ≡ true
  unfolding defer mark_active reserve_host throttle_host begin_request end_request decide acquire
      start finish release apply_global_throttle
  Step-reserved window (defers delay now) p = leq_refl floats _
  Step-reserved window (marks host now) p = leq_refl floats _
  Step-reserved window (reserves host gap now) p = leq_refl floats _
  Step-reserved window {w} succeeds p = report_success-reserved w.scheduler
  Step-reserved window (throttles delay now) p = leq_refl floats _
  Step-reserved window (throttles_host host delay now) p = leq_refl floats _
  Step-reserved window {w} (decides host now clock) p =
      event-reserved window host now clock w.scheduler
  Step-reserved window (acquires h) p = leq_refl floats _
  Step-reserved window {w} (takes_slot now h) p = slot-reserved now w.scheduler p
  Step-reserved window (starts now h) p = leq_refl floats _
  Step-reserved window (finishes h) p = leq_refl floats _
  Step-reserved window (releases h) p = leq_refl floats _

  Reach-reserved :
      (window : Float) (w v : World Float)
      → Paced floats w.scheduler
      → Reach floats window w v
      → leq (reserved w) (reserved v) ≡ true
  Reach-reserved window w v p here = leq_refl floats _
  Reach-reserved window w v p (next r st) =
      leq_trans _ _ _ (Reach-reserved window w _ p r)
        (Step-reserved window st (Reach-Paced floats window p r))

  -- Once a thread has taken a slot under a paced rate, every slot taken later, by whichever thread and
  -- after whatever steps, starts at least the interval of that rate after it.
  pub slots_spaced :
      (window : Float) (w v : World Float) (now later : Float)
      → Paced floats w.scheduler
      → Reach floats window (record w { scheduler = reserve_slot floats now w.scheduler }) v
      → leq
          (add
            (global_ready_at floats now w.scheduler)
            (interval w.scheduler.rate.current_requests_per_minute))
          (global_ready_at floats later v.scheduler)
        ≡ true
  unfolding reserve_slot global_ready_at
  slots_spaced window w v now later p r =
      leq_trans _ _ _
        (Reach-reserved window _ v
          (record { positive = p.positive; above = p.above; below = p.below }) r)
        (leq_trans _ _ _ (leq-max_right floats later v.scheduler.rate.next_request_at)
          (leq-max_left floats _ v.scheduler.rate.cooldown_until))

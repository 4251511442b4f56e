-- ===== src/Utils/Scheduler/Steps.antt =====
-- Threads interleave at the critical sections of the scheduler: a step is one section of one thread.
pub mod Rate
pub mod Cooldown
pub mod Permits
pub mod Reductions
pub mod Slots
use osm_polygon_wikidata_onl.Prelude.{
  ℕ, zero, suc, ◌+◌, ◌-◌, ◌<◌, ◌≡◌, Bool, true, false, List, [], ◌∷◌, Option, none, some,
  if◌then◌else◌, Str,
}
use osm_polygon_wikidata_onl.Floats.{Floats}
use osm_polygon_wikidata_onl.Utils.Scheduler.{
  Scheduler, defer, mark_active, reserve_host, report_success, apply_global_throttle, throttle_host,
  record_systemic_host_event, reserve_slot, begin_request, end_request,
}

-- The scheduler, how many threads of `run` wait for their slot or have yet to release their permit,
-- and the times at which a systemic reduction was decided, the latest first.
pub record World (Float : Type 0) : Type 0 where
  pub scheduler : Scheduler Float
  pub waiting : ℕ
  pub leaving : ℕ
  pub reductions : List Float

module _ (floats : Floats) (window : floats.Float) where
  open floats use {Float}

  abbrev pub update : (Scheduler Float → Scheduler Float) → World Float → World Float
  update f w = record w { scheduler = f w.scheduler }

  -- `_record_systemic_host_event`, with its decision noted
  unfoldable pub decide : Str → Float → Float → World Float → World Float
  decide host now clock w =
      let (s, systemic) = record_systemic_host_event floats window host now clock w.scheduler in
      record w { scheduler = s; reductions = if systemic then now ∷ w.reductions else w.reductions }

  -- the semaphore's `acquire` and `release`
  unfoldable pub acquire : World Float → World Float
  acquire w = record w {
    scheduler = record (w.scheduler) { permits = w.scheduler.permits - 1 };
    waiting = w.waiting + 1;
  }

  unfoldable pub start : Float → World Float → World Float
  start now w = record w {
    scheduler = begin_request floats window now w.scheduler;
    waiting = w.waiting - 1;
  }

  unfoldable pub finish : World Float → World Float
  finish w = record w { scheduler = end_request floats w.scheduler; leaving = w.leaving + 1 }

  unfoldable pub release : World Float → World Float
  release w = record w {
    scheduler = record (w.scheduler) { permits = w.scheduler.permits + 1 };
    leaving = w.leaving - 1;
  }

  pub data Step (w : World Float) : World Float → Type 0 where
    defers : (delay now : Float) → Step w (update (defer floats delay now) w)
    marks : (host : Str) (now : Float) → Step w (update (mark_active floats host now) w)
    reserves : (host : Str) (gap now : Float) → Step w (update (reserve_host floats host gap now) w)
    succeeds : Step w (update (report_success floats) w)
    throttles : (delay now : Float) → Step w (update (apply_global_throttle floats delay now) w)
    throttles_host :
        (host : Str) (delay now : Float)
        → Step w (update (throttle_host floats window host delay now) w)
    decides : (host : Str) (now clock : Float) → Step w (decide host now clock w)
    acquires : 0 < w.scheduler.permits → Step w (acquire w)
    takes_slot : (now : Float) → 0 < w.waiting → Step w (update (reserve_slot floats now) w)
    starts : (now : Float) → 0 < w.waiting → Step w (start now w)
    finishes : 0 < w.scheduler.rate.in_flight → Step w (finish w)
    releases : 0 < w.leaving → Step w (release w)

  pub data Reach (w : World Float) : World Float → Type 0 where
    here : Reach w w
    next : {v u : World Float} → Reach w v → Step v u → Reach w u

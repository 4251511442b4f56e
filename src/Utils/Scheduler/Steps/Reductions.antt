-- ===== src/Utils/Scheduler/Steps/Reductions.antt =====
-- Systemic reductions of the rate: at most one in a window, whatever the threads do.
use osm_polygon_wikidata_onl.Prelude.{
  ◌≡◌, refl, sym, ◌∙◌, Bool, true, List, [], ◌∷◌, Option, none, some, arith, Str, Bool-cases, inl,
  inr, if◌then◌else◌,
}
use osm_polygon_wikidata_onl.Floats.{Floats}
use osm_polygon_wikidata_onl.Utils.Scheduler.{
  Scheduler, defer, mark_active, reserve_host, report_success, apply_global_throttle, throttle_host,
  record_systemic_host_event, reserve_slot, begin_request, end_request, window_passed,
  systemic_threshold, prune_active,
}
use osm_polygon_wikidata_onl.Utils.Scheduler.Steps.{
  World, decide, acquire, start, finish, release, Step, defers, marks, reserves, succeeds,
  throttles, throttles_host, decides, acquires, takes_slot, starts, finishes, releases, Reach, here,
  next,
}

abbrev pub latest : {A : Type 0} → List A → Option A
latest [] = none
latest (x ∷ xs) = some x

module _ (floats : Floats) where
  open floats use {Float, sub}

  -- Times, the latest decision first, each more than a window after the one before it.
  pub data Spaced (window : Float) : List Float → Type 0 where
    none_yet : Spaced window []
    one_more :
        (t : Float) (ts : List Float)
        → window_passed floats (latest ts) t window ≡ true
        → Spaced window ts
        → Spaced window (t ∷ ts)

  pub record IsSuppressing (w : World Float) : Type 0 where
    pub last_eq : w.scheduler.rate.last_systemic_reduction_at ≡ latest w.reductions
    pub spaced : Spaced w.scheduler.limits.host_throttle_window_s w.reductions

  report_success-IsSuppressing :
      (w : World Float)
      → IsSuppressing w
      → IsSuppressing (record w { scheduler = report_success floats w.scheduler })
  unfolding report_success
  report_success-IsSuppressing w i = record {
    last_eq = ground (arith, i.last_eq);
    spaced = ground (arith, i.spaced);
  }

  module _ (window : Float) (host : Str) (now clock : Float) (s : Scheduler Float) where
    -- the state and the decision that `_record_systemic_host_event` gives
    abbrev decided : Scheduler Float × Bool
    decided = record_systemic_host_event floats window host now clock s

    decided-limits : decided.0.limits ≡ s.limits
    unfolding record_systemic_host_event systemic_threshold prune_active
    decided-limits = ground arith

    decided-last :
        decided.0.rate.last_systemic_reduction_at
        ≡ (if decided.1 then some now else s.rate.last_systemic_reduction_at)
    unfolding record_systemic_host_event systemic_threshold prune_active
    decided-last = ground arith

    decided-passed :
        decided.1 ≡ true
        → window_passed floats s.rate.last_systemic_reduction_at now s.limits.host_throttle_window_s
          ≡ true
    unfolding record_systemic_host_event systemic_threshold prune_active
    decided-passed h = ground arith

  -- The decision reads the time of the last one and replaces it in the same critical section.
  decide-IsSuppressing :
      (window : Float) (host : Str) (now clock : Float) (w : World Float)
      → IsSuppressing w
      → IsSuppressing (decide floats window host now clock w)
  unfolding decide
  decide-IsSuppressing window host now clock w i = record {
    last_eq =
        decided-last window host now clock w.scheduler
        ∙ elim (Bool-cases (decided window host now clock w.scheduler).1) [
          | inl e ↦ rw e refl
          | inr e ↦ rw e i.last_eq
        ];
    spaced = elim (Bool-cases (decided window host now clock w.scheduler).1) [
      | inl e ↦ rw (decided-limits window host now clock w.scheduler) (
          rw e (
            one_more now w.reductions
              (rw (sym i.last_eq) (decided-passed window host now clock w.scheduler e)) i.spaced))
      | inr e ↦ rw (decided-limits window host now clock w.scheduler) (rw e i.spaced)
    ];
  }

  pub Step-IsSuppressing :
      (window : Float) {w v : World Float}
      → Step floats window w v
      → IsSuppressing w
      → IsSuppressing v
  unfolding defer mark_active reserve_host throttle_host reserve_slot begin_request end_request
      acquire start finish release apply_global_throttle
  Step-IsSuppressing window (defers delay now) i = record { last_eq = i.last_eq; spaced = i.spaced }
  Step-IsSuppressing window (marks host now) i = record { last_eq = i.last_eq; spaced = i.spaced }
  Step-IsSuppressing window (reserves host gap now) i = record {
    last_eq = i.last_eq;
    spaced = i.spaced;
  }
  Step-IsSuppressing window {w} succeeds i = report_success-IsSuppressing w i
  Step-IsSuppressing window (throttles delay now) i = record {
    last_eq = i.last_eq;
    spaced = i.spaced;
  }
  Step-IsSuppressing window (throttles_host host delay now) i = record {
    last_eq = i.last_eq;
    spaced = i.spaced;
  }
  Step-IsSuppressing window {w} (decides host now clock) i =
      decide-IsSuppressing window host now clock w i
  Step-IsSuppressing window (acquires h) i = record { last_eq = i.last_eq; spaced = i.spaced }
  Step-IsSuppressing window (takes_slot now h) i = record { last_eq = i.last_eq; spaced = i.spaced }
  Step-IsSuppressing window (starts now h) i = record { last_eq = i.last_eq; spaced = i.spaced }
  Step-IsSuppressing window (finishes h) i = record { last_eq = i.last_eq; spaced = i.spaced }
  Step-IsSuppressing window (releases h) i = record { last_eq = i.last_eq; spaced = i.spaced }

  -- However the threads interleave, the scheduler knows the time of the latest systemic reduction, and each
  -- reduction was decided more than a window after the one before it.
  pub Reach-IsSuppressing :
      (window : Float) (w v : World Float)
      → IsSuppressing w
      → Reach floats window w v
      → IsSuppressing v
  Reach-IsSuppressing window w v i here = i
  Reach-IsSuppressing window w v i (next r st) =
      Step-IsSuppressing window st (Reach-IsSuppressing window w _ i r)

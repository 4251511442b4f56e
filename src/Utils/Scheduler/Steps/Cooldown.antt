-- ===== src/Utils/Scheduler/Steps/Cooldown.antt =====
-- Cooldowns: no critical section shortens one.
use osm_polygon_wikidata_onl.Prelude.{
  ◌≡◌, true, arith, Str, inl, inr, get-put, str_eq, ◌==◌, ==_iff, sym, Bool-cases,
}
use osm_polygon_wikidata_onl.Floats.{Floats, leq-max_left, leq_refl}
use osm_polygon_wikidata_onl.Utils.Scheduler.{
  Scheduler, HostState, defer, mark_active, reserve_host, report_success, apply_global_throttle,
  throttle_host, record_systemic_host_event, reserve_slot, begin_request, end_request, host_state,
  set_host, systemic_threshold, prune_active,
}
use osm_polygon_wikidata_onl.Utils.Scheduler.Steps.{
  World, decide, acquire, start, finish, release, Step, defers, marks, reserves, succeeds,
  throttles, throttles_host, decides, acquires, takes_slot, starts, finishes, releases, Reach, here,
  next,
}

module _ (floats : Floats) where
  open floats use {Float, leq, leq_trans}

  -- Neither the global cooldown nor any host's ends earlier.
  pub record IsLater (s t : Scheduler Float) : Type 0 where
    pub globally : leq s.rate.cooldown_until t.rate.cooldown_until ≡ true
    pub each_host :
        (host : Str)
        → leq (host_state floats host s).cooldown_until (host_state floats host t).cooldown_until
          ≡ true

  IsLater-refl : (s : Scheduler Float) → IsLater s s
  IsLater-refl s = record { globally = leq_refl floats _; each_host = λ host. leq_refl floats _ }

  IsLater-trans : {s t u : Scheduler Float} → IsLater s t → IsLater t u → IsLater s u
  IsLater-trans p q = record {
    globally = leq_trans _ _ _ p.globally q.globally;
    each_host = λ host. leq_trans _ _ _ (p.each_host host) (q.each_host host);
  }

  report_success-IsLater : (s : Scheduler Float) → IsLater s (report_success floats s)
  unfolding report_success host_state
  report_success-IsLater s = record {
    globally = ground (arith, leq_refl floats s.rate.cooldown_until);
    each_host = λ host. ground (arith, leq_refl floats (host_state floats host s).cooldown_until);
  }

  record_systemic_host_event-IsLater :
      (window : Float) (host : Str) (now clock : Float) (s : Scheduler Float)
      → IsLater s (record_systemic_host_event floats window host now clock s).0
  unfolding record_systemic_host_event systemic_threshold prune_active host_state
  record_systemic_host_event-IsLater window host now clock s = record {
    globally = ground (arith, leq_refl floats s.rate.cooldown_until);
    each_host = λ other. ground (arith, leq_refl floats (host_state floats other s).cooldown_until);
  }

  module _ (host : Str) (s : Scheduler Float) (h : HostState Float) where
    -- A host whose new state cools down as long as its old one leaves every cooldown as long.
    set_host-IsLater :
        leq (host_state floats host s).cooldown_until h.cooldown_until ≡ true
        → IsLater s (set_host floats host h s)
    unfolding host_state set_host
    set_host-IsLater later = record {
      globally = leq_refl floats _;
      each_host = λ other. elim (Bool-cases (host == other)) [
        | inl same ↦
            rw (get-put host other h s.host_states)
              (rw same (rw (sym ((==_iff host other).0 same)) later))
        | inr differ ↦ rw (get-put host other h s.host_states) (rw differ (leq_refl floats _))
      ];
    }

  -- No critical section ends a cooldown earlier, the global one or any host's.
  pub Step-IsLater :
      (window : Float) {w v : World Float}
      → Step floats window w v
      → IsLater w.scheduler v.scheduler
  unfolding defer mark_active reserve_host throttle_host reserve_slot begin_request end_request
      decide acquire start finish release apply_global_throttle host_state
  Step-IsLater window (defers delay now) = record {
    globally = leq-max_left floats _ _;
    each_host = λ host. leq_refl floats _;
  }
  Step-IsLater window {w} (marks host now) = record {
    globally = leq_refl floats _;
    each_host = λ host. leq_refl floats _;
  }
  Step-IsLater window {w} (reserves host gap now) =
      set_host-IsLater host w.scheduler _ (leq_refl floats _)
  Step-IsLater window {w} succeeds = report_success-IsLater w.scheduler
  Step-IsLater window (throttles delay now) = record {
    globally = leq-max_left floats _ _;
    each_host = λ host. leq_refl floats _;
  }
  Step-IsLater window {w} (throttles_host host delay now) =
      set_host-IsLater host w.scheduler _ (leq-max_left floats _ _)
  Step-IsLater window {w} (decides host now clock) =
      record_systemic_host_event-IsLater window host now clock w.scheduler
  Step-IsLater window (acquires h) = record {
    globally = leq_refl floats _;
    each_host = λ host. leq_refl floats _;
  }
  Step-IsLater window (takes_slot now h) = record {
    globally = leq_refl floats _;
    each_host = λ host. leq_refl floats _;
  }
  Step-IsLater window (starts now h) = record {
    globally = leq_refl floats _;
    each_host = λ host. leq_refl floats _;
  }
  Step-IsLater window (finishes h) = record {
    globally = leq_refl floats _;
    each_host = λ host. leq_refl floats _;
  }
  Step-IsLater window (releases h) = record {
    globally = leq_refl floats _;
    each_host = λ host. leq_refl floats _;
  }

  -- However the threads interleave, no cooldown, the global one or any host's, ever ends earlier than it
  -- was set to end.
  pub Reach-IsLater :
      (window : Float) (w v : World Float)
      → Reach floats window w v
      → IsLater w.scheduler v.scheduler
  Reach-IsLater window w v here = IsLater-refl w.scheduler
  Reach-IsLater window w v (next r st) =
      IsLater-trans (Reach-IsLater window w _ r) (Step-IsLater window st)

-- ===== src/Utils/Scheduler/Pacing.antt =====
-- `pace_host` of utils/request_scheduler.py: the loop that waits for a host, and the slots it reserves.
use osm_polygon_wikidata_onl.Prelude.{
  ◌≡◌, refl, Bool, true, false, List, [], ◌∷◌, Option, some, none, if◌then◌else◌, Str, arith, ◌++◌,
  str_eq, Bool-cases, ap, sym, ◌∙◌, inl, inr,
}
use osm_polygon_wikidata_onl.Floats.{Floats, lt, leq-max_left, leq-max_right}
use osm_polygon_wikidata_onl.Utils.Scheduler.{
  Scheduler, HostState, host_state, host_ready_at, reserve_host, mark_active,
}

-- One turn of the loop as the environment gives it: what other threads do to the scheduler before this one
-- takes the host's lock, after it has released it, and while it sleeps; and the clock's readings, for the
-- slot, for the wait, and after the sleep.
pub record Turn (Float : Type 0) : Type 0 where
  pub before : Scheduler Float → Scheduler Float
  pub reserved_at : Float
  pub between : Scheduler Float → Scheduler Float
  pub measured_at : Float
  pub meanwhile : Scheduler Float → Scheduler Float
  pub woken_at : Float

-- What the loop returns: the state, how long each sleep was, the reading at which it stopped, and the
-- host's state as this thread last saw it, which the code does not keep.
pub record Departure (Float : Type 0) : Type 0 where
  pub scheduler : Scheduler Float
  pub sleeps : List Float
  pub returned_at : Float
  pub last_seen : HostState Float

module _ (floats : Floats) (host : Str) (min_interval : floats.Float) where
  open floats use {Float, leq, sub, add, leq_trans, sub_nonpos}

  -- `wait = ready_at - self._clock()` returns when it is not positive; after a sleep, the loop goes on when
  -- the cooldown lies ahead. The list of turns is as long as the environment lets the loop run.
  unfoldable pub pace_loop :
      List (Turn Float) → List Float → Scheduler Float → Option (Departure Float)
  unfolding host_state host_ready_at reserve_host
  pace_loop [] sleeps s = none
  pace_loop (t ∷ turns) sleeps s =
      let entered = t.before s in
      let found = host_state floats host entered in
      let wait = sub (host_ready_at floats found t.reserved_at) t.measured_at in
      let released = t.between (reserve_host floats host min_interval t.reserved_at entered) in
      let woken = t.meanwhile released in
      let seen = host_state floats host woken in
      let again = pace_loop turns (sleeps ++ (wait ∷ [])) woken in
      if leq wait floats.zero
      then some (record {
        scheduler = released;
        sleeps = sleeps;
        returned_at = t.measured_at;
        last_seen = found;
      })
      else if lt floats t.woken_at seen.cooldown_until
      then again
      else some (record {
        scheduler = woken;
        sleeps = sleeps ++ (wait ∷ []);
        returned_at = t.woken_at;
        last_seen = seen;
      })

  unfoldable pub pace_host : Float → List (Turn Float) → Scheduler Float → Option (Departure Float)
  unfolding pace_loop mark_active
  pace_host now turns s = pace_loop turns [] (mark_active floats host now s)

  -- whether the cooldown that was last seen is over when the loop returns, if it does
  abbrev cooled : Option (Departure Float) → Bool
  cooled none = true
  cooled (some out) = leq out.last_seen.cooldown_until out.returned_at

  abbrev returns : Option (Departure Float) → Bool
  returns none = false
  returns (some out) = true

  returned :
      (found : Option (Departure Float))
      → returns found ≡ true
      → (out : Departure Float) × found ≡ some out
  returned none h = ground (arith, h)
  returned (some out) h = (out, refl)

  ready-cooldown :
      (h : HostState Float) (now : Float) → leq h.cooldown_until (host_ready_at floats h now) ≡ true
  unfolding host_ready_at
  ready-cooldown h now =
      leq_trans _ _ _ (leq-max_right floats now h.cooldown_until)
        (leq-max_left floats _ h.next_request_at)

  pace_loop-cooled :
      (turns : List (Turn Float)) (sleeps : List Float) (s : Scheduler Float)
      → cooled (pace_loop turns sleeps s) ≡ true
  unfolding pace_loop
  pace_loop-cooled [] sleeps s = refl
  pace_loop-cooled (t ∷ turns) sleeps s =
      let found = host_state floats host (t.before s) in
      let ready_at = host_ready_at floats found t.reserved_at in
      let wait = sub ready_at t.measured_at in
      let woken =
        t.meanwhile
          (t.between (reserve_host floats host min_interval t.reserved_at (t.before s))) in
      elim (Bool-cases (leq wait floats.zero)) [
        | inl now ↦ rw now (
            leq_trans _ _ _ (ready-cooldown found t.reserved_at)
              (sub_nonpos ready_at t.measured_at now))
        | inr ahead ↦
            elim (Bool-cases (leq (host_state floats host woken).cooldown_until t.woken_at)) [
              | inl cool ↦ rw ahead (rw cool cool)
              | inr hot ↦ rw ahead (rw hot (pace_loop-cooled turns (sleeps ++ (wait ∷ [])) woken))
            ]
      ]

  -- A turn after which the loop stops: whatever the other threads do to the state while this one sleeps,
  -- the host's cooldown is over when it wakes.
  abbrev pub Settles : Turn Float → Type 0
  Settles t =
      (s : Scheduler Float)
      → leq (host_state floats host (t.meanwhile s)).cooldown_until t.woken_at ≡ true

  pace_loop-returns :
      (before : List (Turn Float)) (t : Turn Float) (after : List (Turn Float))
      (sleeps : List Float) (s : Scheduler Float)
      → Settles t
      → returns (pace_loop (before ++ (t ∷ after)) sleeps s) ≡ true
  unfolding pace_loop
  pace_loop-returns [] t after sleeps s settles = ground (
    arith,
    settles (t.between (reserve_host floats host min_interval t.reserved_at (t.before s))),
  )
  pace_loop-returns (b ∷ before) t after sleeps s settles =
      let woken =
        b.meanwhile
          (b.between (reserve_host floats host min_interval b.reserved_at (b.before s))) in
      let ready_at = host_ready_at floats (host_state floats host (b.before s)) b.reserved_at in
      let wait = sub ready_at b.measured_at in
      ground (arith, pace_loop-returns before t after (sleeps ++ (wait ∷ [])) woken settles)

  -- When `pace_host` returns, the host's cooldown as it was when this thread last held the host's lock is
  -- not later than the last reading of the clock, whatever other threads do before that lock is taken,
  -- after it is released and during each sleep.
  pub pace_host-cooled :
      (now : Float) (turns : List (Turn Float)) (s : Scheduler Float) (out : Departure Float)
      → pace_host now turns s ≡ some out
      → leq out.last_seen.cooldown_until out.returned_at ≡ true
  unfolding pace_host
  pace_host-cooled now turns s out h =
      ap cooled (sym h) ∙ pace_loop-cooled turns [] (mark_active floats host now s)

  -- `pace_host` returns by the first turn whose sleep ends after the host's cooldown, whatever the turns
  -- before it were: it then gives a departure.
  pub pace_host-returns :
      (now : Float) (before : List (Turn Float)) (t : Turn Float) (after : List (Turn Float))
      (s : Scheduler Float)
      → Settles t
      → (out : Departure Float) × pace_host now (before ++ (t ∷ after)) s ≡ some out
  unfolding pace_host
  pace_host-returns now before t after s settles =
      returned _ (pace_loop-returns before t after [] (mark_active floats host now s) settles)

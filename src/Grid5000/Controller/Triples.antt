-- ===== src/Grid5000/Controller/Triples.antt =====
-- What an action ensures when it returns and when it raises.
use osm_polygon_wikidata_onl.Prelude.{Bool, true, false, if◌then◌else◌, [], ◌∷◌, ◌++◌}
use osm_polygon_wikidata_onl.Grid5000.Controller.{
  Fault, timeout, interrupt, exception, Reply, replied, raised, World, Action, Event, continue,
  handle, ◌>>=◌, try, call, traced, throw,
}

abbrev pub Ensures :
    {A : Type 0} → (A → World → Type 0) → (Fault → World → Type 0) → Reply A × World → Type 0
Ensures P Q (replied a, w) = P a w
Ensures P Q (raised e, w) = Q e w

pub continue-Ensures :
    {A B : Type 0} (P : A → World → Type 0) (R : B → World → Type 0) (Q : Fault → World → Type 0)
    (x : Reply A × World) (f : A → Action B)
    → Ensures P Q x
    → ((a : A) (w : World) → P a w → Ensures R Q (f a w))
    → Ensures R Q (continue f x)
continue-Ensures P R Q (replied a, w) f h k = k a w h
continue-Ensures P R Q (raised e, w) f h k = h

-- A handler is entered with what the action ensures when it raises.
pub handle-Ensures :
    {A : Type 0} (P : A → World → Type 0) (R Q : Fault → World → Type 0) (x : Reply A × World)
    (h : Fault → Action A)
    → Ensures P R x
    → ((w : World) → R interrupt w → Q interrupt w)
    → ((e : Fault) (w : World) → R e w → Ensures P Q (h e w))
    → Ensures P Q (handle h x)
handle-Ensures P R Q (replied a, w) h p i k = p
handle-Ensures P R Q (raised interrupt, w) h p i k = i w p
handle-Ensures P R Q (raised timeout, w) h p i k = k timeout w p
handle-Ensures P R Q (raised (exception name), w) h p i k = k (exception name) w p

-- An action that keeps a predicate on the world, whatever it replies.
pub record Keeping {A : Type 0} (I : World → Type 0) (m : Action A) : Type 0 where
  pub kept : (w : World) → I w → Ensures (λ _ v. I v) (λ _ v. I v) (m w)

module _ {A : Type 0} (I : World → Type 0) where
  pub then-Keeping :
      {B : Type 0} {m : Action A} {f : A → Action B}
      → Keeping I m
      → ((a : A) → Keeping I (f a))
      → Keeping I (m >>= f)
  unfolding ◌>>=◌
  then-Keeping {B} {m} {f} h k = record {
    kept = λ w i.
        continue-Ensures (λ _ v. I v) (λ _ v. I v) (λ _ v. I v) (m w) f (h.kept w i)
          (λ a v j. (k a).kept v j);
  }

  pub try-Keeping :
      {m : Action A} {h : Fault → Action A}
      → Keeping I m
      → ((e : Fault) → Keeping I (h e))
      → Keeping I (try m h)
  unfolding try
  try-Keeping {m} {h} p k = record {
    kept = λ w i.
        handle-Ensures (λ _ v. I v) (λ _ v. I v) (λ _ v. I v) (m w) h (p.kept w i) (λ v j. j)
          (λ e v j. (k e).kept v j);
  }

  ensured : (reply : Reply A) (w : World) → I w → Ensures (λ _ v. I v) (λ _ v. I v) (reply, w)
  ensured (replied a) w i = i
  ensured (raised e) w i = i

  pub call-Keeping : (reply : Reply A) → Keeping I (call reply)
  call-Keeping reply = record { kept = λ w i. ensured reply w i }

  pub traced-Keeping :
      (event : Event) (reply : Reply A)
      → ((w : World) → I w → I (record w { events = w.events ++ (event ∷ []) }))
      → Keeping I (traced event reply)
  traced-Keeping event reply h = record { kept = λ w i. ensured reply _ (h w i) }

  -- an action that only reads the world
  pub read-Keeping : (f : World → Reply A) → Keeping I (λ w. (f w, w))
  read-Keeping f = record { kept = λ w i. ensured (f w) w i }

  pub throw-Keeping : (e : Fault) → Keeping I (throw {A = A} e)
  throw-Keeping e = record { kept = λ w i. i }

  pub return-Keeping : (a : A) → Keeping I (λ w. (replied a, w))
  return-Keeping a = record { kept = λ w i. i }

  pub choice-Keeping :
      (test : Bool) {m k : Action A} → Keeping I m → Keeping I k → Keeping I (if test then m else k)
  choice-Keeping true h k = h
  choice-Keeping false h k = k

-- An action that leads from one predicate to another, whatever it replies.
pub record Leading {A : Type 0} (P R : World → Type 0) (m : Action A) : Type 0 where
  pub led : (w : World) → P w → Ensures (λ _ v. R v) (λ _ v. R v) (m w)

weakened :
    {A : Type 0} (P R : World → Type 0)
    → ((w : World) → P w → R w)
    → (x : Reply A × World) → Ensures (λ _ v. P v) (λ _ v. P v) x
    → Ensures (λ _ v. P v) (λ _ v. R v) x
weakened P R h (replied a, w) i = i
weakened P R h (raised e, w) i = h w i

module _ {A B : Type 0} (P R : World → Type 0) where
  pub then-Leading :
      {m : Action A} {f : A → Action B}
      → Leading P R m
      → ((a : A) → Keeping R (f a))
      → Leading P R (m >>= f)
  unfolding ◌>>=◌
  then-Leading {m} {f} h k = record {
    led = λ w i.
        continue-Ensures (λ _ v. R v) (λ _ v. R v) (λ _ v. R v) (m w) f (h.led w i)
          (λ a v j. (k a).kept v j);
  }

  pub before-Leading :
      {m : Action A} {f : A → Action B}
      → ((w : World) → P w → R w)
      → Keeping P m
      → ((a : A) → Leading P R (f a))
      → Leading P R (m >>= f)
  unfolding ◌>>=◌
  before-Leading {m} {f} h p k = record {
    led = λ w i.
        continue-Ensures (λ _ v. P v) (λ _ v. R v) (λ _ v. R v) (m w) f
          (weakened P R h (m w) (p.kept w i)) (λ a v j. (k a).led v j);
  }

module _ {A : Type 0} (P R : World → Type 0) where
  pub try-Leading :
      {m : Action A} {h : Fault → Action A}
      → Leading P R m
      → ((e : Fault) → Keeping R (h e))
      → Leading P R (try m h)
  unfolding try
  try-Leading {m} {h} p k = record {
    led = λ w i.
        handle-Ensures (λ _ v. R v) (λ _ v. R v) (λ _ v. R v) (m w) h (p.led w i) (λ v j. j)
          (λ e v j. (k e).kept v j);
  }

  pub traced-Leading :
      (event : Event) (reply : Reply A)
      → ((w : World) → P w → R (record w { events = w.events ++ (event ∷ []) }))
      → Leading P R (traced event reply)
  traced-Leading event reply h = record { led = λ w i. ensured R reply _ (h w i) }

  pub kept-Leading : {m : Action A} → ((w : World) → P w → R w) → Keeping R m → Leading P R m
  kept-Leading h k = record { led = λ w i. k.kept w (h w i) }

-- What an action ensures when it returns.
pub record Giving {A : Type 0} (P : World → Type 0) (m : Action A) : Type 0 where
  pub given : (w : World) → Ensures (λ _ v. P v) (λ _ _. Unit {0}) (m w)

raising : {B : Type 0} (x : Reply B × World) → Ensures (λ _ _. Unit {0}) (λ _ _. Unit {0}) x
raising (replied b, w) = tt
raising (raised e, w) = tt

module _ {A : Type 0} (P : World → Type 0) where
  pub last-Giving :
      {B : Type 0} (m : Action B) {f : B → Action A}
      → ((b : B) → Giving P (f b))
      → Giving P (m >>= f)
  unfolding ◌>>=◌
  last-Giving {B} m {f} k = record {
    given = λ w.
        continue-Ensures (λ _ _. Unit {0}) (λ _ v. P v) (λ _ _. Unit {0}) (m w) f (raising (m w))
          (λ b v _. (k b).given v);
  }

  pub throw-Giving : (e : Fault) → Giving P (throw {A = A} e)
  throw-Giving e = record { given = λ w. tt }

  pub choice-Giving :
      (test : Bool) {m k : Action A} → Giving P m → Giving P k → Giving P (if test then m else k)
  choice-Giving true h k = h
  choice-Giving false h k = k

-- ===== src/Floats.antt =====
-- Python's floats without NaN, as an interface: an order, and the operations that the schedulers use
-- with the laws that rounding keeps.
use osm_polygon_wikidata_onl.Prelude.{ℕ, ◌≡◌, Bool, true, false, ◌||◌, not, arith, if◌then◌else◌}

pub record Floats : Type 1 where
  pub Float : Type 0
  pub leq : Float → Float → Bool
  pub zero : Float
  pub add : Float → Float → Float
  pub sub : Float → Float → Float
  pub double : Float → Float
  pub half : Float → Float
  -- `x * 1.25`
  pub grow : Float → Float
  -- `60.0 / x`
  pub interval : Float → Float
  -- `n / x * 100.0`
  pub percent : ℕ → Float → Float
  -- `math.ceil(n * x)`
  pub ceil_mul : ℕ → Float → ℕ
  pub leq_total : (a b : Float) → (leq a b || leq b a) ≡ true
  pub leq_trans : (a b c : Float) → leq a b ≡ true → leq b c ≡ true → leq a c ≡ true
  pub add_mono :
      (a b c d : Float) → leq a b ≡ true → leq c d ≡ true → leq (add a c) (add b d) ≡ true
  pub add_zero : (a : Float) → leq a (add a zero) ≡ true
  pub sub_nonpos : (a b : Float) → leq (sub a b) zero ≡ true → leq a b ≡ true
  pub double_leq : (a : Float) → leq zero a ≡ true → leq a (double a) ≡ true
  pub half_leq : (a : Float) → leq zero a ≡ true → leq (half a) a ≡ true
  pub half_mono : (a b : Float) → leq a b ≡ true → leq (half a) (half b) ≡ true
  pub grow_leq : (a : Float) → leq zero a ≡ true → leq a (grow a) ≡ true
  pub interval_nonneg : (a : Float) → leq a zero ≡ false → leq zero (interval a) ≡ true

module _ (floats : Floats) where
  open floats use {Float, leq, zero, add, leq_total, leq_trans, add_mono, add_zero}

  -- `a < b`
  abbrev pub lt : Float → Float → Bool
  lt a b = not (leq b a)

  -- `max(a, b)` is its first argument unless the second is greater
  unfoldable pub max_of : Float → Float → Float
  max_of a b = if leq b a then a else b

  -- `min(a, b)` is its first argument unless the second is less
  unfoldable pub min_of : Float → Float → Float
  min_of a b = if leq a b then a else b

  pub leq_refl : (a : Float) → leq a a ≡ true
  leq_refl a = ground (arith, leq_total a a)

  pub leq-max_left : (a b : Float) → leq a (max_of a b) ≡ true
  unfolding max_of
  leq-max_left a b = ground (arith, leq_refl a, leq_total a b)

  pub leq-max_right : (a b : Float) → leq b (max_of a b) ≡ true
  unfolding max_of
  leq-max_right a b = ground (arith, leq_refl b)

  pub max-leq : (a b c : Float) → leq a c ≡ true → leq b c ≡ true → leq (max_of a b) c ≡ true
  unfolding max_of
  max-leq a b c h k = ground arith

  pub min_left-leq : (a b : Float) → leq (min_of a b) a ≡ true
  unfolding min_of
  min_left-leq a b = ground (arith, leq_refl a, leq_total a b)

  pub min_right-leq : (a b : Float) → leq (min_of a b) b ≡ true
  unfolding min_of
  min_right-leq a b = ground (arith, leq_refl b)

  pub leq-min : (a b c : Float) → leq c a ≡ true → leq c b ≡ true → leq c (min_of a b) ≡ true
  unfolding min_of
  leq-min a b c h k = ground arith

  -- Adding what is not negative does not decrease.
  pub leq-add : (a d : Float) → leq zero d ≡ true → leq a (add a d) ≡ true
  leq-add a d h =
      leq_trans a (add a zero) (add a d) (add_zero a) (add_mono a a zero d (leq_refl a) h)

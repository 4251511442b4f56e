-- ===== src/Examples/Clock.antt =====
-- Whole seconds as an instance of the interface of floats.
use osm_polygon_wikidata_onl.Prelude.{ℕ, ◌+◌, ◌-◌, ◌*◌, ◌/◌, ◌≡◌, true, false, leb, ◌||◌, arith}
use osm_polygon_wikidata_onl.Floats.{Floats}

pub total : (a b : ℕ) → (leb a b || leb b a) ≡ true
total a b = ground arith

pub transitive : (a b c : ℕ) → leb a b ≡ true → leb b c ≡ true → leb a c ≡ true
transitive a b c h k = ground arith

pub monotone : (a b c d : ℕ) → leb a b ≡ true → leb c d ≡ true → leb (a + c) (b + d) ≡ true
monotone a b c d h k = ground arith

pub neutral : (a : ℕ) → leb a (a + 0) ≡ true
neutral a = ground arith

pub difference : (a b : ℕ) → leb (a - b) 0 ≡ true → leb a b ≡ true
difference a b h = ground arith

pub doubling : (a : ℕ) → leb 0 a ≡ true → leb a (a * 2) ≡ true
doubling a h = ground arith

pub halving : (a : ℕ) → leb 0 a ≡ true → leb (a / 2) a ≡ true
halving a h = ground arith

pub halving_mono : (a b : ℕ) → leb a b ≡ true → leb (a / 2) (b / 2) ≡ true
halving_mono a b h = ground arith

pub growing : (a : ℕ) → leb 0 a ≡ true → leb a (a + a / 4) ≡ true
growing a h = ground arith

pub spacing : (a : ℕ) → leb a 0 ≡ false → leb 0 (60 / a) ≡ true
spacing a h = ground arith

abbrev pub seconds : Floats
seconds = record {
  Float = ℕ;
  leq = leb;
  zero = 0;
  add = λ a b. a + b;
  sub = λ a b. a - b;
  double = λ a. a * 2;
  half = λ a. a / 2;
  grow = λ a. a + a / 4;
  interval = λ a. 60 / a;
  percent = λ n a. n * 100 / a;
  ceil_mul = λ n a. n * a;
  leq_total = total;
  leq_trans = transitive;
  add_mono = monotone;
  add_zero = neutral;
  sub_nonpos = difference;
  double_leq = doubling;
  half_leq = halving;
  half_mono = halving_mono;
  grow_leq = growing;
  interval_nonneg = spacing;
}

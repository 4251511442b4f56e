-- ===== src/Prelude/Sort.antt =====
-- Python's `sorted`: an order as an interface, stable insertion, and canonical sorted lists.
use Prim.Native.Nat.{suc}
use mathlib.Core.Path.{◌≡◌, refl, ap, ◌∙◌}
use mathlib.Core.Bool.{Bool, true, false, ◌||◌, ◌&&◌}
use mathlib.Core.Option.{Option, none, some}
use mathlib.Core.List.{List, [], ◌∷◌, map}
use native.Mathlib.Omega.{arith}
use osm_polygon_wikidata_onl.Prelude.Tests.{if◌then◌else◌, ltb}
use osm_polygon_wikidata_onl.Prelude.Equality.{Eq, ◌==◌, ==_iff, Str, str_eq, pair_eq}
use osm_polygon_wikidata_onl.Prelude.Lists.{contains, distinct, all, filter, length}

pub record Ord {ℓ} (A : Type ℓ) : Type ℓ where
  pub leq : A → A → Bool
  pub leq_total : (a b : A) → (leq a b || leq b a) ≡ true
  pub leq_trans : (a b c : A) → leq a b ≡ true → leq b c ≡ true → leq a c ≡ true
  pub leq_antisym : (a b : A) → leq a b ≡ true → leq b a ≡ true → a ≡ b

-- Texts are compared by their first differing code point.
abbrev pub str_leq : Str → Str → Bool
str_leq [] ys = true
str_leq (x ∷ xs) [] = false
str_leq (x ∷ xs) (y ∷ ys) = if ltb x y then true else if ltb y x then false else str_leq xs ys

pub str_leq_total : (a b : Str) → (str_leq a b || str_leq b a) ≡ true
str_leq_total [] [] = refl
str_leq_total [] (y ∷ ys) = refl
str_leq_total (x ∷ xs) [] = refl
str_leq_total (x ∷ xs) (y ∷ ys) = ground (arith, str_leq_total xs ys)

pub str_leq_trans : (a b c : Str) → str_leq a b ≡ true → str_leq b c ≡ true → str_leq a c ≡ true
str_leq_trans [] b c h k = refl
str_leq_trans (x ∷ xs) [] c h k = ground arith
str_leq_trans (x ∷ xs) (y ∷ ys) [] h k = ground arith
str_leq_trans (x ∷ xs) (y ∷ ys) (z ∷ zs) h k = ground (arith, str_leq_trans xs ys zs)

pub str_leq_antisym : (a b : Str) → str_leq a b ≡ true → str_leq b a ≡ true → a ≡ b
str_leq_antisym [] [] h k = refl
str_leq_antisym [] (y ∷ ys) h k = ground arith
str_leq_antisym (x ∷ xs) [] h k = ground arith
str_leq_antisym (x ∷ xs) (y ∷ ys) h k = ground (arith, str_leq_antisym xs ys)

instance abbrev pub str_ord : Ord Str
str_ord = record {
  leq = str_leq;
  leq_total = str_leq_total;
  leq_trans = str_leq_trans;
  leq_antisym = str_leq_antisym;
}

-- Tuples are compared by their first differing part.
module _ {ℓ κ} {A : Type ℓ} {B : Type κ} ⦃e : Eq A⦄ ⦃o : Ord A⦄ ⦃p : Ord B⦄ where
  abbrev pub pair_leq : A × B → A × B → Bool
  pair_leq x y = if x.0 == y.0 then p.leq x.1 y.1 else o.leq x.0 y.0

  pub pair_leq_total : (x y : A × B) → (pair_leq x y || pair_leq y x) ≡ true
  pair_leq_total x y =
      ground (arith, ==_iff x.0 y.0, ==_iff y.0 x.0, o.leq_total x.0 y.0, p.leq_total x.1 y.1)

  pub pair_leq_trans :
      (x y z : A × B) → pair_leq x y ≡ true → pair_leq y z ≡ true → pair_leq x z ≡ true
  pair_leq_trans x y z h k = ground (
    arith,
    ==_iff x.0 y.0,
    ==_iff y.0 z.0,
    ==_iff x.0 z.0,
    o.leq_trans x.0 y.0 z.0,
    o.leq_antisym x.0 y.0,
    p.leq_trans x.1 y.1 z.1,
  )

  pub pair_leq_antisym : (x y : A × B) → pair_leq x y ≡ true → pair_leq y x ≡ true → x ≡ y
  pair_leq_antisym x y h k =
      ground (arith, ==_iff x.0 y.0, ==_iff y.0 x.0, o.leq_antisym x.0 y.0, p.leq_antisym x.1 y.1)

  instance abbrev pub pair_ord : Ord (A × B)
  pair_ord = record {
    leq = pair_leq;
    leq_total = pair_leq_total;
    leq_trans = pair_leq_trans;
    leq_antisym = pair_leq_antisym;
  }

-- None and texts have no order in Python; where the code never asks for one, None is the least.
module _ {ℓ} {A : Type ℓ} ⦃o : Ord A⦄ where
  abbrev pub option_leq : Option A → Option A → Bool
  option_leq none b = true
  option_leq (some a) none = false
  option_leq (some a) (some b) = o.leq a b

  pub option_leq_total : (a b : Option A) → (option_leq a b || option_leq b a) ≡ true
  option_leq_total none b = refl
  option_leq_total (some a) none = refl
  option_leq_total (some a) (some b) = o.leq_total a b

  pub option_leq_trans :
      (a b c : Option A) → option_leq a b ≡ true → option_leq b c ≡ true → option_leq a c ≡ true
  option_leq_trans none b c h k = refl
  option_leq_trans (some a) none c h k = cc
  option_leq_trans (some a) (some b) none h k = cc
  option_leq_trans (some a) (some b) (some c) h k = o.leq_trans a b c h k

  pub option_leq_antisym : (a b : Option A) → option_leq a b ≡ true → option_leq b a ≡ true → a ≡ b
  option_leq_antisym none none h k = refl
  option_leq_antisym none (some b) h k = cc
  option_leq_antisym (some a) none h k = cc
  option_leq_antisym (some a) (some b) h k = ap some (o.leq_antisym a b h k)

  instance abbrev pub option_ord : Ord (Option A)
  option_ord = record {
    leq = option_leq;
    leq_total = option_leq_total;
    leq_trans = option_leq_trans;
    leq_antisym = option_leq_antisym;
  }

-- `sorted(xs, key=...)`: `leb` compares the keys; what is equal keeps its order.
module _ {ℓ} {A : Type ℓ} (leb : A → A → Bool) where
  abbrev pub insert : A → List A → List A
  insert x [] = x ∷ []
  insert x (y ∷ ys) = if leb x y then x ∷ y ∷ ys else y ∷ insert x ys

  abbrev pub sort : List A → List A
  sort [] = []
  sort (x ∷ xs) = insert x (sort xs)

  -- Each element is at most all that follow it.
  abbrev pub is_sorted : List A → Bool
  is_sorted [] = true
  is_sorted (x ∷ xs) = all (leb x) xs && is_sorted xs

  pub all-insert : (p : A → Bool) (x : A) (ys : List A) → all p (insert x ys) ≡ (p x && all p ys)
  all-insert p x [] = refl
  all-insert p x (y ∷ ys) = ground (arith, all-insert p x ys)

module _ {ℓ} {A : Type ℓ} (leb : A → A → Bool) (total : (a b : A) → (leb a b || leb b a) ≡ true)
    (trans : (a b c : A) → leb a b ≡ true → leb b c ≡ true → leb a c ≡ true) where
  all-leb_trans :
      (x y : A) (ys : List A) → leb x y ≡ true → all (leb y) ys ≡ true → all (leb x) ys ≡ true
  all-leb_trans x y [] h k = refl
  all-leb_trans x y (z ∷ zs) h k = ground (arith, all-leb_trans x y zs h, trans x y z)

  pub insert-is_sorted :
      (x : A) (ys : List A) → is_sorted leb ys ≡ true → is_sorted leb (insert leb x ys) ≡ true
  insert-is_sorted x [] h = refl
  insert-is_sorted x (y ∷ ys) h =
      ground
        (arith, insert-is_sorted x ys, all-insert leb (leb y) x ys, all-leb_trans x y ys, total x y)

  -- What `sorted` returns is in order.
  pub sort-is_sorted : (xs : List A) → is_sorted leb (sort leb xs) ≡ true
  sort-is_sorted [] = refl
  sort-is_sorted (x ∷ xs) = insert-is_sorted x (sort leb xs) (sort-is_sorted xs)

module _ {ℓ} {A : Type ℓ} (leb : A → A → Bool) where
  insert_of_least : (x : A) (ys : List A) → all (leb x) ys ≡ true → insert leb x ys ≡ x ∷ ys
  insert_of_least x [] h = refl
  insert_of_least x (y ∷ ys) h = ground arith

  -- A list that is in order is left as it is.
  pub sort_of_sorted : (xs : List A) → is_sorted leb xs ≡ true → sort leb xs ≡ xs
  sort_of_sorted [] h = refl
  sort_of_sorted (x ∷ xs) h =
      ground (
        arith,
        sort_of_sorted xs,
        insert_of_least x xs,
        ap (insert leb x) {x = sort leb xs} {y = xs},
      )

module _ {ℓ} {A : Type ℓ} ⦃e : Eq A⦄ (leb : A → A → Bool) where
  contains-insert :
      (x : A) (ys : List A) (a : A) → contains (insert leb x ys) a ≡ (x == a || contains ys a)
  contains-insert x [] a = refl
  contains-insert x (y ∷ ys) a = ground (arith, contains-insert x ys a)

  -- `sorted` keeps the elements.
  pub contains-sort : (xs : List A) (a : A) → contains (sort leb xs) a ≡ contains xs a
  contains-sort [] a = refl
  contains-sort (x ∷ xs) a =
      contains-insert x (sort leb xs) a ∙ ap (λ b. x == a || b) (contains-sort xs a)

-- `sorted` keeps the length.
module _ {ℓ} {A : Type ℓ} (leb : A → A → Bool) where
  length-insert : (x : A) (ys : List A) → length (insert leb x ys) ≡ length (x ∷ ys)
  length-insert x [] = refl
  length-insert x (y ∷ ys) = ground (arith, length-insert x ys)

  pub length-sort : (xs : List A) → length (sort leb xs) ≡ length xs
  length-sort [] = refl
  length-sort (x ∷ xs) = length-insert x (sort leb xs) ∙ ap suc (length-sort xs)

-- `sorted` keeps the elements' keys, and whether they are distinct.
module _ {ℓ κ} {A : Type ℓ} {K : Type κ} ⦃e : Eq K⦄ (leb : A → A → Bool) (key : A → K) where
  contains-map-insert :
      (x : A) (ys : List A) (k : K)
      → contains (map key (insert leb x ys)) k ≡ (key x == k || contains (map key ys) k)
  contains-map-insert x [] k = refl
  contains-map-insert x (y ∷ ys) k = ground (arith, contains-map-insert x ys k)

  distinct-map-insert :
      (x : A) (ys : List A) → distinct (map key (insert leb x ys)) ≡ distinct (map key (x ∷ ys))
  distinct-map-insert x [] = refl
  distinct-map-insert x (y ∷ ys) = ground (
    arith,
    distinct-map-insert x ys,
    contains-map-insert x ys (key y),
    ==_iff (key x) (key y),
    ==_iff (key y) (key x),
  )

  contains-map-sort :
      (xs : List A) (k : K) → contains (map key (sort leb xs)) k ≡ contains (map key xs) k
  contains-map-sort [] k = refl
  contains-map-sort (x ∷ xs) k =
      contains-map-insert x (sort leb xs) k ∙ ap (λ b. key x == k || b) (contains-map-sort xs k)

  pub distinct-map-sort : (xs : List A) → distinct (map key (sort leb xs)) ≡ distinct (map key xs)
  distinct-map-sort [] = refl
  distinct-map-sort (x ∷ xs) = ground (
    arith,
    distinct-map-insert x (sort leb xs),
    distinct-map-sort xs,
    contains-map-sort xs (key x),
  )

-- Elements that are pairwise in order both ways keep their places among themselves.
module _ {ℓ} {A : Type ℓ} (leb : A → A → Bool) (p : A → Bool)
    (level : (a b : A) → p a ≡ true → p b ≡ true → leb a b ≡ true) where
  filter-insert : (x : A) (ys : List A) → filter p (insert leb x ys) ≡ filter p (x ∷ ys)
  filter-insert x [] = refl
  filter-insert x (y ∷ ys) = ground (arith, filter-insert x ys, level x y)

  pub filter-sort : (xs : List A) → filter p (sort leb xs) ≡ filter p xs
  filter-sort [] = refl
  filter-sort (x ∷ xs) = ground (arith, filter-insert x (sort leb xs), filter-sort xs)

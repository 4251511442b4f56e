-- ===== src/Prelude/Quantifiers.antt =====
-- `all` over images, conjunctions and sums of lists, and comprehensions whose every step returns.
use mathlib.Core.Path.{◌≡◌, refl, ap}
use mathlib.Core.Bool.{Bool, true, ◌&&◌}
use mathlib.Core.List.{List, [], ◌∷◌, ◌++◌, map}
use native.Mathlib.Omega.{arith}
use osm_polygon_wikidata_onl.Prelude.Equality.{Eq, ==_refl}
use osm_polygon_wikidata_onl.Prelude.Lists.{contains, all}
use osm_polygon_wikidata_onl.Prelude.Results.{Result, ok, traverse}

module _ {ℓ} {A : Type ℓ} where
  pub all_of_true : (p : A → Bool) (xs : List A) → ((x : A) → p x ≡ true) → all p xs ≡ true
  all_of_true p [] h = refl
  all_of_true p (x ∷ xs) h = rw (h x) (all_of_true p xs h)

  pub all_both :
      (p q : A → Bool) (xs : List A)
      → all p xs ≡ true
      → all q xs ≡ true
      → all (λ x. p x && q x) xs ≡ true
  all_both p q [] h k = refl
  all_both p q (x ∷ xs) h k = ground (arith, all_both p q xs)

  pub all_implies :
      (p q : A → Bool) (xs : List A)
      → ((x : A) → p x ≡ true → q x ≡ true)
      → all p xs ≡ true
      → all q xs ≡ true
  all_implies p q [] step h = refl
  all_implies p q (x ∷ xs) step h = ground (arith, all_implies p q xs step, step x)

  pub all-append : (p : A → Bool) (xs ys : List A) → all p (xs ++ ys) ≡ (all p xs && all p ys)
  all-append p [] ys = refl
  all-append p (x ∷ xs) ys = ground (arith, all-append p xs ys)

module _ {ℓ κ} {A : Type ℓ} {B : Type κ} where
  pub all-map : (p : B → Bool) (f : A → B) (xs : List A) → all p (map f xs) ≡ all (λ x. p (f x)) xs
  all-map p f [] = refl
  all-map p f (x ∷ xs) = ap (λ b. p (f x) && b) (all-map p f xs)

  -- An image is among the images of any list that has those of this one.
  pub all_in_images :
      ⦃e : Eq B⦄ (f : A → B) (xs : List A) (images : List B)
      → ((k : B) → contains (map f xs) k ≡ true → contains images k ≡ true)
      → all (λ x. contains images (f x)) xs ≡ true
  all_in_images f [] images h = refl
  all_in_images f (x ∷ xs) images h =
      let here = h (f x) (ground (arith, ==_refl (f x))) in
      let later = all_in_images f xs images (λ k m. h k (ground (arith, m))) in
      ground (arith, here, later)

-- A comprehension over images, where each step returns.
pub traverse-map {ℓ κ μ} :
    {A : Type ℓ} {B : Type κ} {C : Type μ} (f : A → Result B) (g : C → A) (h : C → B) (p : C → Bool)
    (xs : List C)
    → ((x : C) → p x ≡ true → f (g x) ≡ ok (h x))
    → all p xs ≡ true
    → traverse f (map g xs) ≡ ok (map h xs)
traverse-map f g h p [] step passed = refl
traverse-map f g h p (x ∷ xs) step passed =
    rw (step x (ground (arith, passed)), traverse-map f g h p xs step (ground (arith, passed))) refl

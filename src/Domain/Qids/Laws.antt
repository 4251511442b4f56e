-- ===== src/Domain/Qids/Laws.antt =====
-- What the OSM tag's parser returns: distinct valid identifiers, all of them or none.
use osm_polygon_wikidata_onl.Prelude.{
  ℕ, ◌≡◌, refl, ap, ap₂, ◌∙◌, sym, true, false, ◌&&◌, not, List, [], ◌∷◌, map, arith, if◌then◌else◌,
  Str, nat_eq, str_eq, ==_iff, all, any, contains, distinct, remove_all, contains-remove_all,
  all-contains, all_of_contains, leb, Bool-cases, inl, inr,
}
use osm_polygon_wikidata_onl.Domain.Chars.{
  white_space, is_space_lem, is_decimal, is_space, join, strip, is_decimal_of_space, split-join,
  strip_lem,
}
use osm_polygon_wikidata_onl.Domain.Qids.{is_valid_qid, from_keys, components, qids_from_osm_tag}

contains-from_keys : (xs : List Str) (a : Str) → contains (from_keys xs) a ≡ contains xs a
unfolding from_keys
contains-from_keys [] a = refl
contains-from_keys (x ∷ xs) a =
    ground (arith, contains-from_keys xs a, contains-remove_all x (from_keys xs) a)

remove_all-distinct :
    (a : Str) (xs : List Str) → distinct xs ≡ true → distinct (remove_all a xs) ≡ true
remove_all-distinct a [] h = refl
remove_all-distinct a (x ∷ xs) h =
    ground (arith, remove_all-distinct a xs, contains-remove_all a xs x)

from_keys-distinct : (xs : List Str) → distinct (from_keys xs) ≡ true
unfolding from_keys
from_keys-distinct [] = refl
from_keys-distinct (x ∷ xs) = ground (
  arith,
  remove_all-distinct x (from_keys xs) (from_keys-distinct xs),
  contains-remove_all x (from_keys xs) x,
  ==_iff x x,
)

remove_all_of_not_contains :
    (a : Str) (xs : List Str) → contains xs a ≡ false → remove_all a xs ≡ xs
remove_all_of_not_contains a [] h = refl
remove_all_of_not_contains a (x ∷ xs) h = ground (arith, remove_all_of_not_contains a xs)

from_keys_of_distinct : (xs : List Str) → distinct xs ≡ true → from_keys xs ≡ xs
unfolding from_keys
from_keys_of_distinct [] h = refl
from_keys_of_distinct (x ∷ xs) h =
    ap (λ (t : List Str). x ∷ remove_all x t) (from_keys_of_distinct xs (ground arith))
    ∙ ap (λ (t : List Str). x ∷ t) (remove_all_of_not_contains x xs (ground arith))

all-from_keys :
    (cs : List Str) → all is_valid_qid cs ≡ true → all is_valid_qid (from_keys cs) ≡ true
all-from_keys cs h =
    all_of_contains is_valid_qid (from_keys cs)
      λ q m. all-contains is_valid_qid cs q h (sym (contains-from_keys cs q) ∙ m)

-- What the choice between all components and none keeps.
accepted_or_none :
    (cs : List Str)
    → let qs = if all is_valid_qid cs then from_keys cs else [] in
      (all is_valid_qid qs ≡ true)
      × (distinct qs ≡ true)
      × ((q : Str) → contains qs q ≡ (all is_valid_qid cs && contains cs q))
accepted_or_none cs = elim (Bool-cases (all is_valid_qid cs)) [
  | inl good ↦ rw good (all-from_keys cs good, from_keys-distinct cs, λ q. contains-from_keys cs q)
  | inr bad ↦ rw bad (refl, refl, λ q. refl)
]

-- The parser's result, at each tag: every identifier of the result is valid and none occurs twice;
-- where each component is a valid identifier the members are those of the components, and otherwise
-- there are none.
pub qids_from_osm_tag_lem :
    (value : Str)
    → (all is_valid_qid (qids_from_osm_tag value) ≡ true)
      × (distinct (qids_from_osm_tag value) ≡ true)
      × ((q : Str)
          → contains (qids_from_osm_tag value) q
            ≡ (all is_valid_qid (components value) && contains (components value) q))
unfolding qids_from_osm_tag
qids_from_osm_tag_lem value = accepted_or_none (components value)

digits_no_space : (ds : Str) → all is_decimal ds ≡ true → any is_space ds ≡ false
digits_no_space [] h = refl
digits_no_space (d ∷ ds) h = ground (arith, digits_no_space ds, is_decimal_of_space d)

semicolon_not_decimal : is_decimal b';' ≡ false
unfolding is_decimal
semicolon_not_decimal = refl

digits_no_separator : (ds : Str) → all is_decimal ds ≡ true → contains ds b';' ≡ false
digits_no_separator [] h = refl
digits_no_separator (d ∷ ds) h =
    ground (arith, digits_no_separator ds, semicolon_not_decimal, ap is_decimal {x = d} {y = b';'})

-- A valid identifier holds neither a separator nor white space.
valid_no_separator : (q : Str) → is_valid_qid q ≡ true → contains q b';' ≡ false
unfolding is_valid_qid
valid_no_separator [] h = cc
valid_no_separator (q ∷ []) h = cc
valid_no_separator (q ∷ d ∷ ds) h = ground (arith, digits_no_separator ds)

capital_no_space : is_space b'Q' ≡ false
unfolding is_space
capital_no_space = refl

space_not_leading : all (λ w. not (leb b'1' w && leb w b'9')) white_space ≡ true
unfolding white_space
space_not_leading = refl

leading_no_space : (d : ℕ) → (leb b'1' d && leb d b'9') ≡ true → is_space d ≡ false
leading_no_space d h = ground (
  arith,
  all-contains (λ w. not (leb b'1' w && leb w b'9')) white_space d space_not_leading,
  is_space_lem d,
)

valid_no_space : (q : Str) → is_valid_qid q ≡ true → any is_space q ≡ false
unfolding is_valid_qid
valid_no_space [] h = cc
valid_no_space (q ∷ []) h = cc
valid_no_space (q ∷ d ∷ ds) h = ground (
  arith,
  digits_no_space ds,
  capital_no_space,
  ap is_space {x = q} {y = b'Q'},
  leading_no_space d,
)

valid_parts :
    (qs : List Str) → all is_valid_qid qs ≡ true → all (λ s. not (contains s b';')) qs ≡ true
valid_parts [] h = refl
valid_parts (q ∷ qs) h = ground (arith, valid_parts qs, valid_no_separator q)

map-strip_of_valid : (qs : List Str) → all is_valid_qid qs ≡ true → map strip qs ≡ qs
map-strip_of_valid [] h = refl
map-strip_of_valid (q ∷ qs) h =
    ap₂ (λ (a : Str) (t : List Str). a ∷ t) (strip_lem q (valid_no_space q (ground arith)))
      (map-strip_of_valid qs (ground arith))

components-join :
    (q : Str) (qs : List Str)
    → all is_valid_qid (q ∷ qs) ≡ true
    → components (join b';' (q ∷ qs)) ≡ q ∷ qs
unfolding components
components-join q qs h =
    ap (map strip) (split-join b';' q qs (valid_parts (q ∷ qs) h)) ∙ map-strip_of_valid (q ∷ qs) h

-- Distinct valid identifiers, at least one, written with separators between them, are read back.
pub qids_from_osm_tag-join :
    (q : Str) (qs : List Str)
    → all is_valid_qid (q ∷ qs) ≡ true
    → distinct (q ∷ qs) ≡ true
    → qids_from_osm_tag (join b';' (q ∷ qs)) ≡ q ∷ qs
unfolding qids_from_osm_tag
qids_from_osm_tag-join q qs h d =
    rw (components-join q qs h) (rw h (from_keys_of_distinct (q ∷ qs) d))

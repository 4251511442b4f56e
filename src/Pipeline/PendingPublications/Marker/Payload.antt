-- ===== src/Pipeline/PendingPublications/Marker/Payload.antt =====
-- pipeline/pending_publications.py: the payload of a marker, read and compared again.
use osm_polygon_wikidata_onl.Prelude.{
  ap₂, str_beq_iff, length-sort, suc, ◌≡◌, refl, ap, ◌∙◌, sym, Bool, true, ◌||◌, List, [], ◌∷◌,
  Option, none, some, all, any, all_of_contains, contains, distinct, contains-sort, all-sort,
  length, nat_eq, Str, str_eq, str_beq, str_leq, ==_refl, sort, Dict, keys, get, ok, arith,
  contains-keys-sort, distinct-keys-sort, get_of_entry, pair_eq,
}
use osm_polygon_wikidata_onl.Json.{
  has_value_of_get, Json, text, listed, fields, entries, entries-fields, equals_text, has_value,
}
use osm_polygon_wikidata_onl.Pipeline.PendingPublications.{items_of}
use osm_polygon_wikidata_onl.Pipeline.PendingPublications.Loading.{distinct-sort}
use osm_polygon_wikidata_onl.Pipeline.PendingPublications.Marker.{
  is_sha256_hex, same_members, by_marker_stem, text_fields, envelope_marker_payload, are_stems,
  is_stem_list, is_hash_dict, is_marker_payload, is_hashable, validate_metadata_marker_keys,
  validate_each_stem, equal_scalars, distinct_values, validate_metadata_marker_stems,
  validate_each_hash, validate_metadata_marker_hashes, validated_metadata_marker,
}
use osm_polygon_wikidata_onl.Pipeline.PendingPublications.Marker.Accepted.{
  is_marker_stem, is_hash, is_hashed, hash_or_empty, selected, validate_marker_stem_shape_of_safe,
  validate_marker_hash_of_hash, validate_marker_hash_of_hash,
}

pub keys-selected :
    (hashes : Dict Str Str) (stems : List Str) → keys (selected hashes stems) ≡ stems
keys-selected hashes [] = refl
keys-selected hashes (stem ∷ stems) = ap (λ rest. stem ∷ rest) (keys-selected hashes stems)

keys-text_fields : (d : Dict Str Str) → keys (text_fields d) ≡ keys d
keys-text_fields [] = refl
keys-text_fields ((stem, hash) ∷ d) = ap (λ rest. stem ∷ rest) (keys-text_fields d)

get-text_fields :
    (k v : Str) (d : Dict Str Str) → get k d ≡ some v → get k (text_fields d) ≡ some (text v)
get-text_fields k v [] h = cc
get-text_fields k v ((j, w) ∷ d) h = ground (arith, get-text_fields k v d)

length-text_fields : (d : Dict Str Str) → length (text_fields d) ≡ length d
length-text_fields [] = refl
length-text_fields (x ∷ d) = ap suc (length-text_fields d)

are_stems_same : (stems : List Str) → are_stems stems (items_of stems) ≡ true
unfolding are_stems items_of equals_text
are_stems_same [] = refl
are_stems_same (stem ∷ stems) = rw (==_refl stem) (are_stems_same stems)

-- A stored hash passes the comparison.
has_hash :
    (d : Dict Str Str) (x : Str × Str)
    → distinct (keys d) ≡ true
    → contains d x ≡ true
    → has_value (equals_text x.1) x.0 (fields (text_fields (sort by_marker_stem d))) ≡ true
unfolding equals_text
has_hash d x u m =
    let stored =
      get_of_entry x.0 x.1 (sort by_marker_stem d) (distinct-keys-sort by_marker_stem d ∙ u)
        (contains-sort by_marker_stem d x ∙ m) in
    has_value_of_get (equals_text x.1) x.0 (fields (text_fields (sort by_marker_stem d))) (text x.1)
      (ap (get x.0) (entries-fields (text_fields (sort by_marker_stem d)))
        ∙ get-text_fields x.0 x.1 (sort by_marker_stem d) stored)
      (==_refl x.1)

-- The payload equals itself.
pub is_marker_payload_same :
    (stems : List Str) (d : Dict Str Str)
    → distinct (keys d) ≡ true
    → is_marker_payload stems d (some (envelope_marker_payload stems d)) ≡ true
unfolding is_marker_payload envelope_marker_payload is_stem_list is_hash_dict
is_marker_payload_same stems d u =
    rw
      (
        are_stems_same (sort str_leq stems),
        entries-fields (text_fields (sort by_marker_stem d)),
        length-text_fields (sort by_marker_stem d),
        length-sort by_marker_stem d,
        ==_refl ⦃eq = nat_eq⦄ (length d),
        all_of_contains _ d (λ x m. has_hash d x u m),
      )
      refl

all-is_hashable : (stems : List Str) → all is_hashable (listed (items_of stems)) ≡ true
unfolding items_of
all-is_hashable [] = refl
all-is_hashable (stem ∷ stems) = all-is_hashable stems

same_members_of_contains :
    (xs ys : List Str) → ((k : Str) → contains xs k ≡ contains ys k) → same_members xs ys ≡ true
same_members_of_contains xs ys h =
    rw
      (
        all_of_contains (contains ys) xs (λ a m. sym (h a) ∙ m),
        all_of_contains (contains xs) ys (λ a m. h a ∙ m),
      )
      refl

each_stem :
    (stems : List Str)
    → all is_marker_stem stems ≡ true
    → validate_each_stem (listed (items_of stems)) ≡ ok stems
unfolding items_of validate_each_stem
each_stem [] h = refl
each_stem (stem ∷ stems) h =
    rw
      (
        validate_marker_stem_shape_of_safe stem (ground (arith, h)),
        each_stem stems (ground (arith, h)),
      )
      refl

str_beq_sym : (a b : Str) → str_beq a b ≡ str_beq b a
str_beq_sym a b = ground (arith, str_beq_iff a b, str_beq_iff b a)

module _ (equal_floats : Json → Json → Bool) where
  any-equal :
      (stem : Str) (stems : List Str)
      → any (equal_scalars equal_floats (text stem)) (listed (items_of stems)) ≡ contains stems stem
  unfolding items_of equal_scalars
  any-equal stem [] = refl
  any-equal stem (other ∷ stems) =
      ap₂ (λ a b. a || b) (str_beq_sym stem other) (any-equal stem stems)

  distinct-values :
      (stems : List Str) → distinct_values equal_floats (listed (items_of stems)) ≡ distinct stems
  unfolding items_of distinct_values
  distinct-values [] = refl
  distinct-values (stem ∷ stems) = rw (any-equal stem stems, distinct-values stems) refl

  each_hash :
      (d : Dict Str Str)
      → all (λ (x : Str × Str). is_sha256_hex x.1) d ≡ true
      → validate_each_hash equal_floats (text_fields d) ≡ ok tt
  unfolding validate_each_hash
  each_hash [] h = refl
  each_hash (x ∷ d) h =
      let first : is_sha256_hex x.1 ≡ true = ground (arith, h) in
      rw (validate_marker_hash_of_hash x.1 first, each_hash d (ground (arith, h))) refl

  -- The payload of accepted stems and hashes is accepted by the reader.
  pub validated_metadata_marker_of_payload :
      (stems : List Str) (d : Dict Str Str)
      → distinct stems ≡ true
      → all is_marker_stem stems ≡ true
      → keys d ≡ stems
      → all (λ (x : Str × Str). is_sha256_hex x.1) d ≡ true
      → validated_metadata_marker equal_floats (envelope_marker_payload stems d)
        ≡ ok (envelope_marker_payload stems d)
  unfolding validated_metadata_marker envelope_marker_payload validate_metadata_marker_keys
      validate_metadata_marker_stems validate_metadata_marker_hashes
  validated_metadata_marker_of_payload stems d u safe named hashed =
      let sorted = sort str_leq stems in
      let ordered = sort by_marker_stem d in
      let members = λ (k : Str).
        ap (λ l. contains l k)
          (ap keys (entries-fields (text_fields ordered)) ∙ keys-text_fields ordered)
        ∙ contains-keys-sort by_marker_stem d k
        ∙ ap (λ l. contains l k) named
        ∙ sym (contains-sort str_leq stems k) in
      rw
        (
          all-is_hashable sorted,
          distinct-values sorted,
          distinct-sort stems,
          u,
          each_stem sorted (all-sort str_leq is_marker_stem stems ∙ safe),
          same_members_of_contains (keys (entries (fields (text_fields ordered)))) sorted members,
          entries-fields (text_fields ordered),
          each_hash ordered
              (all-sort by_marker_stem (λ (x : Str × Str). is_sha256_hex x.1) d ∙ hashed),
        )
        refl

pub all_hashes-selected :
    (hashes : Dict Str Str) (stems : List Str)
    → all (is_hashed hashes) stems ≡ true
    → all (λ (x : Str × Str). is_sha256_hex x.1) (selected hashes stems) ≡ true
all_hashes-selected hashes [] h = refl
all_hashes-selected hashes (stem ∷ stems) h =
    rw
      (
        found_hash (get stem hashes) (ground (arith, h)),
        all_hashes-selected hashes stems (ground (arith, h)),
      )
      refl
  where
    found_hash : (o : Option Str) → is_hash o ≡ true → is_sha256_hex (hash_or_empty o) ≡ true
    found_hash none k = cc k
    found_hash (some hash) k = k

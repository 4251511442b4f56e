-- ===== src/Pipeline/PendingPublications/Marker.antt =====
-- pipeline/pending_publications.py: the marker of a metadata refresh. The arguments of the setter have
-- their declared types, so its tests with `isinstance` pass.
pub mod Accepted
pub mod Payload
pub mod RoundTrip
pub mod Envelopes
use osm_polygon_wikidata_onl.Prelude.{
  ℕ, Bool, true, false, ◌&&◌, ◌||◌, not, List, [], ◌∷◌, map, Option, none, some, if◌then◌else◌,
  is_empty, all, any, contains, distinct, length, nat_beq, nat_eq, Str, codes, str_eq, str_beq,
  str_leq, ◌==◌, sort, Dict, keys, get, put, set_default, subset, Result, ok, err, value_error,
  type_error, key_error, guard, ◌>>◌, ◌>>=◌, traverse,
}
use osm_polygon_wikidata_onl.Json.{
  Json, null, boolean, number, fraction, text, array, object, Items, no_items, item, Fields, listed,
  fields, entries, equals_text, has_value,
}
use osm_polygon_wikidata_onl.Domain.Values.{ℤ, pos, int_beq}
use osm_polygon_wikidata_onl.Pipeline.PendingPublications.{
  Envelope, Stored, absent, malformed, no_object, holds, contract_version, load_envelope, items_of,
}

-- `is_sha256_hex` of a text
unfoldable pub is_sha256_hex : Str → Bool
is_sha256_hex value = nat_beq (length value) 64 && all (contains (codes "0123456789abcdef")) value

unfoldable pub validate_marker_stem_shape : Str → Result Str
validate_marker_stem_shape stem = do
  _ ← guard (not (is_empty stem)) value_error
  _ ← guard (not (contains stem b'/' || contains stem b'\\')) value_error
  _ ← guard (not (stem == codes "." || stem == codes "..")) value_error
  ok stem

unfoldable pub validate_marker_hash : Json → Result Str
validate_marker_hash (text value) = guard (is_sha256_hex value) value_error >> ok value
validate_marker_hash _ = err value_error

abbrev pub same_members : List Str → List Str → Bool
same_members xs ys = subset xs ys && subset ys xs

unfoldable pub validate_marker_collections : List Str → Dict Str Str → Result (Unit {0})
validate_marker_collections stems fingerprint_hashes =
    guard (not (is_empty stems)) value_error
    >> guard (distinct stems) value_error
    >> guard (same_members (keys fingerprint_hashes) stems) value_error

-- one entry of the comprehension, with what `fingerprint_hashes[stem]` finds
unfoldable pub hash_entry : Str → Option Str → Result (Str × Str)
hash_entry stem none = err key_error
hash_entry stem (some value) = validate_marker_hash (text value) >>= λ hash. ok (stem, hash)

unfoldable pub marker_entry : Dict Str Str → Str → Result (Str × Str)
marker_entry fingerprint_hashes stem = hash_entry stem (get stem fingerprint_hashes)

unfoldable pub validated_marker_inputs : List Str → Dict Str Str → Result (List Str × Dict Str Str)
validated_marker_inputs stems fingerprint_hashes =
    validate_marker_collections stems fingerprint_hashes
    >> (traverse validate_marker_stem_shape stems >>= λ valid.
        traverse (marker_entry fingerprint_hashes) valid >>= λ hashes. ok (valid, hashes))

abbrev pub by_marker_stem : Str × Str → Str × Str → Bool
by_marker_stem a b = str_leq a.0 b.0

abbrev pub text_fields : Dict Str Str → Dict Str Json
text_fields [] = []
text_fields ((stem, hash) ∷ rest) = (stem, text hash) ∷ text_fields rest

unfoldable pub envelope_marker_payload : List Str → Dict Str Str → Json
envelope_marker_payload stems hashes = object (
    fields (
      (codes "stems", array (items_of (sort str_leq stems)))
      ∷ (codes "fingerprint_hashes", object (fields (text_fields (sort by_marker_stem hashes))))
      ∷ []))

-- `envelope.get("metadata_refresh") == marker_payload`, where the order of keys does not matter
unfoldable pub are_stems : List Str → Items → Bool
are_stems [] no_items = true
are_stems (stem ∷ stems) (item value rest) = equals_text stem value && are_stems stems rest
are_stems _ _ = false

unfoldable pub is_stem_list : List Str → Json → Bool
is_stem_list stems (array values) = are_stems stems values
is_stem_list stems _ = false

unfoldable pub is_hash_dict : Dict Str Str → Json → Bool
is_hash_dict hashes (object o) =
    nat_beq (length (entries o)) (length hashes)
    && all (λ (entry : Str × Str). has_value (equals_text entry.1) entry.0 o) hashes
is_hash_dict hashes _ = false

unfoldable pub is_marker_payload : List Str → Dict Str Str → Option Json → Bool
is_marker_payload stems hashes (some (object o)) =
    nat_beq (length (entries o)) 2
    && has_value (is_stem_list (sort str_leq stems)) (codes "stems") o
    && has_value (is_hash_dict hashes) (codes "fingerprint_hashes") o
is_marker_payload stems hashes _ = false

abbrev pub exists_file : Stored → Bool
exists_file absent = false
exists_file _ = true

unfoldable pub with_marker_payload : Envelope → Json → Envelope
with_marker_payload envelope payload =
    set_default (codes "contract_version") (text contract_version) (
      set_default (codes "stems") (array no_items)
        (put (codes "metadata_refresh") payload envelope))

-- The new file; the same marker is not written again.
unfoldable pub set_metadata_refresh_marker : Stored → List Str → Dict Str Str → Result Stored
set_metadata_refresh_marker file stems fingerprint_hashes =
    validated_marker_inputs stems fingerprint_hashes >>= λ inputs.
    load_envelope file >>= λ envelope. ok (
      if is_marker_payload inputs.0 inputs.1 (get (codes "metadata_refresh") envelope)
        && exists_file file
      then file
      else holds (with_marker_payload envelope (envelope_marker_payload inputs.0 inputs.1)))

-- `set(values)` raises on a list or a dictionary.
abbrev pub is_hashable : Json → Bool
is_hashable (array _) = false
is_hashable (object _) = false
is_hashable _ = true

-- a number as an integer, and True and False as 1 and 0
abbrev pub as_integer : Json → Option ℤ
as_integer (number n) = some n
as_integer (boolean true) = some (pos 1)
as_integer (boolean false) = some (pos 0)
as_integer _ = none

-- `keys.keys() == {...}`
unfoldable pub validate_metadata_marker_keys : Fields → Result (Unit {0})
validate_metadata_marker_keys o =
    guard (same_members (keys (entries o)) (codes "stems" ∷ codes "fingerprint_hashes" ∷ []))
      value_error

unfoldable pub validate_each_stem : List Json → Result (List Str)
validate_each_stem [] = ok []
validate_each_stem (text stem ∷ rest) = validate_marker_stem_shape stem >>= λ valid.
    validate_each_stem rest >>= λ stems. ok (valid ∷ stems)
validate_each_stem (_ ∷ rest) = err type_error

abbrev pub or_key_error : Option Json → Result Json
or_key_error none = err key_error
or_key_error (some v) = ok v

-- Whether two numbers of which one has a fraction or an exponent are equal is a parameter.
module _ (equal_floats : Json → Json → Bool) where
  abbrev pub equal_numbers : Option ℤ → Option ℤ → Bool → Bool
  equal_numbers (some a) (some b) floats = int_beq a b
  equal_numbers _ _ floats = floats

  -- `==` of two values that can be hashed
  unfoldable pub equal_scalars : Json → Json → Bool
  equal_scalars null null = true
  equal_scalars null _ = false
  equal_scalars (text a) (text b) = str_beq a b
  equal_scalars (text a) _ = false
  equal_scalars a null = false
  equal_scalars a (text b) = false
  equal_scalars a b = equal_numbers (as_integer a) (as_integer b) (equal_floats a b)

  unfoldable pub distinct_values : List Json → Bool
  distinct_values [] = true
  distinct_values (value ∷ rest) = not (any (equal_scalars value) rest) && distinct_values rest

  unfoldable pub validate_metadata_marker_stems : Json → Result (List Str)
  validate_metadata_marker_stems (array stems) = do
    _ ← guard (all is_hashable (listed stems)) type_error
    _ ← guard (distinct_values (listed stems)) value_error
    validate_each_stem (listed stems)
  validate_metadata_marker_stems _ = err type_error

  unfoldable pub validate_each_hash : Dict Str Json → Result (Unit {0})
  validate_each_hash [] = ok tt
  validate_each_hash ((key, value) ∷ rest) =
      validate_marker_hash value >>= λ hash. validate_each_hash rest

  unfoldable pub validate_metadata_marker_hashes : Json → List Str → Result (Unit {0})
  validate_metadata_marker_hashes (object hashes) stems =
      guard (same_members (keys (entries hashes)) stems) value_error
      >> validate_each_hash (entries hashes)
  validate_metadata_marker_hashes _ stems = err type_error

  unfoldable pub validated_metadata_marker : Json → Result Json
  validated_metadata_marker (object o) = do
    _ ← validate_metadata_marker_keys o
    raw_stems ← or_key_error (get (codes "stems") (entries o))
    stems ← validate_metadata_marker_stems raw_stems
    raw_hashes ← or_key_error (get (codes "fingerprint_hashes") (entries o))
    _ ← validate_metadata_marker_hashes raw_hashes stems
    ok (object o)
  validated_metadata_marker _ = err type_error

  unfoldable pub marker_value : Option Json → Result (Option Json)
  marker_value none = ok none
  marker_value (some value) = validated_metadata_marker value >>= λ marker. ok (some marker)

  unfoldable pub marker_in : Envelope → Result (Option Json)
  marker_in envelope = marker_value (get (codes "metadata_refresh") envelope)

  unfoldable pub load_metadata_refresh_marker : Stored → Result (Option Json)
  load_metadata_refresh_marker absent = ok none
  load_metadata_refresh_marker file = load_envelope file >>= marker_in

-- ===== src/Pipeline/PendingPublications/Marker/Accepted.antt =====
-- pipeline/pending_publications.py: what the setter of the marker accepts, and what the reader makes of it.
use osm_polygon_wikidata_onl.Prelude.{
  ◌≡◌, refl, Bool, true, false, ◌&&◌, ◌||◌, not, List, [], ◌∷◌, Option, none, some, is_empty, all,
  contains, distinct, nat_eq, Str, codes, str_eq, ◌==◌, Dict, keys, get, ok, traverse, arith,
  pair_eq,
}
use osm_polygon_wikidata_onl.Json.{text}
use osm_polygon_wikidata_onl.Pipeline.PendingPublications.Marker.{
  is_sha256_hex, validate_marker_stem_shape, validate_marker_hash, same_members,
  validate_marker_collections, hash_entry, marker_entry, validated_marker_inputs,
}

-- A stem that is one component of a path.
unfoldable pub is_marker_stem : Str → Bool
is_marker_stem stem =
    not (is_empty stem)
    && not (contains stem b'/' || contains stem b'\\')
    && not (stem == codes "." || stem == codes "..")

abbrev pub hash_or_empty : Option Str → Str
hash_or_empty none = []
hash_or_empty (some hash) = hash

abbrev pub is_hash : Option Str → Bool
is_hash none = false
is_hash (some hash) = is_sha256_hex hash

-- the stem has a hash, of the right form
abbrev pub is_hashed : Dict Str Str → Str → Bool
is_hashed hashes stem = is_hash (get stem hashes)

-- the hashes of the stems, in their order
abbrev pub selected : Dict Str Str → List Str → Dict Str Str
selected hashes [] = []
selected hashes (stem ∷ stems) = (stem, hash_or_empty (get stem hashes)) ∷ selected hashes stems

-- What the setter asks of its arguments.
pub record IsAccepted (stems : List Str) (hashes : Dict Str Str) : Type 0 where
  pub some_stem : not (is_empty stems) ≡ true
  pub unique : distinct stems ≡ true
  pub same_keys : same_members (keys hashes) stems ≡ true
  pub safe : all is_marker_stem stems ≡ true
  pub hashed : all (is_hashed hashes) stems ≡ true

pub validate_marker_stem_shape_of_safe :
    (stem : Str) → is_marker_stem stem ≡ true → validate_marker_stem_shape stem ≡ ok stem
unfolding validate_marker_stem_shape is_marker_stem
validate_marker_stem_shape_of_safe stem h = ground (arith, h)

validated_stems :
    (stems : List Str)
    → all is_marker_stem stems ≡ true
    → traverse validate_marker_stem_shape stems ≡ ok stems
validated_stems [] h = refl
validated_stems (stem ∷ stems) h =
    rw
      (
        validate_marker_stem_shape_of_safe stem (ground (arith, h)),
        validated_stems stems (ground (arith, h)),
      )
      refl

pub validate_marker_hash_of_hash :
    (hash : Str) → is_sha256_hex hash ≡ true → validate_marker_hash (text hash) ≡ ok hash
unfolding validate_marker_hash
validate_marker_hash_of_hash hash h = rw h refl

hash_entry_of_hash :
    (stem : Str) (found : Option Str)
    → is_hash found ≡ true
    → hash_entry stem found ≡ ok (stem, hash_or_empty found)
unfolding hash_entry
hash_entry_of_hash stem none h = absurd (cc h)
hash_entry_of_hash stem (some hash) h = rw (validate_marker_hash_of_hash hash h) refl

selected_entries :
    (hashes : Dict Str Str) (stems : List Str)
    → all (is_hashed hashes) stems ≡ true
    → traverse (marker_entry hashes) stems ≡ ok (selected hashes stems)
unfolding marker_entry
selected_entries hashes [] h = refl
selected_entries hashes (stem ∷ stems) h =
    rw
      (
        hash_entry_of_hash stem (get stem hashes) (ground (arith, h)),
        selected_entries hashes stems (ground (arith, h)),
      )
      refl

pub validated_marker_inputs_of_accepted :
    (stems : List Str) (hashes : Dict Str Str)
    → IsAccepted stems hashes
    → validated_marker_inputs stems hashes ≡ ok (stems, selected hashes stems)
unfolding validated_marker_inputs validate_marker_collections
validated_marker_inputs_of_accepted stems hashes a =
    rw
      (
        a.some_stem,
        a.unique,
        a.same_keys,
        validated_stems stems a.safe,
        selected_entries hashes stems a.hashed,
      )
      refl

-- ===== src/Grid5000/Manifest.antt =====
-- grid5000/sentence_protocol.py: whether an incoming sentence manifest extends the local one. JSON values
-- are an interface: what the code's `isinstance` tests see of them, and `==`.
pub mod Extension
use osm_polygon_wikidata_onl.Prelude.{
  Bool, true, false, ◌&&◌, not, List, [], ◌∷◌, Option, none, some, if◌then◌else◌, all, any,
  contains, is_empty, Str, codes, str_eq, pair_eq, ◌==◌, Eq, Dict, get, has, put, Result, ok, err,
  value_error, ◌>>=◌, ◌>>◌, guard,
}

pub record JsonView : Type 1 where
  pub Json : Type 0
  pub equal : Eq Json
  -- what `isinstance(value, list)`, `Mapping` and `str` find
  pub as_list : Json → Option (List Json)
  pub as_mapping : Json → Option (Dict Str Json)
  pub as_str : Json → Option Str

abbrev pub required : {A : Type 0} → Option A → Result A
required none = err value_error
required (some a) = ok a

-- `_MANIFEST_INVARIANT_KEYS`
abbrev pub manifest_invariant_keys : List Str
manifest_invariant_keys =
    codes "contract_version"
    ∷ codes "segmenter"
    ∷ codes "model_id"
    ∷ codes "model_revision"
    ∷ codes "segmenter_version"
    ∷ codes "supported_languages"
    ∷ codes "unsupported_language_policy"
    ∷ []

module _ (view : JsonView) where
  open view use {Json, as_list, as_mapping, as_str}

  instance abbrev pub json_eq : Eq Json
  json_eq = view.equal

  abbrev pub Mapping : Type 0
  Mapping = Dict Str Json

  -- The regions of a manifest by stem and project.
  abbrev pub Regions : Type 0
  Regions = Dict (Str × Str) Mapping

  -- the value of a key, when it is of the type that a view asks for
  abbrev pub lookup : {A : Type 0} → (Json → Option A) → Str → Mapping → Option A
  lookup as_type key m = elim (get key m) [ none ↦ none | some value ↦ as_type value ]

  -- `_manifest_region_identity`
  unfoldable pub manifest_region_identity : Json → Result ((Str × Str) × Mapping)
  manifest_region_identity raw = required (as_mapping raw) >>= λ region.
      required (lookup as_str (codes "stem") region) >>= λ stem.
      required (lookup as_str (codes "project") region) >>= λ project. ok ((stem, project), region)

  -- the loop of `_manifest_regions`
  unfoldable pub add_regions : Regions → List Json → Result Regions
  unfolding manifest_region_identity
  add_regions regions [] = ok regions
  add_regions regions (raw ∷ rest) = manifest_region_identity raw >>= λ entry.
      guard (not (has entry.0 regions)) value_error
      >> add_regions (put entry.0 entry.1 regions) rest

  unfoldable pub manifest_regions : Mapping → Result Regions
  unfolding add_regions
  manifest_regions payload = required (lookup as_list (codes "regions") payload) >>= add_regions []

  -- whether a key is in both mappings with equal values
  abbrev pub agrees : Mapping → Mapping → Str → Bool
  agrees local incoming key = elim (get key local) [
    | none ↦ false
    | some a ↦ elim (get key incoming) [ none ↦ false | some b ↦ a == b ]
  ]

  unfoldable pub validate_manifest_invariants : Mapping → Mapping → Result (Unit {0})
  validate_manifest_invariants local incoming =
      guard (all (agrees local incoming) manifest_invariant_keys) value_error

  abbrev pub some_equal : Option Json → Json → Bool
  some_equal none value = false
  some_equal (some found) value = found == value

  -- `dict(a) == dict(b)`: the same keys with equal values, in any order
  abbrev pub covers : Mapping → Mapping → Bool
  covers a b = all (λ (e : Str × Json). some_equal (get e.0 a) e.1) b

  unfoldable pub same_mapping : Mapping → Mapping → Bool
  same_mapping a b = covers a b && covers b a

  -- whether the incoming regions have one unchanged
  abbrev pub kept_in : Regions → (Str × Str) × Mapping → Bool
  kept_in incoming e = elim (get e.0 incoming) [
    | none ↦ false
    | some region ↦ same_mapping region e.1
  ]

  unfoldable pub validate_existing_regions : Regions → Regions → Result (Unit {0})
  unfolding same_mapping
  validate_existing_regions local incoming = guard (all (kept_in incoming) local) value_error

  abbrev pub has_stem : Regions → Str → Bool
  has_stem regions stem = any (λ (e : (Str × Str) × Mapping). e.0.0 == stem) regions

  unfoldable pub validate_selected_stems : Regions → List Str → Result (Unit {0})
  validate_selected_stems incoming selected =
      guard (not (is_empty selected)) value_error
      >> guard (all (has_stem incoming) selected) value_error

  unfoldable pub validate_manifest_extension : Mapping → Mapping → List Str → Result (Unit {0})
  unfolding manifest_regions validate_manifest_invariants validate_existing_regions
      validate_selected_stems
  validate_manifest_extension local incoming selected = manifest_regions local >>= λ local_regions.
      manifest_regions incoming >>= λ incoming_regions.
      validate_manifest_invariants local incoming
      >> (validate_existing_regions local_regions incoming_regions
          >> validate_selected_stems incoming_regions selected)

-- ===== src/Pipeline/PendingPublications/Marker/Envelopes.antt =====
-- pipeline/pending_publications.py: what an envelope has after it got a marker.
use osm_polygon_wikidata_onl.Prelude.{
  ok_injective, ◌≡◌, refl, ap, ◌∙◌, sym, true, List, Option, none, some, Str, codes, str_eq, get,
  put, get-put, set_default, get-set_default-other, get-set_default-kept, ok, ◌>>=◌, >>=-eq-ok,
}
use osm_polygon_wikidata_onl.Json.{
  Json, null, boolean, number, fraction, text, array, object, Items, no_items,
}
use osm_polygon_wikidata_onl.Pipeline.PendingPublications.{
  Envelope, holds, contract_version, has_version, load_envelope, list_of, pending_stem_values,
  validate_pending_stem_values, load_pending_publications,
}
use osm_polygon_wikidata_onl.Pipeline.PendingPublications.Loading.{
  version-loads, loaded_version, opened-loads,
}
use osm_polygon_wikidata_onl.Pipeline.PendingPublications.Marker.{with_marker_payload}

-- What `with_marker_payload` leaves under each key.
module _ (envelope : Envelope) (payload : Json) where
  abbrev marked : Envelope
  marked = put (codes "metadata_refresh") payload envelope

  abbrev with_stems : Envelope
  with_stems = set_default (codes "stems") (array no_items) marked

  pub marker_there :
      get (codes "metadata_refresh") (with_marker_payload envelope payload) ≡ some payload
  unfolding with_marker_payload
  marker_there =
      get-set_default-other (codes "contract_version") (codes "metadata_refresh")
        (text contract_version) with_stems refl
      ∙ get-set_default-other (codes "stems") (codes "metadata_refresh") (array no_items) marked
          refl
      ∙ get-put (codes "metadata_refresh") (codes "metadata_refresh") payload envelope

  pub stems_there :
      (value : Json)
      → get (codes "stems") envelope ≡ some value
      → get (codes "stems") (with_marker_payload envelope payload) ≡ some value
  unfolding with_marker_payload
  stems_there value h =
      get-set_default-other (codes "contract_version") (codes "stems") (text contract_version)
        with_stems refl
      ∙ get-set_default-kept (codes "stems") (array no_items) value marked
          (get-put (codes "metadata_refresh") (codes "stems") payload envelope ∙ h)

  pub version_there :
      (value : Json)
      → get (codes "contract_version") envelope ≡ some value
      → get (codes "contract_version") (with_marker_payload envelope payload) ≡ some value
  unfolding with_marker_payload
  version_there value h =
      get-set_default-kept (codes "contract_version") (text contract_version) value with_stems (
        get-set_default-other (codes "stems") (codes "contract_version") (array no_items) marked
          refl
        ∙ get-put (codes "metadata_refresh") (codes "contract_version") payload envelope
        ∙ h)

list_found : (o : Option Json) (items : Items) → list_of o ≡ ok items → o ≡ some (array items)
unfolding list_of
list_found none items h = cc
list_found (some (array values)) items h = ap (λ v. some (array v)) (ok_injective h)
list_found (some null) items h = cc
list_found (some (boolean b)) items h = cc
list_found (some (number n)) items h = cc
list_found (some (fraction f)) items h = cc
list_found (some (text t)) items h = cc
list_found (some (object o)) items h = cc

version_found : (o : Option Json) → has_version o ≡ true → (value : Json) × (o ≡ some value)
unfolding has_version
version_found none h = absurd (cc h)
version_found (some value) h = (value, refl)

-- The list and the version of an envelope stay where it gets a marker.
module _ (content : Envelope) (current : List Str) (payload : Json)
    (opened : load_envelope (holds content) ≡ ok content)
    (listed : load_pending_publications (holds content) ≡ ok current) where
  pub reopened :
      load_envelope (holds (with_marker_payload content payload))
      ≡ ok (with_marker_payload content payload)
  reopened =
      let version = loaded_version content opened in
      let (value, found) = version_found (get (codes "contract_version") content) version in
      version-loads (with_marker_payload content payload)
        (ap has_version (version_there content payload value found ∙ sym found) ∙ version)

  same_values :
      pending_stem_values (with_marker_payload content payload) ≡ pending_stem_values content
  unfolding pending_stem_values
  same_values =
      let (items, read, checked) =
        >>=-eq-ok (pending_stem_values content) validate_pending_stem_values
          (sym (opened-loads content opened) ∙ listed) in
      let found = list_found (get (codes "stems") content) items read in
      ap list_of (stems_there content payload (array items) found ∙ sym found)

  pub stems_kept_beside :
      load_pending_publications (holds (with_marker_payload content payload)) ≡ ok current
  stems_kept_beside =
      opened-loads (with_marker_payload content payload) reopened
      ∙ ap (λ r. r >>= validate_pending_stem_values) same_values
      ∙ sym (opened-loads content opened)
      ∙ listed

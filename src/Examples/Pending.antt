-- ===== src/Examples/Pending.antt =====
-- A list of two pending stems beside a marker, changed by two threads.
use osm_polygon_wikidata_onl.Prelude.{
  Dict, false, ◌≡◌, refl, true, not, ◌||◌, ◌&&◌, List, [], ◌∷◌, ◌++◌, Str, codes, str_eq, contains,
  filter, all, ok,
}
use osm_polygon_wikidata_onl.Domain.Stems.{is_safe_stem}
use osm_polygon_wikidata_onl.Json.{text, array, boolean, item, no_items}
use osm_polygon_wikidata_onl.Pipeline.PendingPublications.{
  Stored, holds, contract_version, load_pending_publications, save_pending_publications,
  add_pending_publications,
}
use osm_polygon_wikidata_onl.Pipeline.PendingPublications.Laws.{
  Saves, add_pending_publications_lem, stale_removal_loses,
}
use osm_polygon_wikidata_onl.Pipeline.PendingPublications.Marker.{is_sha256_hex}
use osm_polygon_wikidata_onl.Pipeline.PendingPublications.Marker.Accepted.{
  IsAccepted, is_marker_stem,
}
use osm_polygon_wikidata_onl.Pipeline.PendingPublications.Marker.RoundTrip.{
  SetsMarker, set_metadata_refresh_marker_lem,
}

abbrev pending : List Str
pending = codes "malta" ∷ codes "andorra" ∷ []

abbrev file : Stored
file = holds (
    (codes "contract_version", text contract_version)
    ∷ (codes "metadata_refresh", boolean true)
    ∷ (codes "stems", array (item (text (codes "malta")) (item (text (codes "andorra")) no_items)))
    ∷ [])

file_loads : load_pending_publications file ≡ ok pending
unfolding load_pending_publications
file_loads = refl

abbrev new_stems : List Str
new_stems = codes "monaco" ∷ []

abbrev done_stems : List Str
done_stems = codes "malta" ∷ []

new_stems_safe : all is_safe_stem new_stems ≡ true
unfolding is_safe_stem
new_stems_safe = refl

add_pending_publications_lem_example :
    Saves file
      (λ a. contains pending a || contains new_stems a)
      (add_pending_publications file new_stems)
add_pending_publications_lem_example =
    add_pending_publications_lem file pending new_stems file_loads new_stems_safe

stale_removal_loses_example :
    (between : Stored) × (save_pending_publications file (pending ++ new_stems) ≡ ok between)
    × Saves between
        (λ a. contains pending a && not (contains done_stems a))
        (save_pending_publications between (filter (λ a. not (contains done_stems a)) pending))
stale_removal_loses_example =
    stale_removal_loses file pending new_stems done_stems file_loads new_stems_safe

abbrev hashes : Dict Str Str
hashes =
    (codes "monaco", codes "0123456789abcdef0123456789abcdef0123456789abcdef0123456789abcdef") ∷ []

hashes-IsAccepted : IsAccepted new_stems hashes
unfolding is_marker_stem is_sha256_hex
hashes-IsAccepted = record {
  some_stem = refl;
  unique = refl;
  same_keys = refl;
  safe = refl;
  hashed = refl;
}

set_metadata_refresh_marker_lem_example : SetsMarker (λ a b. false) file pending new_stems hashes
set_metadata_refresh_marker_lem_example =
    set_metadata_refresh_marker_lem (λ a b. false) file pending new_stems hashes file_loads
      hashes-IsAccepted

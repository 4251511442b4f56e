-- ===== src/Pipeline/PendingPublications.antt =====
-- pipeline/pending_publications.py: the durable list of stems that are still to be published, kept in
-- one envelope with the marker of a metadata refresh.
pub mod Loading
pub mod Laws
pub mod Marker
use osm_polygon_wikidata_onl.Prelude.{
  ℕ, Bool, true, false, not, List, [], ◌∷◌, ◌++◌, Option, none, some, if◌then◌else◌, is_empty,
  filter, contains, distinct, Str, codes, str_eq, ◌==◌, str_leq, sort, Dict, get, put, erase, has,
  Result, ok, err, value_error, type_error, guard, ◌>>◌, ◌>>=◌, traverse,
}
use osm_polygon_wikidata_onl.Json.{
  Json, null, boolean, number, fraction, text, array, object, Items, no_items, item,
}
use osm_polygon_wikidata_onl.Domain.Stems.{is_safe_stem}
use osm_polygon_wikidata_onl.Pipeline.SyncPlanning.{set_of}

abbrev pub Envelope : Type 0
Envelope = Dict Str Json

-- The file: it is missing, it cannot be decoded, it holds something else than an object, or an object.
pub data Stored : Type 0 where
  absent malformed no_object : Stored
  holds : Envelope → Stored

abbrev pub contract_version : Str
contract_version = codes "pending-publications-v1"

unfoldable pub has_version : Option Json → Bool
has_version (some (text version)) = version == contract_version
has_version _ = false

unfoldable pub load_envelope : Stored → Result Envelope
unfolding has_version
load_envelope absent = ok []
load_envelope malformed = err value_error
load_envelope no_object = err type_error
load_envelope (holds content) =
    guard (has_version (get (codes "contract_version") content)) value_error >> ok content

-- `_validate_stem`
unfoldable pub validate_stem : Str → Result Str
unfolding is_safe_stem
validate_stem stem = guard (is_safe_stem stem) value_error >> ok stem

-- `None` stands for a missing field too
unfoldable pub list_of : Option Json → Result Items
list_of (some (array stems)) = ok stems
list_of _ = err type_error

unfoldable pub pending_stem_values : Envelope → Result Items
unfolding list_of
pending_stem_values content = list_of (get (codes "stems") content)

-- the loop of `_validate_pending_stem_values`
unfoldable pub stems_of_items : Items → Result (List Str)
unfolding validate_stem
stems_of_items no_items = ok []
stems_of_items (item (text stem) items) =
    validate_stem stem >>= λ safe. stems_of_items items >>= λ stems. ok (safe ∷ stems)
stems_of_items (item _ items) = err type_error

unfoldable pub validate_pending_stem_values : Items → Result (List Str)
unfolding stems_of_items
validate_pending_stem_values items =
    stems_of_items items >>= λ stems. guard (distinct stems) value_error >> ok stems

unfoldable pub load_pending_publications : Stored → Result (List Str)
unfolding load_envelope pending_stem_values validate_pending_stem_values
load_pending_publications absent = ok []
load_pending_publications file =
    load_envelope file >>= λ content. pending_stem_values content >>= validate_pending_stem_values

unfoldable pub items_of : List Str → Items
items_of [] = no_items
items_of (stem ∷ stems) = item (text stem) (items_of stems)

-- The new file; the old one stays where this raises.
unfoldable pub save_pending_publications : Stored → List Str → Result Stored
unfolding validate_stem load_envelope items_of set_of
save_pending_publications file stems = traverse validate_stem stems >>= λ validated.
    load_envelope file >>= λ envelope. ok (
      holds (
        put (codes "stems") (array (items_of (sort str_leq (set_of validated))))
          (put (codes "contract_version") (text contract_version) envelope)))

unfoldable pub add_pending_publications : Stored → List Str → Result Stored
unfolding load_pending_publications save_pending_publications
add_pending_publications file stems =
    if is_empty stems
    then ok file
    else load_pending_publications file >>= λ current.
        save_pending_publications file (current ++ stems)

unfoldable pub remove_pending_publications : Stored → List Str → Result Stored
unfolding load_pending_publications save_pending_publications
remove_pending_publications file stems =
    if is_empty stems
    then ok file
    else load_pending_publications file >>= λ current.
        save_pending_publications file (filter (λ stem. not (contains stems stem)) current)

-- without the key, the file is not written
unfoldable pub without_marker : Stored → Envelope → Stored
without_marker file envelope =
    if has (codes "metadata_refresh") envelope
    then holds (erase (codes "metadata_refresh") envelope)
    else file

unfoldable pub clear_metadata_refresh_marker : Stored → Result Stored
unfolding load_envelope without_marker
clear_metadata_refresh_marker absent = ok absent
clear_metadata_refresh_marker file =
    load_envelope file >>= λ envelope. ok (without_marker file envelope)

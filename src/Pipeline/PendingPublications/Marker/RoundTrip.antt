-- ===== src/Pipeline/PendingPublications/Marker/RoundTrip.antt =====
-- pipeline/pending_publications.py: a marker that is set is read again, beside the list of stems.
use osm_polygon_wikidata_onl.Prelude.{
  ◌≡◌, refl, ap, ◌∙◌, Bool, true, false, ◌&&◌, List, [], some, distinct, Str, codes, str_eq, Dict,
  get, ok, ◌>>=◌, Bool-cases, inl, inr,
}
use osm_polygon_wikidata_onl.Json.{Json}
use osm_polygon_wikidata_onl.Pipeline.PendingPublications.{
  Envelope, Stored, absent, malformed, no_object, holds, has_version, load_envelope, list_of,
  pending_stem_values, validate_pending_stem_values, stems_of_items, load_pending_publications,
}
use osm_polygon_wikidata_onl.Pipeline.PendingPublications.Loading.{
  loaded, version-loads, loaded_version,
}
use osm_polygon_wikidata_onl.Pipeline.PendingPublications.Marker.{
  envelope_marker_payload, is_marker_payload, exists_file, with_marker_payload,
  set_metadata_refresh_marker, marker_value, marker_in, load_metadata_refresh_marker,
}
use osm_polygon_wikidata_onl.Pipeline.PendingPublications.Marker.Accepted.{
  selected, IsAccepted, validated_marker_inputs_of_accepted,
}
use osm_polygon_wikidata_onl.Pipeline.PendingPublications.Marker.Payload.{
  keys-selected, is_marker_payload_same, validated_metadata_marker_of_payload, all_hashes-selected,
}
use osm_polygon_wikidata_onl.Pipeline.PendingPublications.Marker.Envelopes.{
  marker_there, reopened, stems_kept_beside,
}

-- Whether the file holds the marker already.
unfoldable pub holds_marker : Stored → List Str → Dict Str Str → Bool
holds_marker (holds content) stems hashes =
    is_marker_payload stems (selected hashes stems) (get (codes "metadata_refresh") content)
holds_marker _ stems hashes = false

-- The marker has been set: the list is what it was, setting it again changes nothing, and it is read
-- as it was set, unless it was there before.
pub record SetsMarker (equal_floats : Json → Json → Bool) (file : Stored) (current stems : List Str)
    (hashes : Dict Str Str) : Type 0 where
  pub new_file : Stored
  pub written : set_metadata_refresh_marker file stems hashes ≡ ok new_file
  pub stems_kept : load_pending_publications new_file ≡ ok current
  pub set_again : set_metadata_refresh_marker new_file stems hashes ≡ ok new_file
  pub reloaded :
      holds_marker file stems hashes ≡ false
      → load_metadata_refresh_marker equal_floats new_file
        ≡ ok (some (envelope_marker_payload stems (selected hashes stems)))

module _ (equal_floats : Json → Json → Bool) (stems : List Str) (hashes : Dict Str Str)
    (accepted : IsAccepted stems hashes) where
  abbrev set_payload : Json
  set_payload = envelope_marker_payload stems (selected hashes stems)

  set_again_of_marker :
      (envelope : Envelope)
      → load_envelope (holds envelope) ≡ ok envelope
      → is_marker_payload stems (selected hashes stems) (get (codes "metadata_refresh") envelope)
        ≡ true
      → set_metadata_refresh_marker (holds envelope) stems hashes ≡ ok (holds envelope)
  unfolding set_metadata_refresh_marker
  set_again_of_marker envelope opened same =
      rw (validated_marker_inputs_of_accepted stems hashes accepted, opened, same) refl

  -- The setter on a file that does not hold the marker.
  fresh :
      (file : Stored) (envelope : Envelope)
      → load_envelope file ≡ ok envelope
      → (is_marker_payload stems (selected hashes stems) (get (codes "metadata_refresh") envelope)
          && exists_file file)
        ≡ false
      → set_metadata_refresh_marker file stems hashes
        ≡ ok (holds (with_marker_payload envelope set_payload))
  unfolding set_metadata_refresh_marker
  fresh file envelope opened other =
      rw (validated_marker_inputs_of_accepted stems hashes accepted, opened, other) refl

  -- The marker of an envelope that has just got it.
  payload_value : marker_value equal_floats (some set_payload) ≡ ok (some set_payload)
  unfolding marker_value
  payload_value =
      ap (λ r. r >>= λ marker. ok (some marker))
        (validated_metadata_marker_of_payload equal_floats stems (selected hashes stems)
          accepted.unique accepted.safe (keys-selected hashes stems)
          (all_hashes-selected hashes stems accepted.hashed))

  reads_marker :
      (envelope : Envelope)
      → load_envelope (holds envelope) ≡ ok envelope
      → get (codes "metadata_refresh") envelope ≡ some set_payload
      → load_metadata_refresh_marker equal_floats (holds envelope) ≡ ok (some set_payload)
  unfolding load_metadata_refresh_marker marker_in
  reads_marker envelope opened there =
      ap (λ r. r >>= marker_in equal_floats) opened
      ∙ ap (marker_value equal_floats) there
      ∙ payload_value

  marked_again :
      (envelope : Envelope)
      → load_envelope (holds envelope) ≡ ok envelope
      → get (codes "metadata_refresh") envelope ≡ some set_payload
      → set_metadata_refresh_marker (holds envelope) stems hashes ≡ ok (holds envelope)
  marked_again envelope opened there = set_again_of_marker envelope opened (
      ap (is_marker_payload stems (selected hashes stems)) there
      ∙ is_marker_payload_same stems (selected hashes stems)
          (ap distinct (keys-selected hashes stems) ∙ accepted.unique))

and_false : (b : Bool) → (b && false) ≡ false
and_false true = refl
and_false false = refl

-- In a file that does not exist the list is empty, and it stays empty.
new_file_lem :
    (payload : Json)
    → (load_envelope (holds (with_marker_payload [] payload)) ≡ ok (with_marker_payload [] payload))
      × (load_pending_publications (holds (with_marker_payload [] payload)) ≡ ok [])
unfolding load_pending_publications load_envelope has_version with_marker_payload
    pending_stem_values list_of validate_pending_stem_values stems_of_items
new_file_lem payload = (refl, refl)

-- A list that could be loaded, with stems that are each one component of a path, no two the same, at
-- least one, and with hashes for exactly these stems: setting the marker returns, the list is what it
-- was, setting the same marker again leaves the file, and the marker that is read is the one that was
-- set, unless the file held the same one before.
pub set_metadata_refresh_marker_lem :
    (equal_floats : Json → Json → Bool) (file : Stored) (current stems : List Str)
    (hashes : Dict Str Str)
    → load_pending_publications file ≡ ok current
    → IsAccepted stems hashes
    → SetsMarker equal_floats file current stems hashes
unfolding load_pending_publications load_envelope holds_marker
set_metadata_refresh_marker_lem equal_floats absent current stems hashes h accepted =
    let payload = envelope_marker_payload stems (selected hashes stems) in
    let (opened, empty) = new_file_lem payload in
    record {
      new_file = holds (with_marker_payload [] payload);
      written = fresh equal_floats stems hashes accepted absent [] refl (and_false _);
      stems_kept = empty ∙ h;
      set_again =
          marked_again equal_floats stems hashes accepted (with_marker_payload [] payload) opened
            (marker_there [] payload);
      reloaded = λ other.
          reads_marker equal_floats stems hashes accepted (with_marker_payload [] payload) opened
            (marker_there [] payload);
    }
set_metadata_refresh_marker_lem equal_floats malformed current stems hashes h accepted =
    absurd (cc h)
set_metadata_refresh_marker_lem equal_floats no_object current stems hashes h accepted =
    absurd (cc h)
set_metadata_refresh_marker_lem equal_floats (holds content) current stems hashes h accepted =
    let payload = envelope_marker_payload stems (selected hashes stems) in
    let opened =
      version-loads content (loaded_version content (loaded (holds content) current h).opened) in
    elim (Bool-cases
      (is_marker_payload stems (selected hashes stems) (get (codes "metadata_refresh") content))) [
        | inl same ↦
            let again =
              set_again_of_marker equal_floats stems hashes accepted content opened same in
            record {
              new_file = holds content;
              written = again;
              stems_kept = h;
              set_again = again;
              reloaded = λ other. absurd (cc (same, other));
            }
        | inr other ↦
            let there = marker_there content payload in
            let reopen = reopened content current payload opened h in
            record {
              new_file = holds (with_marker_payload content payload);
              written =
                  fresh equal_floats stems hashes accepted (holds content) content opened
                    (rw other refl);
              stems_kept = stems_kept_beside content current payload opened h;
              set_again =
                  marked_again equal_floats stems hashes accepted
                    (with_marker_payload content payload) reopen there;
              reloaded = λ o.
                  reads_marker equal_floats stems hashes accepted
                    (with_marker_payload content payload) reopen there;
            }
      ]

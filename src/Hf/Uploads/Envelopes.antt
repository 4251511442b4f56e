-- ===== src/Hf/Uploads/Envelopes.antt =====
-- hf/_upload_state.py: what `resume_pending` reads of the envelopes, and the operations that it restores.
pub mod Classes
use osm_polygon_wikidata_onl.Prelude.{
  ℕ, Bool, true, false, not, List, [], ◌∷◌, ◌++◌, Option, none, some, if◌then◌else◌, is_empty, Str,
  codes, str_eq, ◌==◌, Dict, get, Result, Raised, ok, err, value_error, type_error, attribute_error,
  nat_eq, contains, sort, str_leq, leb, guard, traverse, ◌>>=◌,
}
use osm_polygon_wikidata_onl.Json.{Json, text, array, object, listed, entries, truthy}
use osm_polygon_wikidata_onl.Hf.Uploads.{
  PublicationOp, add_action, publication_op, StateName, name_text, Payload, Disk, Platform,
  is_legacy_envelope, current_sequence, required_string,
}
use osm_polygon_wikidata_onl.Hf.Uploads.Store.{Entry, queue_contract_version}

-- A current envelope with its sequence number.
pub record Job : Type 0 where
  pub sequence : ℕ
  pub state_path : StateName
  pub envelope : Payload

pub data Classified : Type 0 where
  legacy : Payload → Classified
  current : Payload → ℕ → Classified

abbrev pub is_version : Option Json → Bool
is_version (some (text version)) = version == queue_contract_version
is_version _ = false

unfoldable pub current_of : Payload → List ℕ → Result ℕ → Result Classified
current_of payload seen (err e) = err e
current_of payload seen (ok sequence) =
    if contains seen sequence then err value_error else ok (current payload sequence)

unfoldable pub classify_envelope : Option Payload → List ℕ → Result Classified
unfolding is_legacy_envelope current_sequence current_of
classify_envelope none seen = err value_error
classify_envelope (some payload) seen =
    if is_legacy_envelope payload
    then ok (legacy payload)
    else if is_version (get (codes "contract_version") payload)
    then current_of payload seen (current_sequence payload)
    else err value_error

-- What the loop over the envelopes has found so far, each list in the order of the loop.
pub record Found : Type 0 where
  pub currents : List Job
  pub legacies : List (StateName × Payload)
  pub seen_sequences : List ℕ

unfoldable pub add_found : StateName → Classified → Found → Found
add_found name (legacy payload) found = record found {
  legacies = found.legacies ++ ((name, payload) ∷ []);
}
add_found name (current payload sequence) found = record found {
  currents =
      found.currents
      ++ (record { sequence = sequence; state_path = name; envelope = payload } ∷ []);
  seen_sequences = sequence ∷ found.seen_sequences;
}

unfoldable pub found_next :
    (Found → Result Found) → StateName → Found → Result Classified → Result Found
unfolding add_found
found_next next name found (err e) = err e
found_next next name found (ok c) = next (add_found name c found)

unfoldable pub collect_envelopes : List (StateName × Option Payload) → Found → Result Found
unfolding classify_envelope found_next
collect_envelopes [] found = ok found
collect_envelopes ((name, payload) ∷ rest) found =
    found_next (collect_envelopes rest) name found (classify_envelope payload found.seen_sequences)

abbrev by_name : StateName × Option Payload → StateName × Option Payload → Bool
by_name a b = str_leq (name_text a.0) (name_text b.0)

-- `_pending_envelopes`: the files of `sorted(glob("*.json"))`
unfoldable pub pending_envelopes : Disk → Result Found
unfolding collect_envelopes name_text
pending_envelopes disk =
    collect_envelopes (sort by_name disk.envelopes)
      (record { currents = []; legacies = []; seen_sequences = [] })

-- `Path(value) if value else None`
unfoldable pub path_of : Option Json → Result (Option Str)
unfolding truthy
path_of none = ok none
path_of (some (text path)) = if is_empty path then ok none else ok (some path)
path_of (some other) = if truthy other then err type_error else ok none

-- An entry of `ops` as the code takes it: only an object has `get`.
unfoldable pub entry_of : Json → Result Entry
entry_of (object f) = ok (entries f)
entry_of _ = err attribute_error

-- `for entry in payload.get("ops", [])`: what is iterated
texts : Str → List Json
texts [] = []
texts (c ∷ cs) = text (c ∷ []) ∷ texts cs

abbrev field_names : Dict Str Json → List Json
field_names [] = []
field_names ((key, value) ∷ rest) = text key ∷ field_names rest

unfoldable pub ops_of : Option Json → Result (List Json)
unfolding texts
ops_of none = ok []
ops_of (some (array entries_)) = ok (listed entries_)
ops_of (some (object f)) = ok (field_names (entries f))
ops_of (some (text t)) = ok (texts t)
ops_of (some _) = err type_error

-- `_validate_resume_snapshot`
unfoldable pub validate_resume_snapshot : Platform → Option Str → Str → Result (Unit {0})
validate_resume_snapshot p none dir = err value_error
validate_resume_snapshot p (some path) dir = guard (p.is_inside path dir) value_error

unfoldable pub resume_operation : Platform → Entry → Str → Result (PublicationOp × Option Json)
unfolding required_string path_of validate_resume_snapshot
resume_operation p entry dir = required_string entry (codes "action") >>= λ action.
    required_string entry (codes "path_in_repo") >>= λ path_in_repo.
    path_of (get (codes "local_path") entry) >>= λ local_path.
    path_of (get (codes "snapshot_path") entry) >>= λ snapshot_path.
    (if action == add_action then validate_resume_snapshot p snapshot_path dir else ok tt)
    >>= λ valid. publication_op action path_in_repo local_path snapshot_path >>= λ op.
        ok (op, get (codes "sha256") entry)

unfoldable pub resume_operations :
    Platform → List Json → Str → Result (List (PublicationOp × Option Json))
unfolding entry_of resume_operation
resume_operations p values dir =
    traverse (λ value. entry_of value >>= λ entry. resume_operation p entry dir) values

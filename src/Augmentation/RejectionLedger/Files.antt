-- ===== src/Augmentation/RejectionLedger/Files.antt =====
-- The ledger's files: a file is missing, cannot be decoded, or holds a JSON value. What JSON numbers
-- with a fraction or an exponent are to Python is a parameter: whether one equals an integer, and `int`.
pub mod Equal
pub mod RoundTrip
use osm_polygon_wikidata_onl.Prelude.{
  ℕ, Bool, true, false, ◌&&◌, List, [], ◌∷◌, ◌++◌, Option, none, some, if◌then◌else◌, length,
  nat_beq, Str, codes, str_eq, str_beq, Dict, get, Result, ok, err, value_error, type_error,
  key_error, attribute_error, guard, ◌>>◌, ◌>>=◌, traverse,
}
use osm_polygon_wikidata_onl.Json.{
  Json, null, boolean, number, fraction, text, array, object, Items, no_items, item, Fields,
  no_fields, field, items, entries, equals_text, has_value, fields, optional, listed,
}
use osm_polygon_wikidata_onl.Domain.Values.{ℤ, pos, negsuc, int_of}
use osm_polygon_wikidata_onl.Domain.Values
use osm_polygon_wikidata_onl.Augmentation.RejectionLedger.{
  RejectionRecord, rejection_record, sort_records, merge_records,
}

pub data LedgerFile : Type 0 where
  absent malformed : LedgerFile
  holds : Json → LedgerFile

abbrev pub ledger_contract_version : Str
ledger_contract_version = codes "rejection-ledger-v1"

-- `to_dict`
unfoldable pub to_dict : RejectionRecord → Dict Str Json
to_dict r =
    (codes "shard", text r.shard)
    ∷ (codes "source_table", text r.source_table)
    ∷ (codes "identifier", text r.identifier)
    ∷ (codes "wikidata", optional r.wikidata)
    ∷ (codes "expected", optional r.expected)
    ∷ (codes "reason", text r.reason)
    ∷ (codes "cascaded_sections", number (pos r.cascaded_sections))
    ∷ []

abbrev pub record_json : RejectionRecord → Json
record_json r = object (fields (to_dict r))

abbrev pub record_jsons : List RejectionRecord → List Json
record_jsons [] = []
record_jsons (r ∷ records) = record_json r ∷ record_jsons records

-- `payload`
unfoldable pub payload : List RejectionRecord → Json
payload records = object (
    fields (
      (codes "contract_version", text ledger_contract_version)
      ∷ (codes "records", array (items (record_jsons records)))
      ∷ []))

abbrev pub or_missing : Option Json → Result Json
or_missing none = err key_error
or_missing (some v) = ok v

-- `entry[key]`
unfoldable pub item_of : Str → Json → Result Json
item_of key (object o) = or_missing (get key (entries o))
item_of key _ = err type_error

abbrev pub or_given : Json → Option Json → Json
or_given default none = default
or_given default (some v) = v

-- `value.get(key, default)`
unfoldable pub get_of : Str → Json → Json → Result Json
get_of key default (object o) = ok (or_given default (get key (entries o)))
get_of key default _ = err attribute_error

-- `raw.get("contract_version") != LEDGER_CONTRACT_VERSION` raises
unfoldable pub check_version : Json → Result (Unit {0})
check_version (text version) = guard (str_beq version ledger_contract_version) value_error
check_version _ = err value_error

-- The values that a loop over a JSON value runs through: the keys of a dictionary, the characters of a
-- text.
unfoldable pub iterated : Json → Result (List Json)
iterated (array values) = ok (listed values)
iterated (object o) = ok (keys_of (entries o))
  where
    keys_of : Dict Str Json → List Json
    keys_of [] = []
    keys_of ((key, value) ∷ rest) = text key ∷ keys_of rest
iterated (text t) = ok (characters t)
  where
    characters : Str → List Json
    characters [] = []
    characters (c ∷ cs) = text (c ∷ []) ∷ characters cs
iterated _ = err type_error

pub record Floats : Type 0 where
  pub equals : Str → ℕ → Bool
  pub truncated : Str → Result ℤ

-- The parts of `existing == payload`: a value against an optional text and a number.
unfoldable pub equals_optional : Option Str → Json → Bool
unfolding equals_text
equals_optional none null = true
equals_optional none _ = false
equals_optional (some t) j = equals_text t j

-- True equals 1 and False equals 0.
unfoldable pub equals_number : Floats → ℕ → Json → Bool
equals_number floats n (number (pos m)) = nat_beq n m
equals_number floats n (boolean true) = nat_beq n 1
equals_number floats n (boolean false) = nat_beq n 0
equals_number floats n (fraction f) = floats.equals f n
equals_number floats n _ = false

unfoldable pub is_record : Floats → RejectionRecord → Json → Bool
unfolding equals_text equals_optional equals_number
is_record floats r (object o) =
    nat_beq (length (entries o)) 7
    && has_value (equals_text r.shard) (codes "shard") o
    && has_value (equals_text r.source_table) (codes "source_table") o
    && has_value (equals_text r.identifier) (codes "identifier") o
    && has_value (equals_optional r.wikidata) (codes "wikidata") o
    && has_value (equals_optional r.expected) (codes "expected") o
    && has_value (equals_text r.reason) (codes "reason") o
    && has_value (equals_number floats r.cascaded_sections) (codes "cascaded_sections") o
is_record floats r _ = false

unfoldable pub are_records : Floats → List RejectionRecord → Items → Bool
unfolding is_record
are_records floats [] no_items = true
are_records floats (r ∷ records) (item value rest) =
    is_record floats r value && are_records floats records rest
are_records floats _ _ = false

unfoldable pub is_record_array : Floats → List RejectionRecord → Json → Bool
unfolding are_records
is_record_array floats records (array values) = are_records floats records values
is_record_array floats records _ = false

-- `existing == payload`
unfoldable pub is_payload : Floats → List RejectionRecord → Json → Bool
unfolding is_record_array equals_text
is_payload floats records (object o) =
    nat_beq (length (entries o)) 2
    && has_value (equals_text ledger_contract_version) (codes "contract_version") o
    && has_value (is_record_array floats records) (codes "records") o
is_payload floats records _ = false

module _ (floats : Floats) where
  -- `int(value)`
  unfoldable pub int_of_json : Json → Result ℤ
  unfolding int_of
  int_of_json (number n) = ok n
  int_of_json (boolean true) = ok (pos 1)
  int_of_json (boolean false) = ok (pos 0)
  int_of_json (fraction f) = floats.truncated f
  int_of_json (text t) = int_of (Values.text t)
  int_of_json _ = err type_error

  -- one record of the comprehension
  unfoldable pub load_record : Json → Result RejectionRecord
  load_record entry = do
    shard ← item_of (codes "shard") entry
    source_table ← item_of (codes "source_table") entry
    identifier ← item_of (codes "identifier") entry
    wikidata ← item_of (codes "wikidata") entry
    expected ← get_of (codes "expected") null entry
    reason ← item_of (codes "reason") entry
    count ← get_of (codes "cascaded_sections") (number (pos 0)) entry
    cascaded_sections ← int_of_json count
    rejection_record shard source_table identifier wikidata expected reason cascaded_sections

  unfoldable pub load_payload : Json → Result (List RejectionRecord)
  load_payload raw = do
    version ← get_of (codes "contract_version") null raw
    _ ← check_version version
    values ← get_of (codes "records") (array no_items) raw
    elements ← iterated values
    traverse load_record elements

  unfoldable pub load_ledger : LedgerFile → Result (List RejectionRecord)
  load_ledger absent = ok []
  load_ledger malformed = err value_error
  load_ledger (holds raw) = load_payload raw

  -- the file that `save_ledger` leaves; an equal one is not written again
  unfoldable pub write_ordered : LedgerFile → List RejectionRecord → Result LedgerFile
  write_ordered absent ordered = ok (holds (payload ordered))
  write_ordered malformed ordered = err value_error
  write_ordered (holds existing) ordered =
      ok (if is_payload floats ordered existing then holds existing else holds (payload ordered))

  unfoldable pub save_ledger : LedgerFile → List RejectionRecord → Result LedgerFile
  save_ledger file records = sort_records records >>= write_ordered file

  -- the loop of `merge_ledger_files`; a missing source gives no records
  unfoldable pub load_sources : List LedgerFile → Result (List RejectionRecord)
  load_sources [] = ok []
  load_sources (source ∷ sources) =
      load_ledger source >>= λ records. load_sources sources >>= λ more. ok (records ++ more)

  unfoldable pub merge_ledger_files : List LedgerFile → LedgerFile → Result LedgerFile
  merge_ledger_files sources target =
      load_sources sources >>= λ records. merge_records records >>= save_ledger target

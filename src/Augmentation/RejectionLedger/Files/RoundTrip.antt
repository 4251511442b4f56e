-- ===== src/Augmentation/RejectionLedger/Files/RoundTrip.antt =====
-- What `load_ledger` reads from the file that `save_ledger` leaves.
use osm_polygon_wikidata_onl.Prelude.{
  all-sort, ℕ, ◌≡◌, refl, ◌∙◌, Bool, true, false, List, [], ◌∷◌, Option, none, some, Str, str_eq,
  nat_eq, ==_refl, inl, inr, Bool-cases, all, ok, sort,
}
use osm_polygon_wikidata_onl.Json.{equals_text, Json, number, text, items, optional}
use osm_polygon_wikidata_onl.Domain.Values.{pos}
use osm_polygon_wikidata_onl.Augmentation.RejectionLedger.{
  RejectionRecord, sort_records, record_leq,
}
use osm_polygon_wikidata_onl.Augmentation.RejectionLedger.Records.{is_valid}
use osm_polygon_wikidata_onl.Augmentation.RejectionLedger.Files.{
  LedgerFile, absent, malformed, holds, ledger_contract_version, to_dict, record_json, record_jsons,
  payload, Floats, equals_optional, equals_number, is_record, are_records, is_record_array,
  is_payload, load_ledger, write_ordered, save_ledger,
}
use osm_polygon_wikidata_onl.Augmentation.RejectionLedger.Merge.{is_sortable}
use osm_polygon_wikidata_onl.Augmentation.RejectionLedger.Files.Equal.{load_payload_of_equal}

is_text_same : (t : Str) → equals_text t (text t) ≡ true
unfolding equals_text
is_text_same t = ==_refl t

is_optional_same : (o : Option Str) → equals_optional o (optional o) ≡ true
unfolding equals_optional
is_optional_same none = refl
is_optional_same (some t) = is_text_same t

is_number_same : (floats : Floats) (n : ℕ) → equals_number floats n (number (pos n)) ≡ true
unfolding equals_number
is_number_same floats n = ==_refl ⦃eq = nat_eq⦄ n

is_record_same : (floats : Floats) (r : RejectionRecord) → is_record floats r (record_json r) ≡ true
unfolding is_record to_dict
is_record_same floats r =
    rw
      (
        is_text_same r.shard,
        is_text_same r.source_table,
        is_text_same r.identifier,
        is_optional_same r.wikidata,
        is_optional_same r.expected,
        is_text_same r.reason,
        is_number_same floats r.cascaded_sections,
      )
      refl

are_records_same :
    (floats : Floats) (records : List RejectionRecord)
    → are_records floats records (items (record_jsons records)) ≡ true
unfolding are_records
are_records_same floats [] = refl
are_records_same floats (r ∷ records) =
    rw (is_record_same floats r) (are_records_same floats records)

-- The payload equals itself.
is_payload_same :
    (floats : Floats) (records : List RejectionRecord)
    → is_payload floats records (payload records) ≡ true
unfolding is_payload payload is_record_array
is_payload_same floats records =
    rw (is_text_same ledger_contract_version, are_records_same floats records) refl

-- what a file holds when it can be decoded
abbrev pub is_decodable : LedgerFile → Bool
is_decodable malformed = false
is_decodable _ = true

abbrev IsPayloadFile : Floats → List RejectionRecord → LedgerFile → Type 0
IsPayloadFile floats records file =
    (j : Json) × (file ≡ holds j) × (is_payload floats records j ≡ true)

write_ordered-IsPayloadFile :
    (floats : Floats) (file : LedgerFile) (records : List RejectionRecord)
    → is_decodable file ≡ true
    → (saved : LedgerFile) × (write_ordered floats file records ≡ ok saved)
      × IsPayloadFile floats records saved
unfolding write_ordered
write_ordered-IsPayloadFile floats absent records d =
    (holds (payload records), refl, (payload records, refl, is_payload_same floats records))
write_ordered-IsPayloadFile floats malformed records d = absurd (cc d)
write_ordered-IsPayloadFile floats (holds existing) records d =
    elim (Bool-cases (is_payload floats records existing)) [
      | inl same ↦ (holds existing, rw same, (existing, refl, same))
      | inr other ↦ (
        holds (payload records),
        rw other,
        (payload records, refl, is_payload_same floats records),
      )
    ]

write_again :
    (floats : Floats) (records : List RejectionRecord) (file : LedgerFile)
    → IsPayloadFile floats records file
    → write_ordered floats file records ≡ ok file
unfolding write_ordered
write_again floats records file (j, held, same) = rw held (rw same)

-- The ledger that is saved over a file that can be decoded, from valid records that Python can
-- compare, is read as these records in order, and saving them again leaves the file as it is. A float
-- that Python finds equal to a count is taken to be converted to this count.
pub save_ledger-load :
    (floats : Floats) (file : LedgerFile) (records : List RejectionRecord)
    → ((f : Str) (n : ℕ) → floats.equals f n ≡ true → floats.truncated f ≡ ok (pos n))
    → is_decodable file ≡ true
    → all is_valid records ≡ true
    → is_sortable records ≡ true
    → (saved : LedgerFile) × (save_ledger floats file records ≡ ok saved)
      × (load_ledger floats saved ≡ ok (sort record_leq records))
      × (save_ledger floats saved records ≡ ok saved)
unfolding save_ledger load_ledger sort_records
save_ledger-load floats file records int_of_equal decodable valid sortable =
    let ordered = sort record_leq records in
    let (saved, written, (j, held, same)) =
      write_ordered-IsPayloadFile floats file ordered decodable in
    (
      saved,
      rw sortable written,
      rw held (
          load_payload_of_equal floats int_of_equal ordered j
            (all-sort record_leq is_valid records ∙ valid) same),
      rw sortable (write_again floats ordered saved (j, held, same)),
    )

-- ===== src/Augmentation/RejectionLedger/Files/Equal.antt =====
-- A file that Python finds equal to the payload of some records is read as these records.
use osm_polygon_wikidata_onl.Prelude.{
  ℕ, ◌≡◌, refl, ap, ◌∙◌, sym, Bool, true, false, ◌&&◌, List, [], ◌∷◌, Option, none, some, length,
  nat_beq, Str, codes, str_eq, nat_beq_iff, str_beq_iff, get, arith, all, ok, traverse,
}
use osm_polygon_wikidata_onl.Json.{
  equals_text, has_value, Json, null, boolean, number, fraction, text, array, object, Items,
  no_items, item, Fields, entries, optional, listed,
}
use osm_polygon_wikidata_onl.Domain.Values.{pos, negsuc}
use osm_polygon_wikidata_onl.Augmentation.RejectionLedger.{RejectionRecord}
use osm_polygon_wikidata_onl.Augmentation.RejectionLedger.Records.{
  is_valid, rejection_record_of_valid,
}
use osm_polygon_wikidata_onl.Augmentation.RejectionLedger.Files.{
  ledger_contract_version, or_missing, or_given, item_of, get_of, check_version, iterated, Floats,
  equals_optional, equals_number, is_record, are_records, is_record_array, is_payload, int_of_json,
  load_record, load_payload,
}

is_text_lem : (t : Str) (j : Json) → equals_text t j ≡ true → j ≡ text t
unfolding equals_text
is_text_lem t (text s) h = ap text (sym ((str_beq_iff t s).0 h))
is_text_lem t null h = cc
is_text_lem t (boolean b) h = cc
is_text_lem t (number n) h = cc
is_text_lem t (fraction f) h = cc
is_text_lem t (array a) h = cc
is_text_lem t (object o) h = cc

is_optional_lem : (o : Option Str) (j : Json) → equals_optional o j ≡ true → j ≡ optional o
unfolding equals_optional
is_optional_lem (some t) j h = is_text_lem t j h
is_optional_lem none null h = refl
is_optional_lem none (text s) h = cc
is_optional_lem none (boolean b) h = cc
is_optional_lem none (number n) h = cc
is_optional_lem none (fraction f) h = cc
is_optional_lem none (array a) h = cc
is_optional_lem none (object o) h = cc

conjuncts :
    (a b c d e f g h : Bool)
    → (a && b && c && d && e && f && g && h) ≡ true
    → (b ≡ true) × (c ≡ true) × (d ≡ true) × (e ≡ true) × (f ≡ true) × (g ≡ true) × (h ≡ true)
conjuncts true b c d e f g h p = ground (arith, p)
conjuncts false b c d e f g h p = cc p

-- A key that passes a test is there.
value_found :
    (test : Json → Bool) (o : Option Json)
    → elim o [ none ↦ false | some v ↦ test v ] ≡ true
    → (v : Json) × (o ≡ some v) × (test v ≡ true)
value_found test none h = absurd (cc h)
value_found test (some v) h = (v, refl, h)

item_of_value :
    (test : Json → Bool) (key : Str) (o : Fields) (j : Json)
    → has_value test key o ≡ true
    → ((v : Json) → test v ≡ true → v ≡ j)
    → item_of key (object o) ≡ ok j
unfolding item_of
item_of_value test key o j h only =
    let (v, found, passed) = value_found test (get key (entries o)) h in
    ap or_missing found ∙ ap ok (only v passed)

get_of_value :
    (test : Json → Bool) (key : Str) (default : Json) (o : Fields)
    → has_value test key o ≡ true
    → (v : Json) × (test v ≡ true) × (get_of key default (object o) ≡ ok v)
unfolding get_of
get_of_value test key default o h =
    let (v, found, passed) = value_found test (get key (entries o)) h in
    (v, passed, ap (λ w. ok (or_given default w)) found)

module _ (floats : Floats)
    (int_of_equal : (f : Str) (n : ℕ)
      → floats.equals f n ≡ true
      → floats.truncated f ≡ ok (pos n)) where
  int_of_number :
      (n : ℕ) (j : Json) → equals_number floats n j ≡ true → int_of_json floats j ≡ ok (pos n)
  unfolding equals_number int_of_json
  int_of_number n (number (pos m)) h = ground (arith, nat_beq_iff n m)
  int_of_number n (number (negsuc m)) h = cc
  int_of_number n (boolean true) h = ground (arith, nat_beq_iff n 1)
  int_of_number n (boolean false) h = ground (arith, nat_beq_iff n 0)
  int_of_number n (fraction f) h = int_of_equal f n h
  int_of_number n (text t) h = cc
  int_of_number n null h = cc
  int_of_number n (array a) h = cc
  int_of_number n (object o) h = cc

  -- An entry that equals a valid record's is read as this record.
  load_record_of_equal :
      (r : RejectionRecord) (j : Json)
      → is_valid r ≡ true
      → is_record floats r j ≡ true
      → load_record floats j ≡ ok r
  unfolding is_record load_record
  load_record_of_equal r (object o) v h =
      let (shard, table, identifier, wikidata, expected, reason, count) =
        conjuncts (nat_beq (length (entries o)) 7)
          (has_value (equals_text r.shard) (codes "shard") o)
          (has_value (equals_text r.source_table) (codes "source_table") o)
          (has_value (equals_text r.identifier) (codes "identifier") o)
          (has_value (equals_optional r.wikidata) (codes "wikidata") o)
          (has_value (equals_optional r.expected) (codes "expected") o)
          (has_value (equals_text r.reason) (codes "reason") o)
          (has_value (equals_number floats r.cascaded_sections) (codes "cascaded_sections") o) h in
      let (e, is_e, got_e) =
        get_of_value (equals_optional r.expected) (codes "expected") null o expected in
      let (c, is_c, got_c) =
        get_of_value (equals_number floats r.cascaded_sections) (codes "cascaded_sections")
          (number (pos 0)) o count in
      rw
        (
          item_of_value (equals_text r.shard) (codes "shard") o _ shard (is_text_lem r.shard),
          item_of_value (equals_text r.source_table) (codes "source_table") o _ table
              (is_text_lem r.source_table),
          item_of_value (equals_text r.identifier) (codes "identifier") o _ identifier
              (is_text_lem r.identifier),
          item_of_value (equals_optional r.wikidata) (codes "wikidata") o _ wikidata
              (is_optional_lem r.wikidata),
          got_e,
          is_optional_lem r.expected e is_e,
          item_of_value (equals_text r.reason) (codes "reason") o _ reason (is_text_lem r.reason),
          got_c,
          int_of_number r.cascaded_sections c is_c,
        )
        (rejection_record_of_valid r r.cascaded_sections v)
  load_record_of_equal r null v h = cc
  load_record_of_equal r (boolean b) v h = cc
  load_record_of_equal r (number n) v h = cc
  load_record_of_equal r (fraction f) v h = cc
  load_record_of_equal r (text t) v h = cc
  load_record_of_equal r (array a) v h = cc

  load_records_of_equal :
      (records : List RejectionRecord) (values : Items)
      → all is_valid records ≡ true
      → are_records floats records values ≡ true
      → traverse (load_record floats) (listed values) ≡ ok records
  unfolding are_records
  load_records_of_equal [] no_items v h = refl
  load_records_of_equal [] (item j values) v h = cc
  load_records_of_equal (r ∷ records) no_items v h = cc
  load_records_of_equal (r ∷ records) (item j values) v h =
      rw
        (
          load_record_of_equal r j (ground (arith, v)) (ground (arith, h)),
          load_records_of_equal records values (ground (arith, v)) (ground (arith, h)),
        )
        refl

  load_array_of_equal :
      (records : List RejectionRecord) (j : Json)
      → all is_valid records ≡ true
      → is_record_array floats records j ≡ true
      → (elements : List Json) × (iterated j ≡ ok elements)
        × (traverse (load_record floats) elements ≡ ok records)
  unfolding is_record_array iterated
  load_array_of_equal records (array values) v h =
      (listed values, refl, load_records_of_equal records values v h)
  load_array_of_equal records null v h = absurd (cc h)
  load_array_of_equal records (boolean b) v h = absurd (cc h)
  load_array_of_equal records (number n) v h = absurd (cc h)
  load_array_of_equal records (fraction f) v h = absurd (cc h)
  load_array_of_equal records (text t) v h = absurd (cc h)
  load_array_of_equal records (object o) v h = absurd (cc h)

  payload_parts : (a b c : Bool) → (a && b && c) ≡ true → (b ≡ true) × (c ≡ true)
  payload_parts a b c h = ground arith

  -- A file that equals the payload of valid records is read as them.
  pub load_payload_of_equal :
      (records : List RejectionRecord) (j : Json)
      → all is_valid records ≡ true
      → is_payload floats records j ≡ true
      → load_payload floats j ≡ ok records
  unfolding is_payload load_payload check_version
  load_payload_of_equal records (object o) v h =
      let (version, array_there) =
        payload_parts (nat_beq (length (entries o)) 2)
          (has_value (equals_text ledger_contract_version) (codes "contract_version") o)
          (has_value (is_record_array floats records) (codes "records") o) h in
      let (c, is_c, got_c) =
        get_of_value (equals_text ledger_contract_version) (codes "contract_version") null o
          version in
      let (a, is_a, got_a) =
        get_of_value (is_record_array floats records) (codes "records") (array no_items) o
          array_there in
      let (elements, listed_a, loaded) = load_array_of_equal records a v is_a in
      rw (got_c, is_text_lem ledger_contract_version c is_c, got_a, listed_a) loaded
  load_payload_of_equal records null v h = cc
  load_payload_of_equal records (boolean b) v h = cc
  load_payload_of_equal records (number n) v h = cc
  load_payload_of_equal records (fraction f) v h = cc
  load_payload_of_equal records (text t) v h = cc
  load_payload_of_equal records (array a) v h = cc

-- ===== src/Augmentation/RejectionLedger/Records.antt =====
-- What the constructor of a rejection record accepts.
use osm_polygon_wikidata_onl.Prelude.{
  ℕ, ◌≡◌, refl, Bool, true, ◌&&◌, not, Option, none, some, is_empty, Str, str_eq, arith, ok,
  ok_injective, ap, sym, ◌∙◌, >>=-returns,
}
use osm_polygon_wikidata_onl.Json.{
  Json, text, optional, null, boolean, number, fraction, array, object,
}
use osm_polygon_wikidata_onl.Domain.Values.{ℤ, pos}
use osm_polygon_wikidata_onl.Augmentation.RejectionLedger.{
  RejectionRecord, is_supported, has_valid_qid, rejection_record, require_nonempty_string,
  validate_source_table, validate_rejection_qid, validate_cascaded_sections, with_cascaded_sections,
}

abbrev pub valid_or_none : Option Str → Bool
valid_or_none none = true
valid_or_none (some value) = has_valid_qid value

-- What `__post_init__` asks of a record.
unfoldable pub is_valid : RejectionRecord → Bool
is_valid r =
    not (is_empty r.shard)
    && not (is_empty r.identifier)
    && not (is_empty r.reason)
    && is_supported r.source_table
    && valid_or_none r.wikidata
    && valid_or_none r.expected

abbrev pub counted : RejectionRecord → ℕ → RejectionRecord
counted r n = record r { cascaded_sections = n }

require_nonempty_string_of_text :
    (s : Str) → not (is_empty s) ≡ true → require_nonempty_string (text s) ≡ ok s
unfolding require_nonempty_string
require_nonempty_string_of_text s h = rw h

validate_source_table_of_table :
    (s : Str) → is_supported s ≡ true → validate_source_table (text s) ≡ ok s
unfolding validate_source_table
validate_source_table_of_table s h = rw h

validate_rejection_qid_of_valid :
    (o : Option Str) → valid_or_none o ≡ true → validate_rejection_qid (optional o) ≡ ok o
unfolding validate_rejection_qid
validate_rejection_qid_of_valid none h = refl
validate_rejection_qid_of_valid (some v) h = rw h

is_valid-parts :
    (r : RejectionRecord)
    → is_valid r ≡ true
    → (not (is_empty r.shard) ≡ true)
      × (not (is_empty r.identifier) ≡ true)
      × (not (is_empty r.reason) ≡ true)
      × (is_supported r.source_table ≡ true)
      × (valid_or_none r.wikidata ≡ true)
      × (valid_or_none r.expected ≡ true)
unfolding is_valid
is_valid-parts r h = ground (arith, h)

-- The fields of a valid record, and any count, are accepted.
pub rejection_record_of_valid :
    (r : RejectionRecord) (n : ℕ)
    → is_valid r ≡ true
    → rejection_record
        (text r.shard)
        (text r.source_table)
        (text r.identifier)
        (optional r.wikidata)
        (optional r.expected)
        (text r.reason)
        (pos n)
      ≡ ok (counted r n)
unfolding rejection_record validate_cascaded_sections
rejection_record_of_valid r n h =
    let p = is_valid-parts r h in
    rw (require_nonempty_string_of_text r.shard p.0) (
      rw (require_nonempty_string_of_text r.identifier p.1) (
        rw (require_nonempty_string_of_text r.reason p.2) (
          rw (validate_source_table_of_table r.source_table p.3) (
            rw (validate_rejection_qid_of_valid r.wikidata p.4)
              (rw (validate_rejection_qid_of_valid r.expected p.5))))))

pub with_cascaded_sections_of_valid :
    (r : RejectionRecord) (n : ℕ)
    → is_valid r ≡ true
    → with_cascaded_sections r n ≡ ok (counted r n)
unfolding with_cascaded_sections
with_cascaded_sections_of_valid r n h = rejection_record_of_valid r n h

pub counted-is_valid :
    (r : RejectionRecord) (n : ℕ) → is_valid r ≡ true → is_valid (counted r n) ≡ true
unfolding is_valid
counted-is_valid r n h = h

accepted_string : (j : Json) (s : Str) → require_nonempty_string j ≡ ok s → not (is_empty s) ≡ true
unfolding require_nonempty_string
accepted_string (text t) s h = ground arith
accepted_string null s h = cc
accepted_string (boolean b) s h = cc
accepted_string (number n) s h = cc
accepted_string (fraction f) s h = cc
accepted_string (array a) s h = cc
accepted_string (object o) s h = cc

accepted_table : (j : Json) (s : Str) → validate_source_table j ≡ ok s → is_supported s ≡ true
unfolding validate_source_table
accepted_table (text t) s h = ground arith
accepted_table null s h = cc
accepted_table (boolean b) s h = cc
accepted_table (number n) s h = cc
accepted_table (fraction f) s h = cc
accepted_table (array a) s h = cc
accepted_table (object o) s h = cc

accepted_qid :
    (j : Json) (o : Option Str) → validate_rejection_qid j ≡ ok o → valid_or_none o ≡ true
unfolding validate_rejection_qid
accepted_qid null o h = ground arith
accepted_qid (text t) o h = ground arith
accepted_qid (boolean b) o h = cc
accepted_qid (number n) o h = cc
accepted_qid (fraction f) o h = cc
accepted_qid (array a) o h = cc
accepted_qid (object b) o h = cc

-- Whatever the constructor returns is valid.
pub rejection_record-is_valid :
    (shard table identifier wikidata expected reason : Json) (n : ℤ) (r : RejectionRecord)
    → rejection_record shard table identifier wikidata expected reason n ≡ ok r
    → is_valid r ≡ true
unfolding rejection_record is_valid
rejection_record-is_valid shard table identifier wikidata expected reason n =
    let P = λ (r : RejectionRecord). is_valid r ≡ true in
    >>=-returns P (require_nonempty_string shard) _ λ a got_a.
      >>=-returns P (require_nonempty_string identifier) _ λ b got_b.
        >>=-returns P (require_nonempty_string reason) _ λ c got_c.
          >>=-returns P (validate_source_table table) _ λ d got_d.
            >>=-returns P (validate_rejection_qid wikidata) _ λ e got_e.
              >>=-returns P (validate_rejection_qid expected) _ λ f got_f.
                >>=-returns P (validate_cascaded_sections n) _ λ m got_m r h.
                  sym (ap is_valid (ok_injective h))
                  ∙ ground (
                    arith,
                    accepted_string shard a got_a,
                    accepted_string identifier b got_b,
                    accepted_string reason c got_c,
                    accepted_table table d got_d,
                    accepted_qid wikidata e got_e,
                    accepted_qid expected f got_f,
                  )

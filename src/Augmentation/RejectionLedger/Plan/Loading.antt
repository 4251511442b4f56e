-- ===== src/Augmentation/RejectionLedger/Plan/Loading.antt =====
-- The records that are read from a ledger are valid.
use osm_polygon_wikidata_onl.Prelude.{
  ◌≡◌, refl, ap, ap₂, ◌∙◌, sym, true, ◌&&◌, List, [], ◌∷◌, codes, str_eq, all, ok, traverse,
  >>=-returns, append-nil, ok_injective,
}
use osm_polygon_wikidata_onl.Json.{Json, null, number, array, no_items}
use osm_polygon_wikidata_onl.Domain.Values.{pos}
use osm_polygon_wikidata_onl.Augmentation.RejectionLedger.{RejectionRecord, record_eq}
use osm_polygon_wikidata_onl.Augmentation.RejectionLedger.Records.{
  is_valid, rejection_record-is_valid,
}
use osm_polygon_wikidata_onl.Augmentation.RejectionLedger.Files.{
  LedgerFile, absent, malformed, holds, Floats, item_of, get_of, check_version, iterated,
  int_of_json, load_record, load_payload, load_ledger, load_sources,
}
use osm_polygon_wikidata_onl.Augmentation.RejectionLedger.Files.RoundTrip.{is_decodable}
use osm_polygon_wikidata_onl.Augmentation.RejectionLedger.Plan.{ledger_source}

module _ (floats : Floats) where
  -- Whatever is read from a ledger is valid.
  load_record-is_valid :
      (entry : Json) (r : RejectionRecord) → load_record floats entry ≡ ok r → is_valid r ≡ true
  unfolding load_record
  load_record-is_valid entry =
      let P = λ (r : RejectionRecord). is_valid r ≡ true in
      >>=-returns P (item_of (codes "shard") entry) _ λ a _.
        >>=-returns P (item_of (codes "source_table") entry) _ λ b _.
          >>=-returns P (item_of (codes "identifier") entry) _ λ c _.
            >>=-returns P (item_of (codes "wikidata") entry) _ λ d _.
              >>=-returns P (get_of (codes "expected") null entry) _ λ e _.
                >>=-returns P (item_of (codes "reason") entry) _ λ f _.
                  >>=-returns P (get_of (codes "cascaded_sections") (number (pos 0)) entry) _ λ g _.
                    >>=-returns P (int_of_json floats g) _
                      λ n _. rejection_record-is_valid a b c d e f n

  traverse-is_valid :
      (entries : List Json) (records : List RejectionRecord)
      → traverse (load_record floats) entries ≡ ok records
      → all is_valid records ≡ true
  traverse-is_valid [] records h = ap (all is_valid) (sym (ok_injective h))
  traverse-is_valid (entry ∷ entries) records h =
      let P = λ (records : List RejectionRecord). all is_valid records ≡ true in
      >>=-returns P (load_record floats entry) _
        (λ r got. >>=-returns P (traverse (load_record floats) entries) _ λ rest more records h.
          ap (all is_valid) (sym (ok_injective h))
          ∙ ap₂ (λ a b. a && b) (load_record-is_valid entry r got)
              (traverse-is_valid entries rest more))
        records h

  load_payload-is_valid :
      (raw : Json) (records : List RejectionRecord)
      → load_payload floats raw ≡ ok records
      → all is_valid records ≡ true
  unfolding load_payload
  load_payload-is_valid raw =
      let P = λ (records : List RejectionRecord). all is_valid records ≡ true in
      >>=-returns P (get_of (codes "contract_version") null raw) _ λ version _.
        >>=-returns P (check_version version) _ λ u _.
          >>=-returns P (get_of (codes "records") (array no_items) raw) _
            λ values _. >>=-returns P (iterated values) _ λ elements _. traverse-is_valid elements

  pub load_ledger-is_valid :
      (file : LedgerFile) (records : List RejectionRecord)
      → load_ledger floats file ≡ ok records
      → (all is_valid records ≡ true) × (is_decodable file ≡ true)
  unfolding load_ledger
  load_ledger-is_valid absent records h = (ap (all is_valid) (sym (ok_injective h)), refl)
  load_ledger-is_valid malformed records h = absurd (cc h)
  load_ledger-is_valid (holds raw) records h = (load_payload-is_valid raw records h, refl)

  pub load_sources_of_ledger :
      (file : LedgerFile) (olds : List RejectionRecord)
      → load_ledger floats file ≡ ok olds
      → load_sources floats (ledger_source file) ≡ ok olds
  unfolding load_sources load_ledger
  load_sources_of_ledger absent olds h = h
  load_sources_of_ledger malformed olds h = cc h
  load_sources_of_ledger (holds raw) olds h = rw h (ap ok (append-nil olds))

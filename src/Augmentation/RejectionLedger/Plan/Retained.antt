-- ===== src/Augmentation/RejectionLedger/Plan/Retained.antt =====
-- The loops over documents and sections as filters and counts.
use osm_polygon_wikidata_onl.Prelude.{
  ℕ, ◌+◌, ◌≡◌, refl, ap, ◌∙◌, sym, Bool, true, false, not, List, [], ◌∷◌, ◌++◌, map, if◌then◌else◌,
  contains, filter, Str, codes, str_eq, ◌==◌, ==_iff, arith, Dict, get, put, get-put, append-nil,
  append_assoc, inl, inr, Bool-cases, length,
}
use osm_polygon_wikidata_onl.Domain.Values.{Row}
use osm_polygon_wikidata_onl.Augmentation.WikivoyageMembership.{
  document_columns, projected, cell_text, RejectedDocument, Partition, place,
  partition_wikivoyage_documents,
}
use osm_polygon_wikidata_onl.Augmentation.RejectionLedger.Plan.{
  section_columns, or_zero, retain_sections,
}

abbrev pub document_id : Row → Str
document_id row = cell_text (codes "document_id") row

abbrev pub wikidata_of : Row → Str
wikidata_of row = cell_text (codes "wikidata") row

abbrev pub is_member : List Str → Row → Bool
is_member qids row = contains qids (wikidata_of row)

abbrev pub rejected_document : Row → RejectedDocument
rejected_document row = record { document_id = document_id row; wikidata = wikidata_of row }

abbrev pub rejected_rows : List Str → List Row → List Row
rejected_rows qids rows = filter (λ row. not (is_member qids row)) rows

-- The documents that are kept, and those that are not.
pub partition-filters :
    (rows : List Row) (qids : List Str)
    → (Partition.retained_rows (partition_wikivoyage_documents rows qids)
        ≡ map (projected document_columns) (filter (is_member qids) rows))
      × (Partition.rejected_documents (partition_wikivoyage_documents rows qids)
          ≡ map rejected_document (rejected_rows qids rows))
unfolding partition_wikivoyage_documents place
partition-filters [] qids = (refl, refl)
partition-filters (row ∷ rows) qids =
    let (kept, dropped) = partition-filters rows qids in
    elim (Bool-cases (is_member qids row)) [
      | inl member ↦ (rw (member, kept) refl, rw (member, dropped) refl)
      | inr other ↦ (rw (other, kept) refl, rw (other, dropped) refl)
    ]

-- How many rows name a document.
abbrev pub sections_of : Str → List Row → ℕ
sections_of id rows = length (filter (λ row. document_id row == id) rows)

abbrev pub is_kept : List Str → Row → Bool
is_kept rejected_ids row = not (contains rejected_ids (document_id row))

pub retain_sections-rows :
    (rejected_ids : List Str) (retained : List Row) (cascades : Dict Str ℕ) (rows : List Row)
    → (retain_sections rejected_ids retained cascades rows).0
      ≡ retained ++ map (projected section_columns) (filter (is_kept rejected_ids) rows)
unfolding retain_sections
retain_sections-rows ids retained cascades [] = sym (append-nil retained)
retain_sections-rows ids retained cascades (row ∷ rows) =
    elim (Bool-cases (contains ids (document_id row))) [
      | inl dropped ↦ rw dropped (
          retain_sections-rows ids retained
            (put (document_id row) (or_zero (get (document_id row) cascades) + 1) cascades) rows)
      | inr kept ↦ rw kept (
          retain_sections-rows ids (retained ++ (projected section_columns row ∷ [])) cascades rows
          ∙ append_assoc retained (projected section_columns row ∷ [])
              (map (projected section_columns) (filter (is_kept ids) rows)))
    ]

bumped :
    (x id : Str) (cascades : Dict Str ℕ) (row : Row) (rest : List Row)
    → or_zero (get id (put x (or_zero (get x cascades) + 1) cascades)) + length rest
      ≡ or_zero (get id cascades) + length (if x == id then row ∷ rest else rest)
bumped x id cascades row rest = elim (Bool-cases (x == id)) [
  | inl same ↦
      rw (get-put x id (or_zero (get x cascades) + 1) cascades, same, (==_iff x id).0 same)
        (omega arith)
  | inr other ↦ rw (get-put x id (or_zero (get x cascades) + 1) cascades, other) refl
]

skipped :
    (x id : Str) (row : Row) (ids : List Str) (rest : List Row)
    → contains ids id ≡ true
    → contains ids x ≡ false
    → length (if x == id then row ∷ rest else rest) ≡ length rest
skipped x id row ids rest m kept =
    ground (arith, m, kept, ==_iff x id, ap (contains ids) {x = x} {y = id})

retain_sections-counts :
    (ids : List Str) (retained : List Row) (cascades : Dict Str ℕ) (rows : List Row) (id : Str)
    → contains ids id ≡ true
    → or_zero (get id (retain_sections ids retained cascades rows).1)
      ≡ or_zero (get id cascades) + sections_of id rows
unfolding retain_sections
retain_sections-counts ids retained cascades [] id m = omega arith
retain_sections-counts ids retained cascades (row ∷ rows) id m =
    elim (Bool-cases (contains ids (document_id row))) [
      | inl dropped ↦ rw dropped (
          retain_sections-counts ids retained
            (put (document_id row) (or_zero (get (document_id row) cascades) + 1) cascades) rows id
            m
          ∙ bumped (document_id row) id cascades row (filter (λ r. document_id r == id) rows))
      | inr kept ↦ rw kept (
          retain_sections-counts ids (retained ++ (projected section_columns row ∷ [])) cascades
            rows id m
          ∙ ap (λ (n : ℕ). or_zero (get id cascades) + n)
              (sym (
                skipped (document_id row) id row ids (filter (λ r. document_id r == id) rows) m
                  kept)))
    ]

-- Each rejected document is counted with the sections that name it.
pub retain_sections-count :
    (ids : List Str) (rows : List Row) (id : Str)
    → contains ids id ≡ true
    → or_zero (get id (retain_sections ids [] [] rows).1) ≡ sections_of id rows
retain_sections-count ids rows id m = retain_sections-counts ids [] [] rows id m ∙ zero_plus _
  where
    zero_plus : (n : ℕ) → 0 + n ≡ n
    zero_plus n = omega arith

-- ===== src/Augmentation/RejectionLedger/Plan/History.antt =====
-- The merge of a stem's rejections into the cumulative ledger.
use osm_polygon_wikidata_onl.Prelude.{
  all-append, ℕ, ◌≡◌, refl, ap, ◌∙◌, true, List, ◌∷◌, ◌++◌, Str, str_eq, contains-append, all,
  all_of_contains, all-contains, sort_of_sorted, arith, ok,
}
use osm_polygon_wikidata_onl.Domain.Values.{pos}
use osm_polygon_wikidata_onl.Augmentation.RejectionLedger.{
  RejectionRecord, record_eq, record_leq, orderable,
}
use osm_polygon_wikidata_onl.Augmentation.RejectionLedger.Records.{is_valid}
use osm_polygon_wikidata_onl.Augmentation.RejectionLedger.Merge.{
  Summarized, is_sortable, merge_records_lem, summaries-is_valid, summaries-is_sortable,
}
use osm_polygon_wikidata_onl.Augmentation.RejectionLedger.Files.{
  LedgerFile, Floats, load_ledger, load_sources, merge_ledger_files,
}
use osm_polygon_wikidata_onl.Augmentation.RejectionLedger.Files.RoundTrip.{save_ledger-load}
use osm_polygon_wikidata_onl.Augmentation.RejectionLedger.Plan.{ledger_source}
use osm_polygon_wikidata_onl.Augmentation.RejectionLedger.Plan.Loading.{
  load_ledger-is_valid, load_sources_of_ledger,
}

pub is_sortable_prefix :
    (xs ys : List RejectionRecord) → is_sortable (xs ++ ys) ≡ true → is_sortable xs ≡ true
is_sortable_prefix xs ys h = all_of_contains _ xs λ a in_a.
    all_of_contains (orderable a) xs λ b in_b.
      all-contains (orderable a) (xs ++ ys) b
        (all-contains (λ r. all (orderable r) (xs ++ ys)) (xs ++ ys) a h
          (contains-append xs ys a ∙ rw in_a refl))
        (contains-append xs ys b ∙ rw in_b refl)

module _ (floats : Floats)
    (int_of_equal : (f : Str) (n : ℕ)
      → floats.equals f n ≡ true
      → floats.truncated f ≡ ok (pos n)) where
  -- The merge of a saved list with a ledger.
  pub merge_ledger_files-load :
      (stem_file ledger : LedgerFile) (news olds : List RejectionRecord)
      → load_ledger floats stem_file ≡ ok news
      → load_ledger floats ledger ≡ ok olds
      → is_sortable (news ++ olds) ≡ true
      → (merged : List RejectionRecord) × (final : LedgerFile) × (merge_ledger_files floats
            (stem_file ∷ ledger_source ledger)
            ledger
          ≡ ok final)
        × (load_ledger floats final ≡ ok merged)
        × Summarized (news ++ olds) merged
  unfolding merge_ledger_files load_sources
  merge_ledger_files-load stem_file ledger news olds loaded_news loaded_olds sortable =
      let (valid_news, _) = load_ledger-is_valid floats stem_file news loaded_news in
      let (valid_olds, decodable) = load_ledger-is_valid floats ledger olds loaded_olds in
      let valid : all is_valid (news ++ olds) ≡ true =
        all-append is_valid news olds ∙ ground (arith, valid_news, valid_olds) in
      let (merged, returned, sums) = merge_records_lem (news ++ olds) valid sortable in
      let (final, saved, loaded, again) =
        save_ledger-load floats ledger merged int_of_equal decodable
          (summaries-is_valid (news ++ olds) merged valid (λ r m. (sums.members r).0 m))
          (summaries-is_sortable (news ++ olds) merged sortable (λ r m. (sums.members r).0 m)) in
      (
        merged,
        final,
        rw (loaded_news, load_sources_of_ledger floats ledger olds loaded_olds, returned) saved,
        loaded ∙ ap ok (sort_of_sorted record_leq merged sums.in_order),
        sums,
      )

-- ===== src/Augmentation/RejectionLedger/Plan/Application.antt =====
-- What the application of a plan leaves in the files.
use osm_polygon_wikidata_onl.Prelude.{
  ℕ, zero, suc, ◌≤◌, ◌≡◌, refl, ap, ◌∙◌, sym, true, List, [], ◌∷◌, ◌++◌, Option, some, Str, str_eq,
  all, is_sorted, sort, sort_of_sorted, arith, Result, ok,
}
use osm_polygon_wikidata_onl.Domain.Values.{Row, pos}
use osm_polygon_wikidata_onl.Augmentation.WikivoyageMembership.{document_columns}
use osm_polygon_wikidata_onl.Augmentation.RejectionLedger.{RejectionRecord, record_eq, record_leq}
use osm_polygon_wikidata_onl.Augmentation.RejectionLedger.Records.{is_valid}
use osm_polygon_wikidata_onl.Augmentation.RejectionLedger.Merge.{Summarized, is_sortable}
use osm_polygon_wikidata_onl.Augmentation.RejectionLedger.Files.{
  LedgerFile, Floats, load_ledger, save_ledger, merge_ledger_files,
}
use osm_polygon_wikidata_onl.Augmentation.RejectionLedger.Files.RoundTrip.{
  is_decodable, save_ledger-load,
}
use osm_polygon_wikidata_onl.Augmentation.RejectionLedger.Plan.{
  Shard, IntegrityPlan, section_columns, Tables, write_documents, write_sections, save_stem_ledger,
  ledger_source, merge_cumulative, run_writes, first_writes, apply_steps,
  apply_integrity_normalization,
}
use osm_polygon_wikidata_onl.Augmentation.RejectionLedger.Plan.History.{
  is_sortable_prefix, merge_ledger_files-load,
}

-- What an application of a plan relies on: pyarrow accepts both tables, the stem's ledger can be
-- decoded, the cumulative ledger can be read, and Python can compare all the records.
pub record CanApply (floats : Floats) (tables : Tables) (plan : IntegrityPlan) (shard : Shard)
    (olds : List RejectionRecord) (documents sections : List Row) : Type 0 where
  pub documents_stored : tables.stored document_columns plan.retained_documents ≡ ok documents
  pub sections_stored : tables.stored section_columns plan.retained_sections ≡ ok sections
  pub decodable : is_decodable shard.stem_ledger ≡ true
  pub loaded : load_ledger floats shard.ledger ≡ ok olds
  pub valid : all is_valid plan.rejections ≡ true
  pub in_order : is_sorted record_leq plan.rejections ≡ true
  pub sortable : is_sortable (plan.rejections ++ olds) ≡ true

-- Writes that succeed.
run_writes-one :
    (f : Shard → Result Shard) (s t : Shard) → f s ≡ ok t → run_writes (f ∷ []) s ≡ (t, ok tt)
run_writes-one f s t first = rw first refl

run_writes-two :
    (f g : Shard → Result Shard) (s t u : Shard)
    → f s ≡ ok t
    → g t ≡ ok u
    → run_writes (f ∷ g ∷ []) s ≡ (u, ok tt)
run_writes-two f g s t u first second = rw (first, second) refl

run_writes-three :
    (f g h : Shard → Result Shard) (s t u v : Shard)
    → f s ≡ ok t
    → g t ≡ ok u
    → h u ≡ ok v
    → run_writes (f ∷ g ∷ h ∷ []) s ≡ (v, ok tt)
run_writes-three f g h s t u v first second third = rw (first, second, third) refl

run_writes-four :
    (f g h k : Shard → Result Shard) (s t u v w : Shard)
    → f s ≡ ok t
    → g t ≡ ok u
    → h u ≡ ok v
    → k v ≡ ok w
    → run_writes (f ∷ g ∷ h ∷ k ∷ []) s ≡ (w, ok tt)
run_writes-four f g h k s t u v w first second third fourth = rw (first, second, third, fourth) refl

module _ (floats : Floats) (tables : Tables)
    (int_of_equal : (f : Str) (n : ℕ) → floats.equals f n ≡ true → floats.truncated f ≡ ok (pos n))
    (plan : IntegrityPlan) (shard : Shard) (olds : List RejectionRecord)
    (documents sections : List Row)
    (can : CanApply floats tables plan shard olds documents sections) where
  saved_stem :
      (saved : LedgerFile) × (save_ledger floats shard.stem_ledger plan.rejections ≡ ok saved)
      × (load_ledger floats saved ≡ ok (sort record_leq plan.rejections))
      × (save_ledger floats saved plan.rejections ≡ ok saved)
  saved_stem =
      save_ledger-load floats shard.stem_ledger plan.rejections int_of_equal can.decodable can.valid
        (is_sortable_prefix plan.rejections olds can.sortable)

  write_documents-ok :
      (s : Shard)
      → write_documents floats tables plan s ≡ ok (record s { documents = some documents })
  unfolding write_documents
  write_documents-ok s = rw can.documents_stored refl

  write_sections-ok :
      (s : Shard) → write_sections floats tables plan s ≡ ok (record s { sections = some sections })
  unfolding write_sections
  write_sections-ok s = rw can.sections_stored refl

  save_stem_ledger-ok :
      (s : Shard) (saved : LedgerFile)
      → save_ledger floats s.stem_ledger plan.rejections ≡ ok saved
      → save_stem_ledger floats tables plan s ≡ ok (record s { stem_ledger = saved })
  unfolding save_stem_ledger
  save_stem_ledger-ok s saved h = rw h refl

  merge_cumulative-ok :
      (s : Shard) (merged : LedgerFile)
      → merge_ledger_files floats (s.stem_ledger ∷ ledger_source s.ledger) s.ledger ≡ ok merged
      → merge_cumulative floats tables plan s ≡ ok (record s { ledger = merged })
  unfolding merge_cumulative
  merge_cumulative-ok s merged h = rw h refl

  abbrev with_tables : Shard → Shard
  with_tables s = record s { documents = some documents; sections = some sections }

  abbrev target : LedgerFile → LedgerFile → Shard
  target saved final = record (with_tables shard) { stem_ledger = saved; ledger = final }

  -- The application, from a state in which some of its writes may be done.
  applied :
      (d s : Option (List Row)) (stem saved final : LedgerFile)
      → save_ledger floats stem plan.rejections ≡ ok saved
      → merge_ledger_files floats (saved ∷ ledger_source shard.ledger) shard.ledger ≡ ok final
      → apply_integrity_normalization floats tables plan
          (record shard { documents = d; sections = s; stem_ledger = stem })
        ≡ (target saved final, ok tt)
  unfolding apply_integrity_normalization
  applied d s stem saved final written returned =
      run_writes-four (write_documents floats tables plan) (write_sections floats tables plan)
        (save_stem_ledger floats tables plan) (merge_cumulative floats tables plan)
        (record shard { documents = d; sections = s; stem_ledger = stem })
        (record shard { documents = some documents; sections = s; stem_ledger = stem })
        (record (with_tables shard) { stem_ledger = stem })
        (record (with_tables shard) { stem_ledger = saved }) (target saved final)
        (write_documents-ok _) (write_sections-ok _)
        (save_stem_ledger-ok (record (with_tables shard) { stem_ledger = stem }) saved written)
        (merge_cumulative-ok (record (with_tables shard) { stem_ledger = saved }) final returned)

  -- The application writes both tables, and the cumulative ledger then has one record for each identity
  -- among the plan's rejections and the records it had before: the first of them, with the greatest of
  -- their counts.
  pub apply_integrity_normalization-keeps :
      (merged : List RejectionRecord) × (final : Shard) × (apply_integrity_normalization floats
          tables plan shard
        ≡ (final, ok tt))
      × (final.documents ≡ some documents)
      × (final.sections ≡ some sections)
      × (load_ledger floats final.ledger ≡ ok merged)
      × Summarized (plan.rejections ++ olds) merged
  apply_integrity_normalization-keeps =
      let (saved, written, loaded, again) = saved_stem in
      let (merged, final, returned, read, sums) =
        merge_ledger_files-load floats int_of_equal saved shard.ledger plan.rejections olds
          (loaded ∙ ap ok (sort_of_sorted record_leq plan.rejections can.in_order)) can.loaded
          can.sortable in
      (
        merged,
        target saved final,
        applied shard.documents shard.sections shard.stem_ledger saved final written returned,
        refl,
        refl,
        read,
        sums,
      )

  -- the state after one, two and three writes
  one_written :
      (run_writes (write_documents floats tables plan ∷ []) shard).0
      ≡ record shard { documents = some documents }
  one_written =
      ap (λ w. w.0)
        (run_writes-one (write_documents floats tables plan) shard _ (write_documents-ok shard))

  two_written :
      (run_writes
        (write_documents floats tables plan ∷ write_sections floats tables plan ∷ [])
        shard).0
      ≡ with_tables shard
  two_written =
      ap (λ w. w.0)
        (run_writes-two (write_documents floats tables plan) (write_sections floats tables plan)
          shard _ _ (write_documents-ok shard)
          (write_sections-ok (record shard { documents = some documents })))

  three_written :
      (saved : LedgerFile)
      → save_ledger floats shard.stem_ledger plan.rejections ≡ ok saved
      → (run_writes
          (write_documents floats tables plan
            ∷ write_sections floats tables plan
            ∷ save_stem_ledger floats tables plan
            ∷ [])
          shard).0
        ≡ record (with_tables shard) { stem_ledger = saved }
  three_written saved written =
      ap (λ w. w.0)
        (run_writes-three (write_documents floats tables plan) (write_sections floats tables plan)
          (save_stem_ledger floats tables plan) shard _ _ _ (write_documents-ok shard)
          (write_sections-ok (record shard { documents = some documents }))
          (save_stem_ledger-ok (with_tables shard) saved written))

  completed :
      (n : ℕ)
      → n ≤ 3
      → (saved final : LedgerFile) → save_ledger floats shard.stem_ledger plan.rejections ≡ ok saved
      → save_ledger floats saved plan.rejections ≡ ok saved
      → merge_ledger_files floats (saved ∷ ledger_source shard.ledger) shard.ledger ≡ ok final
      → apply_integrity_normalization floats tables plan
          (run_writes (first_writes n (apply_steps floats tables plan)) shard).0
        ≡ (target saved final, ok tt)
  completed zero few saved final written again returned =
      applied shard.documents shard.sections shard.stem_ledger saved final written returned
  completed (suc zero) few saved final written again returned =
      ap (apply_integrity_normalization floats tables plan) one_written
      ∙ applied (some documents) shard.sections shard.stem_ledger saved final written returned
  completed (suc (suc zero)) few saved final written again returned =
      ap (apply_integrity_normalization floats tables plan) two_written
      ∙ applied (some documents) (some sections) shard.stem_ledger saved final written returned
  completed (suc (suc (suc zero))) few saved final written again returned =
      ap (apply_integrity_normalization floats tables plan) (three_written saved written)
      ∙ applied (some documents) (some sections) saved saved final again returned
  completed (suc (suc (suc (suc n)))) few saved final written again returned =
      absurd (omega (arith, few))

  -- An application that was interrupted after any number of its first three writes is completed by
  -- applying the plan again, with the same result as without the interruption.
  pub apply_integrity_normalization-resumes :
      (n : ℕ)
      → n ≤ 3
      → apply_integrity_normalization floats tables plan
          (run_writes (first_writes n (apply_steps floats tables plan)) shard).0
        ≡ apply_integrity_normalization floats tables plan shard
  apply_integrity_normalization-resumes n few =
      let (saved, written, loaded, again) = saved_stem in
      let (merged, final, returned, read, sums) =
        merge_ledger_files-load floats int_of_equal saved shard.ledger plan.rejections olds
          (loaded ∙ ap ok (sort_of_sorted record_leq plan.rejections can.in_order)) can.loaded
          can.sortable in
      completed n few saved final written again returned
      ∙ sym (applied shard.documents shard.sections shard.stem_ledger saved final written returned)

-- ===== src/Augmentation/RejectionLedger/Determined.antt =====
-- The merge of records that are determined by their identities.
use osm_polygon_wikidata_onl.Prelude.{
  ℕ, ◌≡◌, refl, ap, ◌∙◌, sym, ◌↔◌, max, true, List, [], ◌∷◌, none, some, contains, all,
  all-contains, str_eq, pair_eq, option_eq, ◌==◌, ==_iff, arith, contains-filter, all_of_contains,
}
use osm_polygon_wikidata_onl.Augmentation.RejectionLedger.{
  RejectionRecord, record_eq, Identity, identity,
}
use osm_polygon_wikidata_onl.Augmentation.RejectionLedger.Records.{counted}
use osm_polygon_wikidata_onl.Augmentation.RejectionLedger.Summaries.{
  summary, of_identity, absorb, greatest,
}
use osm_polygon_wikidata_onl.Augmentation.RejectionLedger.Merge.{summary-source}

max_self : (n : ℕ) → max n n ≡ n
max_self n = omega arith

greatest_constant :
    (v : RejectionRecord) (records : List RejectionRecord)
    → all (λ r. r == v) records ≡ true
    → greatest v.cascaded_sections records ≡ v.cascaded_sections
greatest_constant v [] h = refl
greatest_constant v (r ∷ records) h =
    let same : r ≡ v = (==_iff r v).0 (ground (arith, h)) in
    rw same (
      ap (λ n. greatest n records) (max_self v.cascaded_sections)
      ∙ greatest_constant v records (ground (arith, h)))

-- Equal records are summarized by themselves.
absorb_constant :
    (v r : RejectionRecord) (records : List RejectionRecord)
    → all (λ s. s == v) (r ∷ records) ≡ true
    → absorb none (r ∷ records) ≡ some v
absorb_constant v r records h =
    let same : r ≡ v = (==_iff r v).0 (ground (arith, h)) in
    rw same (ap (λ n. some (counted v n)) (greatest_constant v records (ground (arith, h))))

-- Records that are determined by their identities are the summaries of their list.
module _ (canonical : Identity → RejectionRecord) (records : List RejectionRecord)
    (determined : all (λ r. r == canonical (identity r)) records ≡ true) where
  of_identity_constant : (k : Identity) → all (λ r. r == canonical k) (of_identity k records) ≡ true
  of_identity_constant k = all_of_contains _ (of_identity k records) λ r m.
      let parts = sym (contains-filter (λ s. identity s == k) records r) ∙ m in
      let named : identity r ≡ k = (==_iff (identity r) k).0 (ground (arith, parts)) in
      ap (λ i. r == canonical i) (sym named)
      ∙ all-contains (λ s. s == canonical (identity s)) records r determined (ground (arith, parts))

  summary_of_nonempty :
      (k : Identity) (found : List RejectionRecord) (r : RejectionRecord)
      → all (λ s. s == canonical k) found ≡ true
      → contains found r ≡ true
      → absorb none found ≡ some (canonical k)
  summary_of_nonempty k [] r h m = absurd (cc m)
  summary_of_nonempty k (s ∷ found) r h m = absorb_constant (canonical k) s found h

  in_canonical_form : (r : RejectionRecord) → contains records r ≡ true → r ≡ canonical (identity r)
  in_canonical_form r m =
      (==_iff r (canonical (identity r))).0
        (all-contains (λ s. s == canonical (identity s)) records r determined m)

  summary_of_member :
      (r : RejectionRecord) (k : Identity)
      → contains records r ≡ true
      → identity r ≡ k
      → summary k records ≡ some r
  unfolding summary
  summary_of_member r k m named =
      summary_of_nonempty k (of_identity k records) r (of_identity_constant k) (
        contains-filter (λ s. identity s == k) records r
        ∙ rw (m, (==_iff (identity r) k).1 named) refl)
      ∙ ap some (ap canonical (sym named) ∙ sym (in_canonical_form r m))

  pub summary_of_determined :
      (r : RejectionRecord) → (summary (identity r) records ≡ some r) ↔ (contains records r ≡ true)
  summary_of_determined r = (
    λ h.
        let (first, member, named, same) = summary-source (identity r) records r h in
        let it : first ≡ r = cc (summary_of_member first (identity r) member named, h) in
        ap (contains records) (sym it) ∙ member,
    λ m. summary_of_member r (identity r) m refl,
  )

-- ===== src/Augmentation/RejectionLedger/Merge.antt =====
-- `merge_records` keeps one record per identity, the summary of those it was given.
use osm_polygon_wikidata_onl.Prelude.{
  ℕ, ◌≡◌, refl, ap, ap₂, ◌∙◌, sym, ◌↔◌, max, Bool, true, List, [], ◌∷◌, Option, none, some, all,
  contains, ◌==◌, ==_iff, ==_refl, str_eq, pair_eq, option_eq, arith, Dict, get, put, keys, values,
  distinct, all-contains, all_of_contains, get_of_value, value_of_get, get_of_entry, get-put,
  indexed, keys_of_indexed, contains-filter, contains-sort, sort, is_sorted, sort-is_sorted,
  distinct-map-sort, map, Ord, pair_ord, str_ord, option_ord, ok,
}
use osm_polygon_wikidata_onl.Augmentation.RejectionLedger.{
  RejectionRecord, record_eq, Identity, identity, sort_key, record_leq, orderable, merge_found,
  merge_loop, sort_records, merge_records,
}
use osm_polygon_wikidata_onl.Augmentation.RejectionLedger.Records.{
  counted, is_valid, counted-is_valid, with_cascaded_sections_of_valid,
}
use osm_polygon_wikidata_onl.Augmentation.RejectionLedger.Summaries.{
  summary, of_identity, absorb, greatest, joined, joined_loop, get-joined_loop,
  joined_loop-distinct,
}

-- A list in order that has each identity once, and for each the first of the records with the
-- greatest of their counts.
pub record Summarized (records : List RejectionRecord) (merged : List RejectionRecord)
    : Type 0 where
  pub in_order : is_sorted record_leq merged ≡ true
  pub unique : distinct (map identity merged) ≡ true
  pub members :
      (r : RejectionRecord) → (contains merged r ≡ true) ↔ (summary (identity r) records ≡ some r)

-- Python can compare all the records with one another.
abbrev pub is_sortable : List RejectionRecord → Bool
is_sortable records = all (λ a. all (orderable a) records) records

abbrev IsValidDict : Dict Identity RejectionRecord → Type 0
IsValidDict d = (k : Identity) (e : RejectionRecord) → get k d ≡ some e → is_valid e ≡ true

merge_found_of_valid :
    (d : Dict Identity RejectionRecord) (r : RejectionRecord) (o : Option RejectionRecord)
    → ((e : RejectionRecord) → o ≡ some e → is_valid e ≡ true)
    → merge_found d r o ≡ ok (put (identity r) (joined o r) d)
unfolding merge_found
merge_found_of_valid d r none h = refl
merge_found_of_valid d r (some e) h =
    rw (with_cascaded_sections_of_valid e (max e.cascaded_sections r.cascaded_sections) (h e refl))

joined-is_valid :
    (o : Option RejectionRecord) (r : RejectionRecord)
    → ((e : RejectionRecord) → o ≡ some e → is_valid e ≡ true)
    → is_valid r ≡ true
    → is_valid (joined o r) ≡ true
joined-is_valid none r h v = v
joined-is_valid (some e) r h v =
    counted-is_valid e (max e.cascaded_sections r.cascaded_sections) (h e refl)

put-IsValid :
    (k : Identity) (v : RejectionRecord) (d : Dict Identity RejectionRecord)
    → IsValidDict d
    → is_valid v ≡ true
    → IsValidDict (put k v d)
put-IsValid k v d h valid j e p =
    ground (arith, get-put k j v d, h j e, ap is_valid {x = v} {y = e})

-- On valid records the loop returns.
merge_loop_of_valid :
    (d : Dict Identity RejectionRecord) (records : List RejectionRecord)
    → IsValidDict d
    → all is_valid records ≡ true
    → merge_loop d records ≡ ok (joined_loop d records)
unfolding merge_loop
merge_loop_of_valid d [] h v = refl
merge_loop_of_valid d (r ∷ records) h v =
    let first : is_valid r ≡ true = ground (arith, v) in
    rw (merge_found_of_valid d r (get (identity r) d) (h (identity r))) (
      merge_loop_of_valid (put (identity r) (joined (get (identity r) d) r) d) records
        (put-IsValid (identity r) (joined (get (identity r) d) r) d h
          (joined-is_valid (get (identity r) d) r (h (identity r)) first))
        (ground (arith, v)))

-- A summary is a record of the list with another count.
pub absorb-source :
    (records : List RejectionRecord) (r : RejectionRecord)
    → absorb none records ≡ some r
    → (first : RejectionRecord) × (contains records first ≡ true)
      × (counted first r.cascaded_sections ≡ r)
absorb-source [] r h = absurd (cc h)
absorb-source (first ∷ records) r h =
    let same : counted first (greatest first.cascaded_sections records) ≡ r = cc h in
    (
      first,
      ground (arith, ==_refl first),
      sym (ap (λ (s : RejectionRecord). counted first s.cascaded_sections) same) ∙ same,
    )

pub summary-source :
    (k : Identity) (records : List RejectionRecord) (r : RejectionRecord)
    → summary k records ≡ some r
    → (first : RejectionRecord) × (contains records first ≡ true)
      × (identity first ≡ k)
      × (counted first r.cascaded_sections ≡ r)
unfolding summary
summary-source k records r h =
    let (first, member, same) = absorb-source (of_identity k records) r h in
    let parts = sym (contains-filter (λ s. identity s == k) records first) ∙ member in
    (first, ground (arith, parts), (==_iff (identity first) k).0 (ground (arith, parts)), same)

-- It has the identity it is asked for.
pub summary-identity :
    (k : Identity) (records : List RejectionRecord) (r : RejectionRecord)
    → summary k records ≡ some r
    → identity r ≡ k
summary-identity k records r h =
    let (first, member, named, same) = summary-source k records r h in
    sym (ap identity same) ∙ named

orderable-counted :
    (a b : RejectionRecord) (n m : ℕ) → orderable (counted a n) (counted b m) ≡ orderable a b
unfolding orderable
orderable-counted a b n m = refl

module _ (records summaries : List RejectionRecord) where
  -- Python can compare the summaries of records that it can compare.
  pub summaries-is_sortable :
      is_sortable records ≡ true
      → ((r : RejectionRecord)
          → contains summaries r ≡ true
          → summary (identity r) records ≡ some r)
      → is_sortable summaries ≡ true
  summaries-is_sortable sortable source = all_of_contains _ summaries λ a in_a.
      all_of_contains (orderable a) summaries λ b in_b.
        let (first, member, _, same) = summary-source (identity a) records a (source a in_a) in
        let (second, present, _, alike) = summary-source (identity b) records b (source b in_b) in
        let pair =
          all-contains (orderable first) records second
            (all-contains (λ r. all (orderable r) records) records first sortable member) present in
        ap₂ orderable (sym same) (sym alike)
        ∙ orderable-counted first second a.cascaded_sections b.cascaded_sections
        ∙ pair

  -- The summaries of valid records are valid.
  pub summaries-is_valid :
      all is_valid records ≡ true
      → ((r : RejectionRecord)
          → contains summaries r ≡ true
          → summary (identity r) records ≡ some r)
      → all is_valid summaries ≡ true
  summaries-is_valid valid source = all_of_contains is_valid summaries λ r m.
      let (first, member, _, same) = summary-source (identity r) records r (source r m) in
      ap is_valid (sym same)
      ∙ counted-is_valid first r.cascaded_sections
          (all-contains is_valid records first valid member)

module _ (records : List RejectionRecord) (valid : all is_valid records ≡ true)
    (sortable : is_sortable records ≡ true) where
  abbrev by_identity : Dict Identity RejectionRecord
  by_identity = joined_loop [] records

  pub get-by_identity : (k : Identity) → get k by_identity ≡ summary k records
  unfolding summary
  get-by_identity k = get-joined_loop [] records k

  by_identity-distinct : distinct (keys by_identity) ≡ true
  by_identity-distinct = joined_loop-distinct [] records refl

  value-summary :
      (r : RejectionRecord)
      → contains (values by_identity) r ≡ true
      → summary (identity r) records ≡ some r
  value-summary r m =
      let (k, p) = get_of_value r by_identity by_identity-distinct m in
      let q = sym (get-by_identity k) ∙ p in
      ap (λ i. summary i records) (summary-identity k records r q) ∙ q

  by_identity-indexed : indexed identity by_identity ≡ true
  by_identity-indexed = all_of_contains _ by_identity entry
    where
      entry :
          (x : Identity × RejectionRecord)
          → contains by_identity x ≡ true
          → (x.0 == identity x.1) ≡ true
      entry x m = (==_iff x.0 (identity x.1)).1 (
          sym (
            summary-identity x.0 records x.1 (
              sym (get-by_identity x.0) ∙ get_of_entry x.0 x.1 by_identity by_identity-distinct m)))

  values-is_sortable : is_sortable (values by_identity) ≡ true
  values-is_sortable = summaries-is_sortable records (values by_identity) sortable value-summary

  sorted_values-Summarized : Summarized records (sort record_leq (values by_identity))
  sorted_values-Summarized = record {
    in_order =
        sort-is_sorted record_leq (λ a b. Ord.leq_total pair_ord (sort_key a) (sort_key b))
          (λ a b c. Ord.leq_trans pair_ord (sort_key a) (sort_key b) (sort_key c))
          (values by_identity);
    unique =
        distinct-map-sort record_leq identity (values by_identity)
        ∙ ap distinct (sym (keys_of_indexed identity by_identity by_identity-indexed))
        ∙ by_identity-distinct;
    members = λ r. (
      λ m. value-summary r (sym (contains-sort record_leq (values by_identity) r) ∙ m),
      λ p.
          contains-sort record_leq (values by_identity) r
          ∙ value_of_get (identity r) r by_identity (get-by_identity (identity r) ∙ p),
    );
  }

  -- For valid records that Python can compare, the merge returns, in order, one record for each
  -- identity: the first of its records, with the greatest of their section counts.
  pub merge_records_lem :
      (merged : List RejectionRecord) × (merge_records records ≡ ok merged)
      × Summarized records merged
  unfolding merge_records sort_records
  merge_records_lem = (
    sort record_leq (values by_identity),
    rw (merge_loop_of_valid [] records (λ k e p. absurd (cc p)) valid) (rw values-is_sortable),
    sorted_values-Summarized,
  )

-- ===== src/Augmentation/RejectionLedger/Summaries.antt =====
-- What a merge promises for each identity: its first record, with the greatest of the counts.
use osm_polygon_wikidata_onl.Prelude.{
  ℕ, ◌≡◌, refl, ◌∙◌, max, true, List, [], ◌∷◌, Option, none, some, filter, ◌==◌, ==_iff, str_eq,
  pair_eq, option_eq, Dict, get, put, get-put, keys, distinct, put-distinct, inl, inr, Bool-cases,
}
use osm_polygon_wikidata_onl.Augmentation.RejectionLedger.{
  RejectionRecord, record_eq, Identity, identity,
}
use osm_polygon_wikidata_onl.Augmentation.RejectionLedger.Records.{counted}

-- The records of one identity, in order.
abbrev pub of_identity : Identity → List RejectionRecord → List RejectionRecord
of_identity k records = filter (λ r. identity r == k) records

abbrev pub greatest : ℕ → List RejectionRecord → ℕ
greatest n [] = n
greatest n (r ∷ records) = greatest (max n r.cascaded_sections) records

-- An earlier record, if there is one, takes in the later ones.
abbrev pub absorb : Option RejectionRecord → List RejectionRecord → Option RejectionRecord
absorb (some r) records = some (counted r (greatest r.cascaded_sections records))
absorb none [] = none
absorb none (r ∷ records) = some (counted r (greatest r.cascaded_sections records))

unfoldable pub summary : Identity → List RejectionRecord → Option RejectionRecord
summary k records = absorb none (of_identity k records)

-- The merge without the constructor, which valid records always pass.
abbrev pub joined : Option RejectionRecord → RejectionRecord → RejectionRecord
joined none r = r
joined (some e) r = counted e (max e.cascaded_sections r.cascaded_sections)

abbrev pub joined_loop :
    Dict Identity RejectionRecord → List RejectionRecord → Dict Identity RejectionRecord
joined_loop d [] = d
joined_loop d (r ∷ records) =
    joined_loop (put (identity r) (joined (get (identity r) d) r) d) records

absorb_nothing : (o : Option RejectionRecord) → o ≡ absorb o []
absorb_nothing none = refl
absorb_nothing (some r) = refl

absorb-joined :
    (o : Option RejectionRecord) (r : RejectionRecord) (records : List RejectionRecord)
    → absorb (some (joined o r)) records ≡ absorb o (r ∷ records)
absorb-joined none r records = refl
absorb-joined (some e) r records = refl

pub get-joined_loop :
    (d : Dict Identity RejectionRecord) (records : List RejectionRecord) (k : Identity)
    → get k (joined_loop d records) ≡ absorb (get k d) (of_identity k records)
get-joined_loop d [] k = absorb_nothing (get k d)
get-joined_loop d (r ∷ records) k =
    get-joined_loop (put (identity r) (joined (get (identity r) d) r) d) records k ∙ step
  where
    step :
        absorb (get k (put (identity r) (joined (get (identity r) d) r) d)) (of_identity k records)
        ≡ absorb (get k d) (of_identity k (r ∷ records))
    step = elim (Bool-cases (identity r == k)) [
      | inl same ↦ rw (get-put (identity r) k (joined (get (identity r) d) r) d) (
          rw same (
            rw ((==_iff (identity r) k).0 same)
              (absorb-joined (get k d) r (of_identity k records))))
      | inr other ↦ rw (get-put (identity r) k (joined (get (identity r) d) r) d) (rw other)
    ]

pub joined_loop-distinct :
    (d : Dict Identity RejectionRecord) (records : List RejectionRecord)
    → distinct (keys d) ≡ true
    → distinct (keys (joined_loop d records)) ≡ true
joined_loop-distinct d [] u = u
joined_loop-distinct d (r ∷ records) u =
    joined_loop-distinct (put (identity r) (joined (get (identity r) d) r) d) records
      (put-distinct (identity r) (joined (get (identity r) d) r) d u)

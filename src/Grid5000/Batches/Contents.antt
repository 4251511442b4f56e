-- ===== src/Grid5000/Batches/Contents.antt =====
-- The stems and the sizes that packing distributes (`pack_batches` of grid5000/sentence_protocol.py).
use osm_polygon_wikidata_onl.Prelude.{
  ℕ, ◌+◌, ◌≡◌, refl, sym, ap, ◌∙◌, false, List, [], ◌∷◌, ◌++◌, map, is_empty, Str, arith,
  Bool-cases, inl, inr,
}
use mathlib.Core.List.{append-nil, append_assoc}
use osm_polygon_wikidata_onl.Grid5000.Batches.{SentenceBatch, should_flush, make_batch, pack_loop}
use osm_polygon_wikidata_onl.Grid5000.Batches.Shape.{
  total, stems_of, joined, content_of, part_content,
}

stems_of-append : (bs cs : List SentenceBatch) → stems_of (bs ++ cs) ≡ stems_of bs ++ stems_of cs
stems_of-append [] cs = refl
stems_of-append (b ∷ bs) cs =
    ap (λ l. b.stems ++ l) (stems_of-append bs cs)
    ∙ sym (append_assoc b.stems (stems_of bs) (stems_of cs))

is_empty-snoc : (l : List Str) (x : Str) → is_empty (l ++ (x ∷ [])) ≡ false
is_empty-snoc [] x = refl
is_empty-snoc (y ∷ l) x = refl

contents-append :
    (bs cs : List SentenceBatch)
    → map content_of (bs ++ cs) ≡ map content_of bs ++ map content_of cs
contents-append [] cs = refl
contents-append (b ∷ bs) cs = ap (λ l. content_of b ∷ l) (contents-append bs cs)

parts-append :
    (ps qs : List (List (Str × ℕ)))
    → map part_content (ps ++ qs) ≡ map part_content ps ++ map part_content qs
parts-append [] qs = refl
parts-append (p ∷ ps) qs = ap (λ l. part_content p ∷ l) (parts-append ps qs)

joined-snoc :
    (ps : List (List (Str × ℕ))) (p : List (Str × ℕ)) → joined (ps ++ (p ∷ [])) ≡ joined ps ++ p
joined-snoc [] p = append-nil p
joined-snoc (q ∷ ps) p = ap (λ l. q ++ l) (joined-snoc ps p) ∙ sym (append_assoc q (joined ps) p)

stems-snoc :
    (part : List (Str × ℕ)) (x : Str × ℕ)
    → map (λ (y : Str × ℕ). y.0) (part ++ (x ∷ [])) ≡ map (λ (y : Str × ℕ). y.0) part ++ (x.0 ∷ [])
stems-snoc [] x = refl
stems-snoc (y ∷ part) x = ap (λ l. y.0 ∷ l) (stems-snoc part x)

size-snoc :
    (part : List (Str × ℕ)) (x : Str × ℕ)
    → total (map (λ (y : Str × ℕ). y.1) (part ++ (x ∷ [])))
      ≡ total (map (λ (y : Str × ℕ). y.1) part) + x.1
size-snoc [] x = omega arith
size-snoc (y ∷ part) x = omega (arith, size-snoc part x)

module _ (max_stems max_bytes : ℕ) where
  stems_of-closed :
      (bs : List SentenceBatch) (stems : List Str) (bytes : ℕ)
      → stems_of (bs ++ (make_batch bs stems bytes ∷ [])) ≡ stems_of bs ++ stems
  unfolding make_batch
  stems_of-closed bs stems bytes =
      stems_of-append bs _ ∙ ap (λ l. stems_of bs ++ l) (append-nil stems)

  -- The stems go into the batches in their order, each once.
  pub pack_loop-stems :
      (pending : List (Str × ℕ)) (bs : List SentenceBatch) (stems : List Str) (bytes : ℕ)
      → stems_of (pack_loop max_stems max_bytes bs stems bytes pending)
        ≡ stems_of bs ++ (stems ++ map (λ (x : Str × ℕ). x.0) pending)
  unfolding pack_loop make_batch
  pack_loop-stems [] bs [] bytes = sym (append-nil (stems_of bs))
  pack_loop-stems [] bs (s ∷ stems) bytes = stems_of-append bs _
  pack_loop-stems ((stem, size) ∷ pending) bs stems bytes =
      elim (Bool-cases (should_flush stems bytes size max_stems max_bytes)) [
        | inl h ↦ rw h (
            pack_loop-stems pending (bs ++ (make_batch bs stems bytes ∷ [])) (stem ∷ []) size
            ∙ (ap (λ l. l ++ (stem ∷ map (λ (x : Str × ℕ). x.0) pending))
                  (stems_of-closed bs stems bytes)
                ∙ append_assoc (stems_of bs) stems (stem ∷ map (λ (x : Str × ℕ). x.0) pending)))
        | inr h ↦ rw h (
            pack_loop-stems pending bs (stems ++ (stem ∷ [])) (bytes + size)
            ∙ ap (λ l. stems_of bs ++ l)
                (append_assoc stems (stem ∷ []) (map (λ (x : Str × ℕ). x.0) pending)))
      ]

  -- Where the closed batches hold some parts of the stems, and the open one another part, the loop goes on
  -- with parts of the pending stems.
  abbrev Divides : List (Str × ℕ) → List SentenceBatch → Type 0
  Divides pending batches =
      (parts : List (List (Str × ℕ))) × (joined parts ≡ pending)
      × (map content_of batches ≡ map part_content parts)

  closed-content :
      (bs : List SentenceBatch) (parts : List (List (Str × ℕ))) (stems : List Str) (bytes : ℕ)
      (part : List (Str × ℕ))
      → map content_of bs ≡ map part_content parts
      → (stems, bytes) ≡ part_content part
      → map content_of (bs ++ (make_batch bs stems bytes ∷ []))
        ≡ map part_content (parts ++ (part ∷ []))
  unfolding make_batch
  closed-content bs parts stems bytes part h k =
      contents-append bs _ ∙ (rw h (rw k refl) ∙ sym (parts-append parts (part ∷ [])))

  pub pack_loop-parts :
      (pending : List (Str × ℕ)) (bs : List SentenceBatch) (parts : List (List (Str × ℕ)))
      (stems : List Str) (bytes : ℕ) (part : List (Str × ℕ))
      → map content_of bs ≡ map part_content parts
      → (stems, bytes) ≡ part_content part
      → Divides
          (joined parts ++ (part ++ pending))
          (pack_loop max_stems max_bytes bs stems bytes pending)
  unfolding pack_loop
  pack_loop-parts [] bs parts [] bytes [] h k = (parts, sym (append-nil (joined parts)), h)
  pack_loop-parts [] bs parts [] bytes (x ∷ part) h k = absurd (cc k)
  pack_loop-parts [] bs parts (s ∷ stems) bytes part h k = (
    parts ++ (part ∷ []),
    joined-snoc parts part ∙ ap (λ l. joined parts ++ l) (sym (append-nil part)),
    closed-content bs parts (s ∷ stems) bytes part h k,
  )
  pack_loop-parts ((stem, size) ∷ pending) bs parts stems bytes part h k =
      elim (Bool-cases (should_flush stems bytes size max_stems max_bytes)) [
        | inl flush ↦ rw flush (
            let (ps, all_there, same) =
              pack_loop-parts pending (bs ++ (make_batch bs stems bytes ∷ []))
                (parts ++ (part ∷ [])) (stem ∷ []) size ((stem, size) ∷ [])
                (closed-content bs parts stems bytes part h k)
                (ap (λ n. (stem ∷ [], n)) (omega arith)) in
            (
              ps,
              all_there
                  ∙ (ap (λ l. l ++ ((stem, size) ∷ pending)) (joined-snoc parts part)
                      ∙ append_assoc (joined parts) part ((stem, size) ∷ pending)),
              same,
            ))
        | inr keep ↦ rw keep (
            let (ps, all_there, same) =
              pack_loop-parts pending bs parts (stems ++ (stem ∷ [])) (bytes + size)
                (part ++ ((stem, size) ∷ [])) h
                (rw (stems-snoc part (stem, size)) (
                  rw (size-snoc part (stem, size))
                    (ap (λ (c : List Str × ℕ). (c.0 ++ (stem ∷ []), c.1 + size)) k))) in
            (
              ps,
              all_there
                  ∙ ap (λ l. joined parts ++ l) (append_assoc part ((stem, size) ∷ []) pending),
              same,
            ))
      ]

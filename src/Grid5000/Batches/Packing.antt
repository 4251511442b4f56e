-- ===== src/Grid5000/Batches/Packing.antt =====
-- What the loop of `pack_batches` keeps (grid5000/sentence_protocol.py).
use osm_polygon_wikidata_onl.Prelude.{
  all-append, ℕ, ◌+◌, ◌≤◌, ◌≡◌, refl, ◌∙◌, Bool, true, false, ◌||◌, ◌&&◌, List, [], ◌∷◌, ◌++◌,
  length, is_empty, all, leb, Str, arith, length-append, Bool-cases, inl, inr,
}
use osm_polygon_wikidata_onl.Grid5000.Batches.{SentenceBatch, should_flush, make_batch, pack_loop}
use osm_polygon_wikidata_onl.Grid5000.Batches.Shape.{numbered, within, tight, unmergeable}

-- A batch that has not been closed yet.
abbrev open_within : ℕ → ℕ → List Str → ℕ → Bool
open_within max_stems max_bytes stems bytes =
    leb (length stems) max_stems && (leb bytes max_bytes || leb (length stems) 1)

numbered-snoc :
    (n : ℕ) (bs : List SentenceBatch) (b : SentenceBatch)
    → numbered n bs ≡ true
    → b.index ≡ n + length bs
    → numbered n (bs ++ (b ∷ [])) ≡ true
numbered-snoc n [] b h e = ground (arith, e)
numbered-snoc n (c ∷ bs) b h e = ground (arith, numbered-snoc (n + 1) bs b, h, e)

module _ (max_stems max_bytes : ℕ) where
  -- The batches so far cannot take what is open either.
  abbrev tight_before : List SentenceBatch → ℕ → Bool
  tight_before [] bytes = true
  tight_before (b ∷ []) bytes = unmergeable max_stems max_bytes b bytes
  tight_before (b ∷ c ∷ bs) bytes =
      unmergeable max_stems max_bytes b c.input_bytes && tight_before (c ∷ bs) bytes

  tight-snoc :
      (bs : List SentenceBatch) (b : SentenceBatch)
      → tight max_stems max_bytes (bs ++ (b ∷ [])) ≡ tight_before bs b.input_bytes
  tight-snoc [] b = refl
  tight-snoc (a ∷ []) b = ground arith
  tight-snoc (a ∷ c ∷ bs) b = ground (arith, tight-snoc (c ∷ bs) b)

  tight_before-snoc :
      (bs : List SentenceBatch) (b : SentenceBatch) (bytes : ℕ)
      → tight_before (bs ++ (b ∷ [])) bytes
        ≡ (tight_before bs b.input_bytes && unmergeable max_stems max_bytes b bytes)
  tight_before-snoc [] b bytes = refl
  tight_before-snoc (a ∷ []) b bytes = ground arith
  tight_before-snoc (a ∷ c ∷ bs) b bytes = ground (arith, tight_before-snoc (c ∷ bs) b bytes)

  tight_before_more :
      (bs : List SentenceBatch) (bytes more : ℕ)
      → tight_before bs bytes ≡ true
      → tight_before bs (bytes + more) ≡ true
  tight_before_more [] bytes more h = refl
  tight_before_more (a ∷ []) bytes more h = ground (arith, h)
  tight_before_more (a ∷ c ∷ bs) bytes more h =
      ground (arith, tight_before_more (c ∷ bs) bytes more, h)

  -- What the loop of packing keeps: the closed batches are right, and so is the open one.
  pub record Packing (bs : List SentenceBatch) (stems : List Str) (bytes : ℕ) : Type 0 where
    pub closed : all (within max_stems max_bytes) bs ≡ true
    pub opened : open_within max_stems max_bytes stems bytes ≡ true
    pub nothing : is_empty stems ≡ true → bytes ≡ 0
    pub before : is_empty stems ≡ false → tight_before bs bytes ≡ true
    pub first : is_empty stems ≡ true → bs ≡ []
    pub numbers : numbered 0 bs ≡ true

  pub record Packed (bs : List SentenceBatch) : Type 0 where
    pub all_within : all (within max_stems max_bytes) bs ≡ true
    pub all_tight : tight max_stems max_bytes bs ≡ true
    pub all_numbered : numbered 0 bs ≡ true

  module _ (bs : List SentenceBatch) (stems : List Str) (bytes : ℕ) (p : Packing bs stems bytes)
      (some_open : is_empty stems ≡ false) where
    abbrev closing : SentenceBatch
    closing = make_batch bs stems bytes

    length_positive : (l : List Str) → is_empty l ≡ false → 1 ≤ length l
    length_positive [] h = ground (arith, h)
    length_positive (x ∷ l) h = omega arith

    closing-within : all (within max_stems max_bytes) (bs ++ (closing ∷ [])) ≡ true
    unfolding make_batch
    closing-within =
        all-append (within max_stems max_bytes) bs (closing ∷ [])
        ∙ ground (arith, p.closed, p.opened, length_positive stems some_open)

    closing-numbered : numbered 0 (bs ++ (closing ∷ [])) ≡ true
    unfolding make_batch
    closing-numbered = numbered-snoc 0 bs closing p.numbers (omega arith)

    closing-Packed : Packed (bs ++ (closing ∷ []))
    unfolding make_batch
    closing-Packed = record {
      all_within = closing-within;
      all_tight = tight-snoc bs closing ∙ p.before some_open;
      all_numbered = closing-numbered;
    }

    closing-Packing :
        (stem : Str) (size : ℕ)
        → 1 ≤ max_stems
        → should_flush stems bytes size max_stems max_bytes ≡ true
        → Packing (bs ++ (closing ∷ [])) (stem ∷ []) size
    unfolding make_batch should_flush
    closing-Packing stem size positive h = record {
      closed = closing-within;
      opened = ground (arith, positive);
      nothing = λ e. ground (arith, e);
      before = λ _. tight_before-snoc bs closing size ∙ ground (arith, p.before some_open, h);
      first = λ e. ground (arith, e);
      numbers = closing-numbered;
    }

  extended-Packing :
      (bs : List SentenceBatch) (stems : List Str) (bytes : ℕ) (stem : Str) (size : ℕ)
      → 1 ≤ max_stems
      → Packing bs stems bytes
      → should_flush stems bytes size max_stems max_bytes ≡ false
      → Packing bs (stems ++ (stem ∷ [])) (bytes + size)
  unfolding should_flush
  extended-Packing bs [] bytes stem size positive p h = record {
    closed = p.closed;
    opened = ground (arith, positive);
    nothing = λ e. ground (arith, e);
    before = λ _. rw (p.first refl) refl;
    first = λ e. ground (arith, e);
    numbers = p.numbers;
  }
  extended-Packing bs (s ∷ stems) bytes stem size positive p h = record {
    closed = p.closed;
    opened = ground (arith, p.opened, h, length-append stems (stem ∷ []));
    nothing = λ e. ground (arith, e);
    before = λ _. tight_before_more bs bytes size (p.before refl);
    first = λ e. ground (arith, e);
    numbers = p.numbers;
  }

  should_flush-nonempty :
      (stems : List Str) (bytes size : ℕ)
      → should_flush stems bytes size max_stems max_bytes ≡ true
      → is_empty stems ≡ false
  unfolding should_flush
  should_flush-nonempty stems bytes size h = ground (arith, h)

  pub pack_loop-Packed :
      (pending : List (Str × ℕ)) (bs : List SentenceBatch) (stems : List Str) (bytes : ℕ)
      → 1 ≤ max_stems
      → Packing bs stems bytes
      → Packed (pack_loop max_stems max_bytes bs stems bytes pending)
  unfolding pack_loop
  pack_loop-Packed [] bs stems bytes positive p = elim (Bool-cases (is_empty stems)) [
    | inl e ↦
        rw e (rw (p.first e) (record { all_within = refl; all_tight = refl; all_numbered = refl }))
    | inr e ↦ rw e (closing-Packed bs stems bytes p e)
  ]
  pack_loop-Packed ((stem, size) ∷ pending) bs stems bytes positive p =
      elim (Bool-cases (should_flush stems bytes size max_stems max_bytes)) [
        | inl h ↦ rw h (
            pack_loop-Packed pending _ _ _ positive (
              closing-Packing bs stems bytes p (should_flush-nonempty stems bytes size h) stem size
                positive h))
        | inr h ↦ rw h (
            pack_loop-Packed pending _ _ _ positive
              (extended-Packing bs stems bytes stem size positive p h))
      ]

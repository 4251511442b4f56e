-- ===== src/Grid5000/Batches/Shape.antt =====
-- What is said of a list of batches (grid5000/sentence_protocol.py).
use osm_polygon_wikidata_onl.Prelude.{
  ℕ, ◌+◌, Bool, true, ◌||◌, ◌&&◌, List, [], ◌∷◌, ◌++◌, map, length, leb, ltb, nat_beq, Str,
}
use osm_polygon_wikidata_onl.Grid5000.Batches.{SentenceBatch}

abbrev pub total : List ℕ → ℕ
total [] = 0
total (n ∷ ns) = n + total ns

abbrev pub stems_of : List SentenceBatch → List Str
stems_of [] = []
stems_of (b ∷ bs) = b.stems ++ stems_of bs

-- what a batch says that it holds
abbrev pub content_of : SentenceBatch → List Str × ℕ
content_of b = (b.stems, b.input_bytes)

-- the stems and the size of a part of the pending stems
abbrev pub part_content : List (Str × ℕ) → List Str × ℕ
part_content part = (map (λ (x : Str × ℕ). x.0) part, total (map (λ (x : Str × ℕ). x.1) part))

abbrev pub joined : {A : Type 0} → List (List A) → List A
joined [] = []
joined (xs ∷ xss) = xs ++ joined xss

-- Batches are numbered from `n` on.
abbrev pub numbered : ℕ → List SentenceBatch → Bool
numbered n [] = true
numbered n (b ∷ bs) = nat_beq b.index n && numbered (n + 1) bs

-- A batch is not empty, keeps the number of its stems, and its size unless it is of one stem.
abbrev pub within : ℕ → ℕ → SentenceBatch → Bool
within max_stems max_bytes b =
    leb 1 (length b.stems)
    && leb (length b.stems) max_stems
    && (leb b.input_bytes max_bytes || leb (length b.stems) 1)

-- Two batches in a row that could not have been one: the first has all the stems it may have, or their
-- sizes together are too large.
abbrev pub unmergeable : ℕ → ℕ → SentenceBatch → ℕ → Bool
unmergeable max_stems max_bytes b bytes =
    leb max_stems (length b.stems) || ltb max_bytes (b.input_bytes + bytes)

abbrev pub tight : ℕ → ℕ → List SentenceBatch → Bool
tight max_stems max_bytes [] = true
tight max_stems max_bytes (b ∷ []) = true
tight max_stems max_bytes (b ∷ c ∷ bs) =
    unmergeable max_stems max_bytes b c.input_bytes && tight max_stems max_bytes (c ∷ bs)

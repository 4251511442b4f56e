-- ===== src/Grid5000/Batches.antt =====
-- grid5000/sentence_protocol.py: the stems that are still to be split, packed into batches.
pub mod Shape
pub mod Contents
pub mod Packing
pub mod Laws
use osm_polygon_wikidata_onl.Prelude.{
  ℕ, suc, ◌+◌, Bool, true, false, ◌||◌, ◌&&◌, not, List, [], ◌∷◌, ◌++◌, map, if◌then◌else◌, length,
  is_empty, all, contains, leb, ltb, Str, codes, str_eq, pair_eq, ◌==◌, Result, ok, err,
  value_error, ◌>>◌, ◌>>=◌, guard, sort, str_leq,
}

pub record SentenceBatch : Type 0 where
  pub index : ℕ
  pub stems : List Str
  pub input_bytes : ℕ

-- The files that a stem has been read from: the sizes of the Wikipedia sections and, if there are any, of
-- the Wikivoyage sections.
pub record StemSources : Type 0 where
  pub stem : Str
  pub wikipedia_size : ℕ
  pub has_wikivoyage : Bool
  pub wikivoyage_size : ℕ

unfoldable pub should_flush : List Str → ℕ → ℕ → ℕ → ℕ → Bool
should_flush current_stems current_bytes next_bytes max_stems max_input_bytes =
    not (is_empty current_stems)
    && (leb max_stems (length current_stems) || ltb max_input_bytes (current_bytes + next_bytes))

unfoldable pub make_batch : List SentenceBatch → List Str → ℕ → SentenceBatch
make_batch batches stems input_bytes = record {
  index = length batches;
  stems = stems;
  input_bytes = input_bytes;
}

-- the loop of `_pack_batches`, with its three variables
unfoldable pub pack_loop :
    ℕ → ℕ → List SentenceBatch → List Str → ℕ → List (Str × ℕ) → List SentenceBatch
unfolding should_flush make_batch
pack_loop max_stems max_input_bytes batches current_stems current_bytes [] =
    if is_empty current_stems
    then batches
    else batches ++ (make_batch batches current_stems current_bytes ∷ [])
pack_loop max_stems max_input_bytes batches current_stems current_bytes
      ((stem, input_bytes) ∷ pending) =
    let flushed =
      pack_loop max_stems max_input_bytes
        (batches ++ (make_batch batches current_stems current_bytes ∷ [])) (stem ∷ []) input_bytes
        pending in
    let extended =
      pack_loop max_stems max_input_bytes batches (current_stems ++ (stem ∷ []))
        (current_bytes + input_bytes) pending in
    if should_flush current_stems current_bytes input_bytes max_stems max_input_bytes
    then flushed
    else extended

unfoldable pub pack_batches : List (Str × ℕ) → ℕ → ℕ → List SentenceBatch
unfolding pack_loop
pack_batches pending max_stems max_input_bytes = pack_loop max_stems max_input_bytes [] [] 0 pending

unfoldable pub required_projects : StemSources → List Str
required_projects s =
    if s.has_wikivoyage then codes "wikipedia" ∷ codes "wikivoyage" ∷ [] else codes "wikipedia" ∷ []

unfoldable pub is_complete : Str → List Str → List (Str × Str) → Bool
is_complete stem projects completed = all (λ project. contains completed (stem, project)) projects

unfoldable pub size_of : StemSources → ℕ
size_of s = if s.has_wikivoyage then s.wikipedia_size + s.wikivoyage_size else s.wikipedia_size

-- `_pending_stems`, of the finalized stems in order
unfoldable pub pending_stems : List StemSources → List (Str × Str) → List (Str × ℕ)
unfolding required_projects is_complete size_of
pending_stems [] completed = []
pending_stems (s ∷ rest) completed =
    let later = pending_stems rest completed in
    if is_complete s.stem (required_projects s) completed
    then later
    else (s.stem, size_of s) ∷ later

-- `_validate_limits`
unfoldable pub validate_limits : ℕ → ℕ → Result (Unit {0})
validate_limits max_stems max_input_bytes =
    guard (leb 1 max_stems) value_error >> guard (leb 1 max_input_bytes) value_error

unfoldable pub by_stem : StemSources → StemSources → Bool
by_stem s t = str_leq s.stem t.stem

-- `plan_sentence_batches`: `finalized` is the manifest's stems with their source files, `completed` the
-- regions of the sentence manifest
unfoldable pub plan_sentence_batches :
    List StemSources → List (Str × Str) → ℕ → ℕ → Result (List SentenceBatch)
unfolding validate_limits pending_stems pack_batches by_stem
plan_sentence_batches finalized completed max_stems max_input_bytes =
    validate_limits max_stems max_input_bytes
    >> (if is_empty finalized
        then ok []
        else ok (
            pack_batches (pending_stems (sort by_stem finalized) completed) max_stems
              max_input_bytes))

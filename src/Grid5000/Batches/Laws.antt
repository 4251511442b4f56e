-- ===== src/Grid5000/Batches/Laws.antt =====
-- What the batches of a plan hold (`pack_batches` of grid5000/sentence_protocol.py).
use osm_polygon_wikidata_onl.Prelude.{ℕ, ◌≤◌, ◌≡◌, refl, true, List, [], map, all, Str, arith}
use osm_polygon_wikidata_onl.Grid5000.Batches.{pack_batches}
use osm_polygon_wikidata_onl.Grid5000.Batches.Shape.{
  stems_of, joined, content_of, part_content, numbered, within, tight,
}
use osm_polygon_wikidata_onl.Grid5000.Batches.Packing.{Packing, pack_loop-Packed}
use osm_polygon_wikidata_onl.Grid5000.Batches.Contents.{pack_loop-stems, pack_loop-parts}

-- With at least one stem allowed, the pending stems are divided, in their order, into parts, one for each
-- batch, which holds the stems of its part and whose size is the sum of their sizes; the batches are numbered from 0; each has at least one stem, at most as
-- many as allowed, and at most the allowed size unless it is of a single stem; and no two in a row could
-- have been one.
pub pack_batches_lem :
    (pending : List (Str × ℕ)) (max_stems max_bytes : ℕ)
    → 1 ≤ max_stems
    → let batches = pack_batches pending max_stems max_bytes in
      ((parts : List (List (Str × ℕ))) × (joined parts ≡ pending)
        × (map content_of batches ≡ map part_content parts))
      × (stems_of batches ≡ map (λ (x : Str × ℕ). x.0) pending)
      × (numbered 0 batches ≡ true)
      × (all (within max_stems max_bytes) batches ≡ true)
      × (tight max_stems max_bytes batches ≡ true)
unfolding pack_batches
pack_batches_lem pending max_stems max_bytes positive =
    let start : Packing max_stems max_bytes [] [] 0 = record {
      closed = refl;
      opened = ground arith;
      nothing = λ _. refl;
      before = λ e. ground (arith, e);
      first = λ _. refl;
      numbers = refl;
    } in
    let packed = pack_loop-Packed max_stems max_bytes pending [] [] 0 positive start in
    (
      pack_loop-parts max_stems max_bytes pending [] [] [] 0 [] refl refl,
      pack_loop-stems max_stems max_bytes pending [] [] 0,
      packed.all_numbered,
      packed.all_within,
      packed.all_tight,
    )

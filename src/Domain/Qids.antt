-- ===== src/Domain/Qids.antt =====
-- domain/wikidata_qids.py: the pattern of a Wikidata identifier and the OSM tag that lists them.
pub mod Laws
use osm_polygon_wikidata_onl.Prelude.{
  Bool, false, ◌&&◌, List, [], ◌∷◌, map, if◌then◌else◌, leb, Str, nat_beq, all, remove_all, str_eq,
}
use osm_polygon_wikidata_onl.Domain.Chars.{is_decimal, split, strip}

-- `^Q[1-9]\d*$`, matched against the whole text
unfoldable pub is_valid_qid : Str → Bool
is_valid_qid (q ∷ d ∷ ds) = nat_beq q b'Q' && leb b'1' d && leb d b'9' && all is_decimal ds
is_valid_qid _ = false

-- `tuple(dict.fromkeys(xs))`
unfoldable pub from_keys : List Str → List Str
from_keys [] = []
from_keys (x ∷ xs) = x ∷ remove_all x (from_keys xs)

unfoldable pub components : Str → List Str
components value = map strip (split b';' value)

unfoldable pub qids_from_osm_tag : Str → List Str
unfolding components
qids_from_osm_tag value =
    if all is_valid_qid (components value) then from_keys (components value) else []

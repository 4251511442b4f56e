-- ===== src/Domain/Stems.antt =====
-- domain/stems.py
use osm_polygon_wikidata_onl.Prelude.{
  Bool, ◌&&◌, ◌||◌, not, Str, codes, contains, nat_eq, ◌==◌, str_eq, [],
}

-- a non-empty string that is one component of a path
unfoldable pub is_safe_stem : Str → Bool
is_safe_stem stem =
    not (stem == [])
    && not (stem == codes "." || stem == codes "..")
    && not (contains stem b'/')
    && not (contains stem b'\\')

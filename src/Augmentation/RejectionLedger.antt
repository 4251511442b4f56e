-- ===== src/Augmentation/RejectionLedger.antt =====
-- augmentation/rejection_ledger.py: the records of rejected rows, and how they are merged.
pub mod Records
pub mod Summaries
pub mod Merge
pub mod Determined
pub mod Files
pub mod Plan
use osm_polygon_wikidata_onl.Prelude.{
  ℕ, ◌≡◌, ap, ◌↔◌, max, Bool, true, false, ◌&&◌, not, List, [], ◌∷◌, Option, none, some, is_some,
  if◌then◌else◌, is_empty, all, contains, Str, codes, str_eq, nat_eq, pair_eq, option_eq, Eq,
  ==_iff, ◌==◌, Ord, str_ord, pair_ord, option_ord, sort, Dict, get, put, values, Result, ok, err,
  value_error, type_error, guard, ◌>>◌, ◌>>=◌,
}
use osm_polygon_wikidata_onl.Json.{Json, null, text, array, object, optional}
use osm_polygon_wikidata_onl.Domain.Values.{ℤ, pos, negsuc}
use osm_polygon_wikidata_onl.Domain.Qids.{qids_from_osm_tag}

abbrev pub supported_source_tables : List Str
supported_source_tables = codes "polygon_articles" ∷ codes "wikivoyage_documents" ∷ []

-- `wikidata` is declared as a text, but the constructor lets None through.
pub record RejectionRecord : Type 0 where
  pub shard : Str
  pub source_table : Str
  pub identifier : Str
  pub wikidata : Option Str
  pub expected : Option Str
  pub reason : Str
  pub cascaded_sections : ℕ

abbrev pub Identity : Type 0
Identity = Str × (Str × (Str × (Option Str × Option Str)))

abbrev pub identity : RejectionRecord → Identity
identity r = (r.shard, (r.source_table, (r.identifier, (r.wikidata, r.expected))))

abbrev Columns : Type 0
Columns = Identity × (Str × ℕ)

abbrev columns : RejectionRecord → Columns
columns r = (identity r, (r.reason, r.cascaded_sections))

of_columns : Columns → RejectionRecord
of_columns c = record {
  shard = c.0.0;
  source_table = c.0.1.0;
  identifier = c.0.1.1.0;
  wikidata = c.0.1.1.1.0;
  expected = c.0.1.1.1.1;
  reason = c.1.0;
  cascaded_sections = c.1.1;
}

unfoldable pub record_beq : RejectionRecord → RejectionRecord → Bool
record_beq a b = columns a == columns b

pub record_beq_iff : (a b : RejectionRecord) → (record_beq a b ≡ true) ↔ (a ≡ b)
unfolding record_beq of_columns
record_beq_iff a b = (
  λ h. ap of_columns ((==_iff (columns a) (columns b)).0 h),
  λ p. (==_iff (columns a) (columns b)).1 (ap columns p),
)

instance abbrev pub record_eq : Eq RejectionRecord
record_eq = record { beq = record_beq; beq_iff = record_beq_iff }

unfoldable pub require_nonempty_string : Json → Result Str
require_nonempty_string (text value) = guard (not (is_empty value)) value_error >> ok value
require_nonempty_string _ = err value_error

-- `source_table in SUPPORTED_SOURCE_TABLES`
unfoldable pub is_supported : Str → Bool
is_supported table = contains supported_source_tables table

-- a list or a dictionary cannot be looked up in a set
unfoldable pub validate_source_table : Json → Result Str
validate_source_table (text table) = guard (is_supported table) value_error >> ok table
validate_source_table (array _) = err type_error
validate_source_table (object _) = err type_error
validate_source_table _ = err value_error

-- `_is_valid_qid` of a text
unfoldable pub has_valid_qid : Str → Bool
has_valid_qid value = not (is_empty (qids_from_osm_tag value))

unfoldable pub validate_rejection_qid : Json → Result (Option Str)
unfolding has_valid_qid
validate_rejection_qid null = ok none
validate_rejection_qid (text value) = guard (has_valid_qid value) value_error >> ok (some value)
validate_rejection_qid _ = err value_error

unfoldable pub validate_cascaded_sections : ℤ → Result ℕ
validate_cascaded_sections (pos n) = ok n
validate_cascaded_sections (negsuc n) = err value_error

-- The constructor with `__post_init__`, on whatever JSON values it is called with.
unfoldable pub rejection_record :
    Json → Json → Json → Json → Json → Json → ℤ → Result RejectionRecord
unfolding require_nonempty_string validate_source_table validate_rejection_qid
    validate_cascaded_sections
rejection_record shard source_table identifier wikidata expected reason cascaded_sections = do
  shard ← require_nonempty_string shard
  identifier ← require_nonempty_string identifier
  reason ← require_nonempty_string reason
  source_table ← validate_source_table source_table
  wikidata ← validate_rejection_qid wikidata
  expected ← validate_rejection_qid expected
  cascaded_sections ← validate_cascaded_sections cascaded_sections
  ok (record {
    shard = shard;
    source_table = source_table;
    identifier = identifier;
    wikidata = wikidata;
    expected = expected;
    reason = reason;
    cascaded_sections = cascaded_sections;
  })

-- The record with another count, built again: `replace`, and the merged record.
unfoldable pub with_cascaded_sections : RejectionRecord → ℕ → Result RejectionRecord
unfolding rejection_record
with_cascaded_sections r n =
    rejection_record (text r.shard) (text r.source_table) (text r.identifier) (optional r.wikidata)
      (optional r.expected) (text r.reason) (pos n)

-- one turn of the loop of `merge_records`, with `by_identity.get(record.identity)`
unfoldable pub merge_found :
    Dict Identity RejectionRecord
    → RejectionRecord
    → Option RejectionRecord
    → Result (Dict Identity RejectionRecord)
unfolding with_cascaded_sections
merge_found by_identity r none = ok (put (identity r) r by_identity)
merge_found by_identity r (some existing) =
    with_cascaded_sections existing (max existing.cascaded_sections r.cascaded_sections)
    >>= λ merged. ok (put (identity r) merged by_identity)

unfoldable pub merge_loop :
    Dict Identity RejectionRecord → List RejectionRecord → Result (Dict Identity RejectionRecord)
unfolding merge_found
merge_loop by_identity [] = ok by_identity
merge_loop by_identity (r ∷ rest) =
    merge_found by_identity r (get (identity r) by_identity) >>= λ next. merge_loop next rest

-- the key of the two calls of `sorted`
abbrev pub SortKey : Type 0
SortKey = Str × (Str × (Str × Option Str))

abbrev pub sort_key : RejectionRecord → SortKey
sort_key r = (r.shard, (r.source_table, (r.identifier, r.wikidata)))

abbrev pub record_leq : RejectionRecord → RejectionRecord → Bool
record_leq a b = Ord.leq pair_ord (sort_key a) (sort_key b)

-- None and a text have no order.
abbrev pub alike : Option Str → Option Str → Bool
alike none none = true
alike (some a) (some b) = true
alike _ _ = false

-- whether Python can compare two keys: they differ first in a text, or are both None there
unfoldable pub orderable : RejectionRecord → RejectionRecord → Bool
orderable a b =
    if a.shard == b.shard && a.source_table == b.source_table && a.identifier == b.identifier
    then alike a.wikidata b.wikidata
    else true

-- Any sort that meets two keys without an order has to compare such a pair.
unfoldable pub sort_records : List RejectionRecord → Result (List RejectionRecord)
unfolding orderable
sort_records records =
    guard (all (λ a. all (orderable a) records) records) type_error >> ok (sort record_leq records)

unfoldable pub merge_records : List RejectionRecord → Result (List RejectionRecord)
unfolding merge_loop sort_records
merge_records records = merge_loop [] records >>= λ by_identity. sort_records (values by_identity)

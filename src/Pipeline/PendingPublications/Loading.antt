-- ===== src/Pipeline/PendingPublications/Loading.antt =====
-- pipeline/pending_publications.py: what loading reads of the file, and when it succeeds.
use osm_polygon_wikidata_onl.Prelude.{
  ◌≡◌, refl, sym, ap, ◌∙◌, Bool, true, false, not, ◌||◌, ◌&&◌, List, [], ◌∷◌, some, arith, all,
  contains, distinct, contains-sort, Str, codes, str_eq, ◌==◌, ==_iff, str_leq, sort, insert, get,
  erase, get-erase, ok, ◌>>=◌, guard, traverse, >>=-eq-ok, ok_injective, value_error,
}
use osm_polygon_wikidata_onl.Domain.Stems.{is_safe_stem}
use osm_polygon_wikidata_onl.Pipeline.SyncPlanning.{set_of}
use osm_polygon_wikidata_onl.Pipeline.SyncPlanning.Actions.{contains-set_of}
use osm_polygon_wikidata_onl.Json.{
  null, boolean, number, text, array, object, Items, no_items, item, fraction,
}
use osm_polygon_wikidata_onl.Pipeline.PendingPublications.{
  Envelope, Stored, absent, malformed, no_object, holds, has_version, load_envelope, list_of,
  validate_stem, pending_stem_values, stems_of_items, validate_pending_stem_values,
  load_pending_publications, items_of,
}

pub validated : (xs : List Str) → all is_safe_stem xs ≡ true → traverse validate_stem xs ≡ ok xs
unfolding validate_stem
validated [] h = refl
validated (x ∷ xs) h =
    let first : is_safe_stem x ≡ true = ground (arith, h) in
    rw first (rw (validated xs (ground (arith, h))) refl)

stems_of_items-items_of :
    (xs : List Str) → all is_safe_stem xs ≡ true → stems_of_items (items_of xs) ≡ ok xs
unfolding stems_of_items items_of validate_stem
stems_of_items-items_of [] h = refl
stems_of_items-items_of (x ∷ xs) h =
    let first : is_safe_stem x ≡ true = ground (arith, h) in
    rw first (rw (stems_of_items-items_of xs (ground (arith, h))) refl)

contains_inserted :
    (x : Str) (ys : List Str) (a : Str)
    → contains (insert str_leq x ys) a ≡ (x == a || contains ys a)
contains_inserted x [] a = refl
contains_inserted x (y ∷ ys) a = ground (arith, contains_inserted x ys a)

distinct-insert :
    (x : Str) (ys : List Str)
    → distinct (insert str_leq x ys) ≡ (not (contains ys x) && distinct ys)
distinct-insert x [] = refl
distinct-insert x (y ∷ ys) =
    ground (arith, distinct-insert x ys, contains_inserted x ys y, ==_iff x y, ==_iff y x)

pub distinct-sort : (xs : List Str) → distinct (sort str_leq xs) ≡ distinct xs
distinct-sort [] = refl
distinct-sort (x ∷ xs) =
    ground
      (arith, distinct-insert x (sort str_leq xs), distinct-sort xs, contains-sort str_leq xs x)

pub set_of-distinct : (xs : List Str) → distinct (set_of xs) ≡ true
unfolding set_of
set_of-distinct [] = refl
set_of-distinct (x ∷ xs) = ground (arith, set_of-distinct xs)

pub contains_stored :
    (xs : List Str) (a : Str) → contains (sort str_leq (set_of xs)) a ≡ contains xs a
contains_stored xs a = contains-sort str_leq (set_of xs) a ∙ contains-set_of xs a

guard-passed : (b : Bool) {u : Unit {0}} → guard b value_error ≡ ok u → b ≡ true
guard-passed true h = refl
guard-passed false h = cc

safe_items :
    (items : Items) (xs : List Str) → stems_of_items items ≡ ok xs → all is_safe_stem xs ≡ true
unfolding stems_of_items validate_stem
safe_items no_items xs h = rw (sym (ok_injective h)) refl
safe_items (item (text stem) items) xs h =
    let (safe, was_safe, rest) = >>=-eq-ok (validate_stem stem) _ h in
    let (checked, passed, same) = >>=-eq-ok (guard (is_safe_stem stem) value_error) _ was_safe in
    let (stems, read, all_) = >>=-eq-ok (stems_of_items items) _ rest in
    ground (
      arith,
      guard-passed (is_safe_stem stem) passed,
      safe_items items stems read,
      ap (all is_safe_stem) (ok_injective all_),
      ap is_safe_stem (ok_injective same),
    )
safe_items (item null items) xs h = cc
safe_items (item (boolean b) items) xs h = cc
safe_items (item (number n) items) xs h = cc
safe_items (item (fraction f) items) xs h = cc
safe_items (item (array a) items) xs h = cc
safe_items (item (object o) items) xs h = cc

-- What a list that could be loaded says of the file.
pub record Loaded (file : Stored) (current : List Str) : Type 0 where
  pub envelope : Envelope
  pub opened : load_envelope file ≡ ok envelope
  pub safe : all is_safe_stem current ≡ true

envelope-Loaded :
    (file : Stored) (current : List Str)
    → (load_envelope file >>= λ content.
        pending_stem_values content >>= validate_pending_stem_values)
      ≡ ok current
    → Loaded file current
unfolding validate_pending_stem_values
envelope-Loaded file current h =
    let (envelope, opened, rest) = >>=-eq-ok (load_envelope file) _ h in
    let (items, found, checked) = >>=-eq-ok (pending_stem_values envelope) _ rest in
    let (stems, read, kept) = >>=-eq-ok (stems_of_items items) _ checked in
    let (passed, was, same) = >>=-eq-ok (guard (distinct stems) value_error) _ kept in
    record {
      envelope = envelope;
      opened = opened;
      safe = ap (all is_safe_stem) (sym (ok_injective same)) ∙ safe_items items stems read;
    }

pub loaded :
    (file : Stored) (current : List Str)
    → load_pending_publications file ≡ ok current
    → Loaded file current
unfolding load_pending_publications load_envelope
loaded absent current h = record {
  envelope = [];
  opened = refl;
  safe = ap (all is_safe_stem) (sym (ok_injective h));
}
loaded malformed current h = cc
loaded no_object current h = cc
loaded (holds content) current h = envelope-Loaded (holds content) current h

-- An envelope of the right version is loaded again.
pub version-loads :
    (envelope : Envelope)
    → has_version (get (codes "contract_version") envelope) ≡ true
    → load_envelope (holds envelope) ≡ ok envelope
unfolding load_envelope
version-loads envelope version = rw version refl

pub loaded_version :
    (content : Envelope) {envelope : Envelope}
    → load_envelope (holds content) ≡ ok envelope
    → has_version (get (codes "contract_version") content) ≡ true
unfolding load_envelope
loaded_version content h =
    let (checked, passed, same) = >>=-eq-ok (guard _ value_error) _ h in guard-passed _ passed

pub listed_values :
    (envelope : Envelope) (items : Items)
    → get (codes "stems") envelope ≡ some (array items)
    → pending_stem_values envelope ≡ ok items
unfolding pending_stem_values list_of
listed_values envelope items listed = ap list_of listed

pub valid_values :
    (xs : List Str)
    → all is_safe_stem xs ≡ true
    → distinct xs ≡ true
    → validate_pending_stem_values (items_of xs) ≡ ok xs
unfolding validate_pending_stem_values
valid_values xs safe unique = rw (stems_of_items-items_of xs safe) (rw unique refl)

-- What is loaded depends on the version and on the list of stems only.
pub opened-loads :
    (envelope : Envelope)
    → load_envelope (holds envelope) ≡ ok envelope
    → load_pending_publications (holds envelope)
      ≡ (pending_stem_values envelope >>= validate_pending_stem_values)
unfolding load_pending_publications
opened-loads envelope opened =
    ap (λ r. r >>= λ content. pending_stem_values content >>= validate_pending_stem_values) opened

pub erased_values :
    (envelope : Envelope)
    → pending_stem_values (erase (codes "metadata_refresh") envelope) ≡ pending_stem_values envelope
unfolding pending_stem_values
erased_values envelope = ap list_of (get-erase (codes "metadata_refresh") (codes "stems") envelope)

-- ===== src/Pipeline/PendingPublications/Laws.antt =====
-- pipeline/pending_publications.py: what is loaded after a change of the list.
use osm_polygon_wikidata_onl.Prelude.{
  all-append, ◌≡◌, refl, sym, ap, ◌∙◌, Bool, true, false, not, ◌||◌, ◌&&◌, List, [], ◌∷◌, ◌++◌,
  Option, none, arith, filter, all, contains, contains-append, contains-filter, all-contains,
  all_of_contains, Str, codes, str_eq, str_leq, sort, get, put, erase, has, get-put, get-erase,
  has-get, Result, ok, ◌>>=◌, Bool-cases, inl, inr,
}
use osm_polygon_wikidata_onl.Domain.Stems.{is_safe_stem}
use osm_polygon_wikidata_onl.Pipeline.SyncPlanning.{set_of}
use osm_polygon_wikidata_onl.Json.{Json, text, array}
use osm_polygon_wikidata_onl.Pipeline.PendingPublications.{
  Envelope, Stored, absent, malformed, no_object, holds, contract_version, has_version,
  load_envelope, validate_pending_stem_values, load_pending_publications, items_of,
  save_pending_publications, add_pending_publications, remove_pending_publications, without_marker,
  clear_metadata_refresh_marker,
}
use osm_polygon_wikidata_onl.Pipeline.PendingPublications.Loading.{
  validated, contains_stored, Loaded, loaded, version-loads, loaded_version, listed_values,
  valid_values, opened-loads, erased_values, distinct-sort, set_of-distinct,
}

-- The marker in the envelope, if there is one.
abbrev pub marker : Stored → Result (Option Json)
marker file = load_envelope file >>= λ envelope. ok (get (codes "metadata_refresh") envelope)

-- The list has been replaced by the wanted one, and the marker has been kept.
pub record Saves (file : Stored) (wanted : Str → Bool) (result : Result Stored) : Type 0 where
  pub new_file : Stored
  pub stems : List Str
  pub written : result ≡ ok new_file
  pub reloaded : load_pending_publications new_file ≡ ok stems
  pub wanted_stems : (a : Str) → contains stems a ≡ wanted a
  pub marker_kept : marker new_file ≡ marker file

save-Saves :
    (file : Stored) (current wanted : List Str)
    → Loaded file current
    → all is_safe_stem wanted ≡ true
    → Saves file (contains wanted) (save_pending_publications file wanted)
unfolding save_pending_publications has_version
save-Saves file current wanted before safe =
    let sorted = sort str_leq (set_of wanted) in
    let safe_sorted : all is_safe_stem sorted ≡ true =
      all_of_contains is_safe_stem sorted
        (λ a m. all-contains is_safe_stem wanted a safe (sym (contains_stored wanted a) ∙ m)) in
    let versioned = put (codes "contract_version") (text contract_version) before.envelope in
    let envelope = put (codes "stems") (array (items_of sorted)) versioned in
    let version : has_version (get (codes "contract_version") envelope) ≡ true = ap has_version (
      get-put (codes "stems") (codes "contract_version") (array (items_of sorted)) versioned
      ∙ get-put (codes "contract_version") (codes "contract_version") (text contract_version)
          before.envelope) in
    let same : get (codes "metadata_refresh") envelope
        ≡ get (codes "metadata_refresh") before.envelope =
      get-put (codes "stems") (codes "metadata_refresh") (array (items_of sorted)) versioned
      ∙ get-put (codes "contract_version") (codes "metadata_refresh") (text contract_version)
          before.envelope in
    record {
      new_file = holds envelope;
      stems = sorted;
      written = rw (validated wanted safe) (rw before.opened refl);
      reloaded =
          opened-loads envelope (version-loads envelope version)
          ∙ (ap (λ r. r >>= validate_pending_stem_values)
                (listed_values envelope (items_of sorted)
                  (get-put (codes "stems") (codes "stems") (array (items_of sorted)) versioned))
              ∙ valid_values sorted safe_sorted
                  (distinct-sort (set_of wanted) ∙ set_of-distinct wanted));
      wanted_stems = contains_stored wanted;
      marker_kept = rw (version-loads envelope version) (rw before.opened (ap ok same));
    }

-- A list that could be loaded, with safe stems added: adding returns, what is loaded then holds exactly
-- the stems of before and the added ones, and the marker of a metadata refresh is what it was.
pub add_pending_publications_lem :
    (file : Stored) (current stems : List Str)
    → load_pending_publications file ≡ ok current
    → all is_safe_stem stems ≡ true
    → Saves file (λ a. contains current a || contains stems a) (add_pending_publications file stems)
unfolding add_pending_publications
add_pending_publications_lem file current [] h safe = record {
  new_file = file;
  stems = current;
  written = refl;
  reloaded = h;
  wanted_stems = λ a. ground arith;
  marker_kept = refl;
}
add_pending_publications_lem file current (stem ∷ stems) h safe =
    let before = loaded file current h in
    let all_safe : all is_safe_stem (current ++ (stem ∷ stems)) ≡ true =
      all-append is_safe_stem current (stem ∷ stems) ∙ ground (arith, before.safe, safe) in
    let saved = save-Saves file current (current ++ (stem ∷ stems)) before all_safe in
    record {
      new_file = saved.new_file;
      stems = saved.stems;
      written = rw h saved.written;
      reloaded = saved.reloaded;
      wanted_stems = λ a. saved.wanted_stems a ∙ contains-append current (stem ∷ stems) a;
      marker_kept = saved.marker_kept;
    }

kept-Saves :
    (file : Stored) (current removed : List Str) {stored : List Str}
    → all is_safe_stem current ≡ true
    → Loaded file stored
    → Saves file
        (λ a. contains current a && not (contains removed a))
        (save_pending_publications file (filter (λ a. not (contains removed a)) current))
kept-Saves file current removed {stored} safe before =
    let kept = λ (a : Str). not (contains removed a) in
    let rest = filter kept current in
    let all_safe : all is_safe_stem rest ≡ true = all_of_contains is_safe_stem rest (λ a m.
      all-contains is_safe_stem current a safe
        (ground (arith, contains-filter kept current a, m))) in
    let saved = save-Saves file stored rest before all_safe in
    record {
      new_file = saved.new_file;
      stems = saved.stems;
      written = saved.written;
      reloaded = saved.reloaded;
      wanted_stems = λ a. saved.wanted_stems a ∙ contains-filter kept current a;
      marker_kept = saved.marker_kept;
    }

-- A list that could be loaded: removing stems returns, what is loaded then holds exactly the stems of
-- before that are not among the removed ones, and the marker of a metadata refresh is what it was.
pub remove_pending_publications_lem :
    (file : Stored) (current stems : List Str)
    → load_pending_publications file ≡ ok current
    → Saves file
        (λ a. contains current a && not (contains stems a))
        (remove_pending_publications file stems)
unfolding remove_pending_publications
remove_pending_publications_lem file current [] h = record {
  new_file = file;
  stems = current;
  written = refl;
  reloaded = h;
  wanted_stems = λ a. ground arith;
  marker_kept = refl;
}
remove_pending_publications_lem file current (stem ∷ stems) h =
    let before = loaded file current h in
    let saved = kept-Saves file current (stem ∷ stems) before.safe before in
    record {
      new_file = saved.new_file;
      stems = saved.stems;
      written = rw h saved.written;
      reloaded = saved.reloaded;
      wanted_stems = saved.wanted_stems;
      marker_kept = saved.marker_kept;
    }

missing : (k : Str) (content : Envelope) → has k content ≡ false → get k content ≡ none
missing k content h = ground (arith, h, has-get k content)

cleared :
    (content : Envelope) (current : List Str)
    → load_envelope (holds content) ≡ ok content
    → load_pending_publications (holds content) ≡ ok current
    → (load_pending_publications (without_marker (holds content) content) ≡ ok current)
      × (marker (without_marker (holds content) content) ≡ ok none)
unfolding without_marker
cleared content current opened h = elim (Bool-cases (has (codes "metadata_refresh") content)) [
  | inl e ↦
      let erased = erase (codes "metadata_refresh") content in
      let reopened = version-loads erased (
        ap has_version (get-erase (codes "metadata_refresh") (codes "contract_version") content)
        ∙ loaded_version content opened) in
      rw e (
        opened-loads erased reopened
            ∙ (ap (λ r. r >>= validate_pending_stem_values) (erased_values content)
                ∙ (sym (opened-loads content opened) ∙ h)),
        rw reopened
            (ap ok (get-erase (codes "metadata_refresh") (codes "metadata_refresh") content)),
      )
  | inr e ↦ rw e (h, rw opened (ap ok (missing (codes "metadata_refresh") content e)))
]

-- A list that could be loaded: clearing the marker returns, the list is what it was, and there is no
-- marker.
pub clear_metadata_refresh_marker_lem :
    (file : Stored) (current : List Str)
    → load_pending_publications file ≡ ok current
    → (new_file : Stored) × (clear_metadata_refresh_marker file ≡ ok new_file)
      × (load_pending_publications new_file ≡ ok current)
      × (marker new_file ≡ ok none)
unfolding clear_metadata_refresh_marker load_pending_publications load_envelope
clear_metadata_refresh_marker_lem absent current h = (absent, refl, h, refl)
clear_metadata_refresh_marker_lem malformed current h = cc
clear_metadata_refresh_marker_lem no_object current h = cc
clear_metadata_refresh_marker_lem (holds content) current h =
    let opened =
      version-loads content (loaded_version content (loaded (holds content) current h).opened) in
    let (same, none_left) = cleared content current opened h in
    (
      without_marker (holds content) content,
      ap (λ r. r >>= λ envelope. ok (without_marker (holds content) envelope)) opened,
      same,
      none_left,
    )

-- The lock is not held between reading the list and saving it: when one thread removes stems by the list
-- that it read before another thread saved an addition, both succeed, and the added stems are not in the
-- list that is loaded then.
pub stale_removal_loses :
    (file : Stored) (current added removed : List Str)
    → load_pending_publications file ≡ ok current
    → all is_safe_stem added ≡ true
    → (between : Stored) × (save_pending_publications file (current ++ added) ≡ ok between)
      × Saves between
          (λ a. contains current a && not (contains removed a))
          (save_pending_publications between (filter (λ a. not (contains removed a)) current))
stale_removal_loses file current added removed h safe =
    let before = loaded file current h in
    let all_safe : all is_safe_stem (current ++ added) ≡ true =
      all-append is_safe_stem current added ∙ ground (arith, before.safe, safe) in
    let saved = save-Saves file current (current ++ added) before all_safe in
    (
      saved.new_file,
      saved.written,
      kept-Saves saved.new_file current removed before.safe
          (loaded saved.new_file saved.stems saved.reloaded),
    )

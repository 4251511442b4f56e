-- ===== src/Grid5000/Manifest/Extension.antt =====
-- What an accepted extension of a sentence manifest keeps.
use osm_polygon_wikidata_onl.Prelude.{
  ◌≡◌, refl, sym, ap, ◌∙◌, Bool, true, false, not, List, [], ◌∷◌, ◌++◌, Option, none, some, all,
  All, any, is_empty, distinct, Str, codes, str_eq, pair_eq, ◌==◌, ==_iff, ==_refl, keys, get, has,
  put, put-distinct, put_of_new, fresh_key, Result, ok, value_error, guard, ◌>>=◌, >>=-eq-ok,
  ok_injective, arith, ◌↔◌,
}
use mathlib.Core.List.{append-nil, append_assoc}
use mathlib.Core.Path.{subst}
use osm_polygon_wikidata_onl.Grid5000.Manifest.{
  JsonView, required, Mapping, Regions, lookup, json_eq, manifest_region_identity, add_regions,
  manifest_regions, agrees, some_equal, covers, same_mapping, kept_in, has_stem,
  validate_manifest_extension, validate_manifest_invariants, validate_existing_regions,
  validate_selected_stems,
}

guarded : (test : Bool) → guard test value_error ≡ ok tt → test ≡ true
guarded true h = refl
guarded false h = cc

-- The keys whose values an extension must not change.
abbrev pub unchanging_keys : List Str
unchanging_keys =
    codes "contract_version"
    ∷ codes "segmenter"
    ∷ codes "model_id"
    ∷ codes "model_revision"
    ∷ codes "segmenter_version"
    ∷ codes "supported_languages"
    ∷ codes "unsupported_language_policy"
    ∷ []

required-ok : {A : Type 0} (found : Option A) (a : A) → required found ≡ ok a → found ≡ some a
required-ok none a h = absurd (cc h)
required-ok (some b) a h = ap some (ok_injective h)

all-All :
    {A : Type 0} (p : A → Bool) (P : A → Type 0) (xs : List A)
    → ((x : A) → p x ≡ true → P x)
    → all p xs ≡ true
    → All P xs
all-All p P [] f h = tt
all-All p P (x ∷ xs) f h = (f x (ground (arith, h)), all-All p P xs f (ground (arith, h)))

All-all :
    {A : Type 0} (p : A → Bool) (P : A → Type 0) (xs : List A)
    → ((x : A) → P x → p x ≡ true)
    → All P xs
    → all p xs ≡ true
All-all p P [] f h = refl
All-all p P (x ∷ xs) f h = rw (f x h.0) (All-all p P xs f h.1)

required-some : {A : Type 0} (found : Option A) (a : A) → found ≡ some a → required found ≡ ok a
required-some found a h = ap required h

bind-ok : {A B : Type 0} (m : Result A) (f : A → Result B) {a : A} → m ≡ ok a → (m >>= f) ≡ f a
bind-ok m f h = ap (λ r. r >>= f) h

module _ (view : JsonView) where
  open view use {Json, as_list, as_mapping, as_str}

  -- Both mappings have one value at a key.
  abbrev pub SameAt : Mapping view → Mapping view → Str → Type 0
  SameAt local incoming key =
      (value : Json) × (get key local ≡ some value) × (get key incoming ≡ some value)

  found-SameAt :
      (local incoming : Mapping view) (key : Str) (a b : Option Json)
      → get key local ≡ a
      → get key incoming ≡ b
      → elim a [
        | none ↦ false
        | some x ↦ elim b [ none ↦ false | some y ↦ ◌==◌ ⦃eq = json_eq view⦄ x y ]
      ]
        ≡ true
      → SameAt local incoming key
  found-SameAt local incoming key none b k l h = absurd (cc h)
  found-SameAt local incoming key (some x) none k l h = absurd (cc h)
  found-SameAt local incoming key (some x) (some y) k l h =
      (x, k, l ∙ ap some (sym ((==_iff ⦃eq = json_eq view⦄ x y).0 h)))

  agrees-SameAt :
      (local incoming : Mapping view) (key : Str)
      → agrees view local incoming key ≡ true
      → SameAt local incoming key
  agrees-SameAt local incoming key h =
      found-SameAt local incoming key (get key local) (get key incoming) refl refl h

  -- A region under its stem and its project, as a value has them.
  pub record IsRegion (raw : Json) (entry : (Str × Str) × Mapping view) : Type 0 where
    pub mapping : as_mapping raw ≡ some entry.1
    pub stem : lookup view as_str (codes "stem") entry.1 ≡ some entry.0.0
    pub project : lookup view as_str (codes "project") entry.1 ≡ some entry.0.1

  -- Each region stands for the value at its place.
  pub data Stand : List Json → Regions view → Type 0 where
    none_left : Stand [] []
    region_of :
        {raw : Json} {entry : (Str × Str) × Mapping view} {raws : List Json}
        {regions : Regions view}
        → IsRegion raw entry
        → Stand raws regions
        → Stand (raw ∷ raws) (entry ∷ regions)

  -- The regions of a manifest: those of the list it has, in order, no two under one stem and project.
  pub record IsRead (payload : Mapping view) (regions : Regions view) : Type 0 where
    pub raws : List Json
    pub listed : lookup view as_list (codes "regions") payload ≡ some raws
    pub stand : Stand raws regions
    pub once : distinct (keys regions) ≡ true

  identity-IsRegion :
      (raw : Json) (entry : (Str × Str) × Mapping view)
      → manifest_region_identity view raw ≡ ok entry
      → IsRegion raw entry
  unfolding manifest_region_identity
  identity-IsRegion raw entry h =
      let (region, mapped, h1) = >>=-eq-ok (required (as_mapping raw)) _ h in
      let (stem, named, h2) =
        >>=-eq-ok (required (lookup view as_str (codes "stem") region)) _ h1 in
      let (project, kind, h3) =
        >>=-eq-ok (required (lookup view as_str (codes "project") region)) _ h2 in
      subst (IsRegion raw) (ok_injective h3) (record {
        mapping = required-ok (as_mapping raw) region mapped;
        stem = required-ok (lookup view as_str (codes "stem") region) stem named;
        project = required-ok (lookup view as_str (codes "project") region) project kind;
      })

  -- What the loop over the values adds.
  Adds : List Json → Regions view → Regions view → Type 0
  Adds raws regions out =
      (more : Regions view) × (out ≡ regions ++ more)
      × Stand raws more
      × (distinct (keys out) ≡ true)

  add_regions-Adds :
      (raws : List Json) (regions out : Regions view)
      → distinct (keys regions) ≡ true
      → add_regions view regions raws ≡ ok out
      → Adds raws regions out
  unfolding add_regions Adds
  add_regions-Adds [] regions out once h =
      let same = ok_injective h in
      (
        [],
        sym same ∙ sym (append-nil regions),
        none_left,
        ap (λ r. distinct (keys r)) (sym same) ∙ once,
      )
  add_regions-Adds (raw ∷ raws) regions out once h =
      let (entry, identity, h1) = >>=-eq-ok (manifest_region_identity view raw) _ h in
      let (_, new, h2) = >>=-eq-ok (guard (not (has entry.0 regions)) value_error) _ h1 in
      let (more, same, stand, unique) =
        add_regions-Adds raws (put entry.0 entry.1 regions) out
          (put-distinct entry.0 entry.1 regions once) h2 in
      let fresh : has entry.0 regions ≡ false = ground (arith, guarded _ new) in
      (
        entry ∷ more,
        same
            ∙ (ap (λ r. r ++ more) (put_of_new entry.0 entry.1 regions fresh)
                ∙ append_assoc regions (entry ∷ []) more),
        region_of (identity-IsRegion raw entry identity) stand,
        unique,
      )

  manifest_regions-IsRead :
      (payload : Mapping view) (regions : Regions view)
      → manifest_regions view payload ≡ ok regions
      → IsRead payload regions
  unfolding manifest_regions Adds
  manifest_regions-IsRead payload regions h =
      let (raws, found, h1) =
        >>=-eq-ok (required (lookup view as_list (codes "regions") payload)) _ h in
      let (more, same, stand, once) = add_regions-Adds raws [] regions refl h1 in
      record {
        raws = raws;
        listed = required-ok (lookup view as_list (codes "regions") payload) raws found;
        stand = subst (Stand raws) (sym same) stand;
        once = once;
      }

  some_equal_lem :
      (found : Option Json) (value : Json) → some_equal view found value ≡ true → found ≡ some value
  some_equal_lem none value h = absurd (cc h)
  some_equal_lem (some x) value h = ap some ((==_iff ⦃eq = json_eq view⦄ x value).0 h)

  -- Each of two mappings has the entries of the other.
  abbrev pub IsSameMapping : Mapping view → Mapping view → Type 0
  IsSameMapping a b =
      All (λ (e : Str × Json). get e.0 a ≡ some e.1) b
      × All (λ (e : Str × Json). get e.0 b ≡ some e.1) a

  covers-All :
      (a b : Mapping view)
      → covers view a b ≡ true
      → All (λ (e : Str × Json). get e.0 a ≡ some e.1) b
  covers-All a b h = all-All _ _ b (λ e. some_equal_lem (get e.0 a) e.1) h

  covers_of_All :
      (a b : Mapping view)
      → All (λ (e : Str × Json). get e.0 a ≡ some e.1) b
      → covers view a b ≡ true
  covers_of_All a b h =
      All-all (λ (e : Str × Json). some_equal view (get e.0 a) e.1) _ b
        (λ e k.
          ap (λ found. some_equal view found e.1) {y = some e.1} k
          ∙ ==_refl ⦃eq = json_eq view⦄ e.1)
        h

  same_mapping_lem : (a b : Mapping view) → same_mapping view a b ≡ true → IsSameMapping a b
  unfolding same_mapping
  same_mapping_lem a b h = (covers-All a b (ground (arith, h)), covers-All b a (ground (arith, h)))

  same_mapping_of : (a b : Mapping view) → IsSameMapping a b → same_mapping view a b ≡ true
  unfolding same_mapping
  same_mapping_of a b h = rw (covers_of_All a b h.0) (covers_of_All b a h.1)

  -- The incoming manifest has the region, unchanged.
  abbrev pub IsKept : Regions view → (Str × Str) × Mapping view → Type 0
  IsKept incoming entry =
      (region : Mapping view) × (get entry.0 incoming ≡ some region) × IsSameMapping region entry.1

  found-IsKept :
      (incoming : Regions view) (entry : (Str × Str) × Mapping view) (found : Option (Mapping view))
      → get entry.0 incoming ≡ found
      → elim found [ none ↦ false | some region ↦ same_mapping view region entry.1 ] ≡ true
      → IsKept incoming entry
  found-IsKept incoming entry none p h = absurd (cc h)
  found-IsKept incoming entry (some region) p h = (region, p, same_mapping_lem region entry.1 h)

  found_of_IsKept :
      (incoming : Regions view) (entry : (Str × Str) × Mapping view)
      → IsKept incoming entry
      → kept_in view incoming entry ≡ true
  found_of_IsKept incoming entry (region, p, same) =
      subst (λ found. elim found [ none ↦ false | some r ↦ same_mapping view r entry.1 ] ≡ true)
        (sym p) (same_mapping_of region entry.1 same)

  agrees_of_SameAt :
      (local incoming : Mapping view) (key : Str)
      → SameAt local incoming key
      → agrees view local incoming key ≡ true
  agrees_of_SameAt local incoming key (value, p, q) =
      subst
        (λ a.
          elim a [
            | none ↦ false
            | some x ↦ elim (get key incoming) [
              | none ↦ false
              | some y ↦ ◌==◌ ⦃eq = json_eq view⦄ x y
            ]
          ]
          ≡ true)
        (sym p)
        (subst (λ b. elim b [ none ↦ false | some y ↦ ◌==◌ ⦃eq = json_eq view⦄ value y ] ≡ true)
          (sym q) (==_refl ⦃eq = json_eq view⦄ value))

  identity_of_IsRegion :
      (raw : Json) (entry : (Str × Str) × Mapping view)
      → IsRegion raw entry
      → manifest_region_identity view raw ≡ ok entry
  unfolding manifest_region_identity
  identity_of_IsRegion raw entry r =
      bind-ok (required (as_mapping raw)) _ (required-some _ _ r.mapping)
      ∙ (bind-ok (required (lookup view as_str (codes "stem") entry.1)) _ (required-some _ _ r.stem)
          ∙ bind-ok (required (lookup view as_str (codes "project") entry.1)) _
              (required-some _ _ r.project))

  add_regions_of_Stand :
      (raws : List Json) (regions more : Regions view)
      → Stand raws more
      → distinct (keys (regions ++ more)) ≡ true
      → add_regions view regions raws ≡ ok (regions ++ more)
  unfolding add_regions
  add_regions_of_Stand [] regions [] none_left once = ap ok (sym (append-nil regions))
  add_regions_of_Stand [] regions (entry ∷ more) stand once = elim stand [ ]
  add_regions_of_Stand (raw ∷ raws) regions [] stand once = elim stand [ ]
  add_regions_of_Stand (raw ∷ raws) regions (entry ∷ more) (region_of r stand) once =
      let new = fresh_key regions more entry.0 entry.1 once in
      let grown = put_of_new entry.0 entry.1 regions new in
      let same : put entry.0 entry.1 regions ++ more ≡ regions ++ (entry ∷ more) =
        ap (λ l. l ++ more) grown ∙ append_assoc regions (entry ∷ []) more in
      bind-ok (manifest_region_identity view raw) _ (identity_of_IsRegion raw entry r)
      ∙ (rw new (
          add_regions_of_Stand raws (put entry.0 entry.1 regions) more stand
            (ap (λ l. distinct (keys l)) same ∙ once)
          ∙ ap ok same))

  manifest_regions_of_IsRead :
      (payload : Mapping view) (regions : Regions view)
      → IsRead payload regions
      → manifest_regions view payload ≡ ok regions
  unfolding manifest_regions
  manifest_regions_of_IsRead payload regions r =
      bind-ok (required (lookup view as_list (codes "regions") payload)) _
        (required-some _ _ r.listed)
      ∙ add_regions_of_Stand r.raws [] regions r.stand r.once

  -- What an accepted extension promises.
  pub record Extends (local incoming : Mapping view) (selected : List Str) : Type 0 where
    pub local_regions : Regions view
    pub incoming_regions : Regions view
    pub local_read : IsRead local local_regions
    pub incoming_read : IsRead incoming incoming_regions
    pub unchanged : All (SameAt local incoming) unchanging_keys
    pub regions_kept : All (IsKept incoming_regions) local_regions
    pub some_selected : is_empty selected ≡ false
    pub stems_present :
        All
          (λ stem. any (λ (e : (Str × Str) × Mapping view). e.0.0 == stem) incoming_regions ≡ true)
          selected

  validate_manifest_extension-Extends :
      (local incoming : Mapping view) (selected : List Str)
      → validate_manifest_extension view local incoming selected ≡ ok tt
      → Extends local incoming selected
  unfolding validate_manifest_extension validate_manifest_invariants validate_existing_regions
      validate_selected_stems
  validate_manifest_extension-Extends local incoming selected h =
      let (ls, read, h1) = >>=-eq-ok (manifest_regions view local) _ h in
      let (is, read', h2) = >>=-eq-ok (manifest_regions view incoming) _ h1 in
      let (_, same, h3) =
        >>=-eq-ok (guard (all (agrees view local incoming) unchanging_keys) value_error) _ h2 in
      let (_, kept, h4) = >>=-eq-ok (guard (all (kept_in view is) ls) value_error) _ h3 in
      let (_, nonempty, present) = >>=-eq-ok (guard (not (is_empty selected)) value_error) _ h4 in
      record {
        local_regions = ls;
        incoming_regions = is;
        local_read = manifest_regions-IsRead local ls read;
        incoming_read = manifest_regions-IsRead incoming is read';
        unchanged =
            all-All (agrees view local incoming) (SameAt local incoming) unchanging_keys
              (agrees-SameAt local incoming) (guarded _ same);
        regions_kept =
            all-All (kept_in view is) (IsKept is) ls
              (λ entry. found-IsKept is entry (get entry.0 is) refl) (guarded _ kept);
        some_selected = ground (arith, guarded _ nonempty);
        stems_present = all-All (has_stem view is) _ selected (λ stem k. k) (guarded _ present);
      }

  validate_manifest_extension_of_Extends :
      (local incoming : Mapping view) (selected : List Str)
      → Extends local incoming selected
      → validate_manifest_extension view local incoming selected ≡ ok tt
  unfolding validate_manifest_extension validate_manifest_invariants validate_existing_regions
      validate_selected_stems
  validate_manifest_extension_of_Extends local incoming selected x =
      rw (manifest_regions_of_IsRead local x.local_regions x.local_read) (
        rw (manifest_regions_of_IsRead incoming x.incoming_regions x.incoming_read) (
          rw
            (All-all (agrees view local incoming) _ unchanging_keys
              (agrees_of_SameAt local incoming) x.unchanged)
            (rw
              (All-all (kept_in view x.incoming_regions) _ x.local_regions
                (found_of_IsKept x.incoming_regions) x.regions_kept)
              (rw x.some_selected (
                rw
                  (All-all (has_stem view x.incoming_regions) _ selected (λ stem k. k)
                    x.stems_present)
                  refl)))))

  -- A manifest is accepted as an extension of the local one exactly if the regions of both are those of the
  -- lists they have, each under its stem and its project, and none twice; both have one value at each of
  -- the seven keys that must not change; the incoming one has every region of the local one, with the same
  -- entries; and it has a region of every selected stem, of which there is at least one.
  pub validate_manifest_extension_iff :
      (local incoming : Mapping view) (selected : List Str)
      → (validate_manifest_extension view local incoming selected ≡ ok tt)
        ↔ Extends local incoming selected
  validate_manifest_extension_iff local incoming selected = (
    validate_manifest_extension-Extends local incoming selected,
    validate_manifest_extension_of_Extends local incoming selected,
  )

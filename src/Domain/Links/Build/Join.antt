-- ===== src/Domain/Links/Build/Join.antt =====
-- The join through the index is the nested-loop join.
use osm_polygon_wikidata_onl.Prelude.{
  ◌≡◌, refl, ap, sym, ◌∙◌, Bool, true, false, List, [], ◌∷◌, ◌++◌, arith, if◌then◌else◌, Str, codes,
  ◌==◌, ==_iff, str_eq, contains, distinct, filter, Result, ok, ◌>>=◌, ◌>>◌, put, get-put, traverse,
  Bool-cases, inl, inr, All, Reads, all_read, reads, Reads-of_traverse, bind_cong, bind_cong_ok,
  bind_assoc,
}
use mathlib.Core.List.{append-nil, append_assoc}
use osm_polygon_wikidata_onl.Domain.Qids.Laws.{qids_from_osm_tag_lem}
use osm_polygon_wikidata_onl.Domain.Values.{Row}
use osm_polygon_wikidata_onl.Domain.Links.{LinkRow}
use osm_polygon_wikidata_onl.Domain.Links.Validate.{validate_polygon_document_links}
use osm_polygon_wikidata_onl.Domain.Links.Build.{
  PolygonFields, text_of, coerce_polygon_row, validate_document, build_link_row, ByQid, polygons_of,
  add_polygon, index_polygons, link_documents, build_polygon_document_links,
}

-- The reference: for each document, in order, every polygon whose tag lists the document's item.
pub nested_loop : List PolygonFields → List Row → Result (List Row)
nested_loop polygons [] = ok []
nested_loop polygons (doc ∷ rest) = do
  validate_document doc
  links ←
      traverse (build_link_row doc)
        (filter (λ p. contains p.wikidata_qids (text_of (codes "wikidata") doc)) polygons)
  more ← nested_loop polygons rest
  ok (links ++ more)

pub reference_links : List Row → List Row → List Row → Result (List LinkRow)
unfolding nested_loop
reference_links polygons wikipedia_documents wikivoyage_documents = do
  fields ← traverse coerce_polygon_row polygons
  links ← nested_loop fields (wikipedia_documents ++ wikivoyage_documents)
  validate_polygon_document_links links

polygons_of-put :
    (qid q : Str) (ps : List PolygonFields) (d : ByQid)
    → polygons_of q (put qid ps d) ≡ (if qid == q then ps else polygons_of q d)
unfolding polygons_of
polygons_of-put qid q ps d = ground (arith, get-put qid q ps d)

first_added :
    (p : PolygonFields) (qid : Str) (qids : List Str) (d : ByQid) (q : Str)
    → contains qids qid ≡ false
    → (if qid == q then polygons_of qid d ++ (p ∷ []) else polygons_of q d)
        ++ (if contains qids q then p ∷ [] else [])
      ≡ polygons_of q d ++ (if contains (qid ∷ qids) q then p ∷ [] else [])
first_added p qid qids d q new = elim (Bool-cases (qid == q)) [
  | inl same ↦
      let e : qid ≡ q = (==_iff qid q).0 same in
      let later : contains qids q ≡ false = ap (contains qids) (sym e) ∙ new in
      rw same (rw later (rw e (append-nil (polygons_of q d ++ (p ∷ [])))))
  | inr other ↦ rw other
]

-- Adding a polygon appends it to the lists of its identifiers.
polygons_of-add_polygon :
    (p : PolygonFields) (qids : List Str) (d : ByQid) (q : Str)
    → distinct qids ≡ true
    → polygons_of q (add_polygon p qids d)
      ≡ polygons_of q d ++ (if contains qids q then p ∷ [] else [])
unfolding add_polygon
polygons_of-add_polygon p [] d q u = sym (append-nil (polygons_of q d))
polygons_of-add_polygon p (qid ∷ qids) d q u =
    polygons_of-add_polygon p qids (put qid (polygons_of qid d ++ (p ∷ [])) d) q (ground arith)
    ∙ ap (λ (t : List PolygonFields). t ++ (if contains qids q then p ∷ [] else []))
        (polygons_of-put qid q (polygons_of qid d ++ (p ∷ [])) d)
    ∙ first_added p qid qids d q (ground arith)

-- The identifiers that the parser returns are distinct, so each polygon is listed once under each.
coerce_polygon_row-distinct :
    (raw : Row) (p : PolygonFields)
    → coerce_polygon_row raw ≡ ok p
    → distinct p.wikidata_qids ≡ true
unfolding coerce_polygon_row
coerce_polygon_row-distinct raw p h =
    ground (arith, (qids_from_osm_tag_lem (text_of (codes "wikidata") raw)).1)

add_all : ByQid → List PolygonFields → ByQid
add_all d [] = d
add_all d (p ∷ ps) = add_all (add_polygon p p.wikidata_qids d) ps

index_polygons_lem :
    (d : ByQid) (raws : List Row)
    → index_polygons d raws ≡ (traverse coerce_polygon_row raws >>= λ ps. ok (add_all d ps))
unfolding index_polygons add_all
index_polygons_lem d [] = refl
index_polygons_lem d (raw ∷ rest) =
    bind_cong (coerce_polygon_row raw) (λ p.
      index_polygons_lem (add_polygon p p.wikidata_qids d) rest
      ∙ sym (
          bind_assoc (traverse coerce_polygon_row rest) (λ ps. ok (p ∷ ps))
            (λ ps. ok (add_all d ps))))
    ∙ sym (
        bind_assoc (coerce_polygon_row raw)
          (λ p. traverse coerce_polygon_row rest >>= λ ps. ok (p ∷ ps)) (λ ps. ok (add_all d ps)))

if-append :
    (b : Bool) (p : PolygonFields) (ps : List PolygonFields)
    → (if b then p ∷ [] else []) ++ ps ≡ (if b then p ∷ ps else ps)
if-append true p ps = refl
if-append false p ps = refl

-- The list under an identifier holds the polygons that name it, in their order.
polygons_of-add_all :
    (d : ByQid) (ps : List PolygonFields) (q : Str)
    → All (λ p. distinct p.wikidata_qids ≡ true) ps
    → polygons_of q (add_all d ps) ≡ polygons_of q d ++ filter (λ p. contains p.wikidata_qids q) ps
unfolding add_all
polygons_of-add_all d [] q u = sym (append-nil (polygons_of q d))
polygons_of-add_all d (p ∷ ps) q u =
    polygons_of-add_all (add_polygon p p.wikidata_qids d) ps q u.1
    ∙ ap (λ (t : List PolygonFields). t ++ filter (λ r. contains r.wikidata_qids q) ps)
        (polygons_of-add_polygon p p.wikidata_qids d q u.0)
    ∙ append_assoc (polygons_of q d) (if contains p.wikidata_qids q then p ∷ [] else [])
        (filter (λ r. contains r.wikidata_qids q) ps)
    ∙ ap (λ (t : List PolygonFields). polygons_of q d ++ t)
        (if-append (contains p.wikidata_qids q) p (filter (λ r. contains r.wikidata_qids q) ps))

coerced-distinct :
    {raws : List Row} {ps : List PolygonFields}
    → Reads coerce_polygon_row raws ps
    → All (λ p. distinct p.wikidata_qids ≡ true) ps
coerced-distinct all_read = tt
coerced-distinct (reads {r = raw} {v = p} was_read more) =
    (coerce_polygon_row-distinct raw p was_read, coerced-distinct more)

link_documents_lem :
    (ps : List PolygonFields) (docs : List Row)
    → All (λ p. distinct p.wikidata_qids ≡ true) ps
    → link_documents (add_all [] ps) docs ≡ nested_loop ps docs
unfolding link_documents nested_loop polygons_of
link_documents_lem ps [] u = refl
link_documents_lem ps (doc ∷ rest) u = rw (link_documents_lem ps rest u) (
    ap
      (λ (qs : List PolygonFields).
        validate_document doc
        >> (traverse (build_link_row doc) qs >>= λ links.
            nested_loop ps rest >>= λ more. ok (links ++ more)))
      (polygons_of-add_all [] ps (text_of (codes "wikidata") doc) u))

-- The links are those of the nested-loop join, validated; an exception of one is an exception of
-- the other, of the same class.
pub build_polygon_document_links_lem :
    (polygons wikipedia_documents wikivoyage_documents : List Row)
    → build_polygon_document_links polygons wikipedia_documents wikivoyage_documents
      ≡ reference_links polygons wikipedia_documents wikivoyage_documents
unfolding build_polygon_document_links reference_links
build_polygon_document_links_lem polygons wikipedia_documents wikivoyage_documents =
    let docs = wikipedia_documents ++ wikivoyage_documents in
    ap
      (λ (m : Result ByQid).
        m >>= λ by_qid. link_documents by_qid docs >>= validate_polygon_document_links)
      (index_polygons_lem [] polygons)
    ∙ bind_assoc (traverse coerce_polygon_row polygons) (λ ps. ok (add_all [] ps))
        (λ by_qid. link_documents by_qid docs >>= validate_polygon_document_links)
    ∙ bind_cong_ok (traverse coerce_polygon_row polygons) (λ ps read.
      ap (λ (m : Result (List Row)). m >>= validate_polygon_document_links)
        (link_documents_lem ps docs
          (coerced-distinct (Reads-of_traverse coerce_polygon_row polygons ps read))))

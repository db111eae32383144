-- ===== src/Ingest/Documents.antt =====
-- ingest.py, `ingest_delta`: the documents that the two stores refer to, against the manifests.
use graphrag_aws_template.Prelude.{
  ◌≡◌, refl, ◌∙◌, ap, String, Bool, true, false, ◌||◌, ◌&&◌, not, ◌==◌, Option, Option-cases, none,
  some, List, [], ◌∷◌, map, keep, contains, loop, arith, string_eq, pair_eq, Eq, inl, inr,
}
use graphrag_aws_template.Prelude.Sets.{
  IterationOrder, union, dedupe, contains-union, contains-dedupe,
}
use graphrag_aws_template.Prelude.Sorting.{sorted, contains-sorted, text_order}
use graphrag_aws_template.Prelude.Dicts.{Dict, get, put, get-put, keys, contains-keys}
use graphrag_aws_template.Prelude.Dicts.Entries.{IsKeyedBy}
use graphrag_aws_template.Sources.{ParsedDoc, doc_id}
use graphrag_aws_template.Model.{Graph, EdgeKey, key}
use graphrag_aws_template.Model.WellFormed.{id_of, IsWellFormed}
use graphrag_aws_template.Labels.{Labels, label_node, label_edge, map_values, label_graph}
use graphrag_aws_template.Labels.Edges.{get-map_values}
use graphrag_aws_template.Delta.{Manifest, diff_manifests, added_doc_ids, removed_doc_ids}
use graphrag_aws_template.Delta.Classify.{has, diff_manifests-classifies}
use graphrag_aws_template.GraphDelta.{docs_of, edge_docs_of}
use graphrag_aws_template.Ingest.{manifest_from_docs}

-- the documents of the manifest before
abbrev pub known : Option Manifest → String → Bool
known none p = false
known (some m) p = has m p

-- Both manifests have the document, with one hash.
abbrev pub same_hash : Manifest → Manifest → String → Bool
same_hash old new p = elim (get old p) [
  | none ↦ false
  | some h ↦ elim (get new p) [ none ↦ false | some k ↦ h == k ]
]

-- The document of the manifest before is gone, or its hash is another one.
abbrev pub stripped : Option Manifest → Manifest → String → Bool
stripped none new p = false
stripped (some old) new p = has old p && not (same_hash old new p)

-- The document is new, or its hash is another one.
abbrev pub fresh : Option Manifest → Manifest → String → Bool
fresh none new p = has new p
fresh (some old) new p = has new p && not (same_hash old new p)

-- The document is one that an ingestion strips or ingests again.
abbrev pub touched : Option Manifest → Manifest → String → Bool
touched prev new p = stripped prev new p || fresh prev new p

has-loop :
    (hash : ParsedDoc → String) (docs : List ParsedDoc) (out : Manifest) (p : String)
    → has (loop (λ out doc. put out (doc_id doc) (hash doc)) out docs) p
      ≡ (has out p || contains (map doc_id docs) p)
unfolding loop contains
has-loop hash [] out p = ground arith
has-loop hash (doc ∷ docs) out p =
    has-loop hash docs (put out (doc_id doc) (hash doc)) p
    ∙ ground (arith, get-put out (doc_id doc) p (hash doc))

pub has-manifest_from_docs :
    (hash : ParsedDoc → String) (docs : List ParsedDoc) (p : String)
    → has (manifest_from_docs hash docs) p ≡ contains (map doc_id docs) p
unfolding manifest_from_docs
has-manifest_from_docs hash docs p = unfold get in has-loop hash docs [] p

pub contains-removed :
    (order : IterationOrder string_eq) (prev : Option Manifest) (new : Manifest) (p : String)
    → contains (removed_doc_ids (diff_manifests order prev new)) p ≡ stripped prev new p
contains-removed order none new p =
    unfold removed_doc_ids diff_manifests union dedupe keep contains in refl
contains-removed order (some old) new p = (diff_manifests-classifies order old new p).1

pub contains-added :
    (order : IterationOrder string_eq) (prev : Option Manifest) (new : Manifest) (p : String)
    → contains (added_doc_ids (diff_manifests order prev new)) p ≡ fresh prev new p
contains-added order none new p =
    unfold added_doc_ids diff_manifests contains in
    ground (
      arith,
      contains-union (union (dedupe (sorted (dedupe (keys new)))) (dedupe [])) (dedupe []) p,
      contains-union (dedupe (sorted (dedupe (keys new)))) (dedupe []) p,
      contains-dedupe (sorted (dedupe (keys new))) p,
      contains-dedupe {A = String} [] p,
      contains-sorted (dedupe (keys new)) p,
      contains-dedupe (keys new) p,
      contains-keys new p,
    )
contains-added order (some old) new p = (diff_manifests-classifies order old new p).0

-- A document that is known and not removed is one of the new manifest.
pub kept_document :
    (order : IterationOrder string_eq) (prev : Option Manifest) (new : Manifest) (p : String)
    → known prev p ≡ true
    → contains (removed_doc_ids (diff_manifests order prev new)) p ≡ false
    → has new p ≡ true
kept_document order none new p h k = absurd (ground arith)
kept_document order (some old) new p h k =
    ground (arith, (diff_manifests-classifies order old new p).1)

pub contains-map-keep {ℓ} :
    {A : Type ℓ} (f : A → String) (q : A → Bool) (xs : List A) (p : String)
    → contains (map f (keep q xs)) p ≡ true
    → contains (map f xs) p ≡ true
unfolding contains keep
contains-map-keep f q [] p h = h
contains-map-keep f q (x ∷ xs) p h = ground (arith, contains-map-keep f q xs p)

keys-map_values {ℓ κ} :
    {K : Type ℓ} {V : Type κ} (f : V → V) (d : Dict K V) → keys (map_values f d) ≡ keys d
unfolding keys map_values
keys-map_values f [] = refl
keys-map_values f ((k, v) ∷ d) = ap (◌∷◌ k) (keys-map_values f d)

map_values-IsKeyedBy {ℓ κ} :
    {K : Type ℓ} {V : Type κ} ⦃e : Eq K⦄ (key_of : V → K) (f : V → V) (d : Dict K V)
    → ((v : V) → key_of (f v) ≡ key_of v)
    → IsKeyedBy key_of d
    → IsKeyedBy key_of (map_values f d)
map_values-IsKeyedBy key_of f d same w = record {
  once = rw keys-map_values w.once;
  named = λ k v h. elim (Option-cases (get d k)) [
    | inl p ↦ absurd (ground (arith, get-map_values f d k))
    | inr (u, p) ↦ ground (arith, get-map_values f d k, same u, w.named k u p)
  ];
}

pub label_graph-IsWellFormed :
    (g : Graph) (labels : Labels) → IsWellFormed g → IsWellFormed (label_graph g labels)
unfolding label_graph label_node label_edge key
label_graph-IsWellFormed g labels w = record {
  by_id = map_values-IsKeyedBy id_of (label_node labels) g.nodes (λ n. refl) w.by_id;
  by_key = map_values-IsKeyedBy key (label_edge labels) g.edge_table (λ e. refl) w.by_key;
}

pub docs-label_graph :
    (g : Graph) (labels : Labels) (id : String)
    → docs_of (get (label_graph g labels).nodes id) ≡ docs_of (get g.nodes id)
unfolding label_graph label_node
docs-label_graph g labels id = elim (Option-cases (get g.nodes id)) [
  | inl p ↦ ground (arith, get-map_values (label_node labels) g.nodes id)
  | inr (n, p) ↦ ground (arith, get-map_values (label_node labels) g.nodes id)
]

pub edge_docs-label_graph :
    (g : Graph) (labels : Labels) (k : EdgeKey)
    → edge_docs_of (get (label_graph g labels).edge_table k) ≡ edge_docs_of (get g.edge_table k)
unfolding label_graph label_edge
edge_docs-label_graph g labels k = elim (Option-cases (get g.edge_table k)) [
  | inl p ↦ ground (arith, get-map_values (label_edge labels) g.edge_table k)
  | inr (e, p) ↦ ground (arith, get-map_values (label_edge labels) g.edge_table k)
]

-- ===== src/Query/Links.antt =====
-- query.py and `neighbors_batch`: when two nodes are linked under a clearance, and what a batch
-- holds in terms of links.
use graphrag_aws_template.Prelude.{
  ◌≡◌, refl, ◌∙◌, String, Bool, ◌&&◌, ◌||◌, List, [], ◌∷◌, map, arith, ◌==◌, string_eq, any,
  any-ext, any-append, any-swap, contains, contains-append, contains-map,
}
use graphrag_aws_template.Model.{
  Node, Edge, EdgeKind, edge_eq, edge_kinds, edge_value, chairs, tech_leads, Direction, out, inward,
}
use graphrag_aws_template.Store.{
  GraphStore, IsLawful, Allowed, NeighborEdge, neighbors_batch, gather, leads, admits,
}
use graphrag_aws_template.Query.{neighbor_id}

abbrev pub joins : Edge → String → String → Bool
joins e i j = ((e.src_id == i) && (e.dst_id == j)) || ((e.dst_id == i) && (e.src_id == j))

abbrev pub linked : (S : GraphStore) → S.State → Allowed → String → String → Bool
linked S s allowed i j = any (λ e. joins e i j && admits (S.get_node s j) e allowed) (S.all_edges s)

any-gather {ℓ κ} :
    {A : Type ℓ} {B : Type κ} (p : B → Bool) (f : A → List B) (xs : List A)
    → any p (gather f xs) ≡ any (λ x. any p (f x)) xs
unfolding any gather
any-gather p f [] = refl
any-gather p f (x ∷ xs) = ground (arith, any-append p (f x) (gather f xs), any-gather p f xs)

any-map {ℓ κ} :
    {A : Type ℓ} {B : Type κ} (p : B → Bool) (f : A → B) (xs : List A)
    → any p (map f xs) ≡ any (λ x. p (f x)) xs
unfolding any
any-map p f [] = refl
any-map p f (x ∷ xs) = ground (arith, any-map p f xs)

pub contains-gather {ℓ} :
    {A : Type ℓ} (f : A → List String) (xs : List A) (j : String)
    → contains (gather f xs) j ≡ any (λ x. contains (f x) j) xs
unfolding contains gather any
contains-gather f [] j = refl
contains-gather f (x ∷ xs) j =
    ground (arith, contains-append (f x) (gather f xs) j, contains-gather f xs j)

-- Each edge has one of the kinds.
any-kinds : (kind : EdgeKind) (b : Bool) → any (λ k. (kind == k) && b) edge_kinds ≡ b
unfolding any edge_value
any-kinds chairs b = ground arith
any-kinds tech_leads b = ground arith
any-kinds _ b = ground arith

any-directions :
    (e : Edge) (i j : String) (a : Bool) (k : EdgeKind)
    → any (λ d. leads e i k d j && a) (out ∷ inward ∷ []) ≡ ((e.kind == k) && (joins e i j && a))
unfolding any leads
any-directions e i j a k = ground arith

any-leads :
    (e : Edge) (i j : String) (a : Bool)
    → any (λ k. any (λ d. leads e i k d j && a) (out ∷ inward ∷ [])) edge_kinds ≡ (joins e i j && a)
any-leads e i j a =
    any-ext (λ k. any (λ d. leads e i k d j && a) (out ∷ inward ∷ []))
      (λ k. (e.kind == k) && (joins e i j && a)) edge_kinds (λ k. any-directions e i j a k)
    ∙ any-kinds e.kind (joins e i j && a)

module _ (S : GraphStore) (L : IsLawful S) (s : S.State) (valid : L.IsValid s)
    (allowed : Allowed) where
  -- the edges that one hop along a kind and direction follows
  abbrev hop : String → String → EdgeKind → Direction → Edge → Bool
  hop i j k d e = leads e i k d j && admits (S.get_node s j) e allowed

  abbrev dirs : List Direction
  dirs = out ∷ inward ∷ []

  -- all that is found from one node
  any-fan :
      (i j : String)
      → any (λ k. any (λ d. any (λ n. n.id == j) (S.neighbors s i k d allowed)) dirs) edge_kinds
        ≡ linked S s allowed i j
  any-fan i j =
      any-ext _ (λ k. any (λ e. any (λ d. hop i j k d e) dirs) (S.all_edges s)) edge_kinds
        (λ k.
          any-ext _ (λ d. any (hop i j k d) (S.all_edges s)) dirs
            (λ d. L.neighbors_lem s i k d allowed j valid)
          ∙ any-swap (λ d e. hop i j k d e) dirs (S.all_edges s))
      ∙ any-swap (λ k e. any (λ d. hop i j k d e) dirs) edge_kinds (S.all_edges s)
      ∙ any-ext _ (λ e. joins e i j && admits (S.get_node s j) e allowed) (S.all_edges s)
          (λ e. any-leads e i j (admits (S.get_node s j) e allowed))

  abbrev labelled : String → EdgeKind → Direction → Node → NeighborEdge
  labelled i k d n = record { src_id = i; edge_kind = k; direction = d; neighbor = n }

  -- A batch reaches exactly what is linked to a node of the frontier.
  pub contains-batch :
      (frontier : List String) (j : String)
      → contains (map neighbor_id (neighbors_batch S s frontier allowed)) j
        ≡ any (λ i. linked S s allowed i j) frontier
  unfolding neighbors_batch
  contains-batch frontier j =
      contains-map neighbor_id (neighbors_batch S s frontier allowed) j
      ∙ any-gather (λ x. neighbor_id x == j) _ frontier
      ∙ any-ext _ (λ i. linked S s allowed i j) frontier
          (λ i.
            any-gather (λ x. neighbor_id x == j) _ edge_kinds
            ∙ any-ext _ (λ k. any (λ d. any (λ n. n.id == j) (S.neighbors s i k d allowed)) dirs)
                edge_kinds
                (λ k.
                  any-gather (λ x. neighbor_id x == j) _ dirs
                  ∙ any-ext _ (λ d. any (λ n. n.id == j) (S.neighbors s i k d allowed)) dirs
                      (λ d.
                        any-map (λ x. neighbor_id x == j) (labelled i k d)
                          (S.neighbors s i k d allowed)))
            ∙ any-fan i j)

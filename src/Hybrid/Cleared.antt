-- ===== src/Hybrid/Cleared.antt =====
-- hybrid.py, `hybrid_query`: what a result shows, against the clearance.
use graphrag_aws_template.Prelude.{
  ℕ, ◌≡◌, refl, sym, subst, ◌-◌, ◌∙◌, ap, ◌↔◌, String, Bool, true, false, not, ◌&&◌, ◌||◌, Option,
  Option-cases, none, some, List, [], ◌∷◌, ◌++◌, map, arith, length, take, keep, contains, any, all,
  All, All-keep, All-append, All-take, ◌==◌, string_eq, Bool-cases, inl, inr, contains-append,
}
use graphrag_aws_template.Prelude.Sets.{dedupe, contains-dedupe}
use graphrag_aws_template.Chunk.{Chunk}
use graphrag_aws_template.Visibility.{Clearance, allows}
use graphrag_aws_template.Store.{GraphStore, IsLawful, Allowed, in_clearance}
use graphrag_aws_template.Query.{
  allowed_of, resolve_nodes, expand_neighborhood, start, default_frontier_cap,
}
use graphrag_aws_template.Query.Links.{linked}
use graphrag_aws_template.Query.Walks.{Within}
use graphrag_aws_template.Query.Reach.{expand_neighborhood-exact}
use graphrag_aws_template.VectorStore.{Floats, Vector, VectorHit, VectorStore, passes}
use graphrag_aws_template.Retrieval.{Embedder, Synthesizer, sees, vector_search}
use graphrag_aws_template.Hybrid.{
  SeedSource, from_vector, from_question, Fate, unconfirmed, above_clearance, confirmed, Linked,
  link_round, Seed, seed_id, vector_seed, question_seed, Candidate, fate, link_seeds, is_confirmed,
  cap_seeds, dedupe_chunks, owners, merge_nodes, node_visibility, HybridResult, hybrid_query,
}

-- The documented behaviour of `VectorStore.knn`: each hit is within the labels and passes the filter.
abbrev pub Filters : (F : Floats) → VectorStore F → Type 0
Filters F V =
    (v : V.State) (vector : Vector F) (k : ℕ) (allowed : Allowed) (f : Option (Chunk → Bool))
    → All (λ h. (in_clearance allowed h.chunk.visibility && passes F f h.chunk) ≡ true)
        (V.knn v vector k allowed f)

-- The id is a node's that the clearance allows.
abbrev pub shows : (S : GraphStore) → S.State → Option Clearance → String → Bool
shows S s clearance id = elim (S.get_node s id) [
  | none ↦ false
  | some n ↦ sees clearance (node_visibility n)
]

abbrev pub is_from_question : SeedSource → Bool
is_from_question from_vector = false
is_from_question from_question = true

pub sees-in_clearance :
    (c : Option Clearance) (label : String) → sees c label ≡ in_clearance (allowed_of c) label
unfolding sees allows in_clearance allowed_of
sees-in_clearance none label = refl
sees-in_clearance (some c) label = refl

any-keep {ℓ} :
    {A : Type ℓ} (p q : A → Bool) (xs : List A) → any p (keep q xs) ≡ any (λ x. p x && q x) xs
unfolding any keep
any-keep p q [] = refl
any-keep p q (x ∷ xs) = ground (arith, any-keep p q xs)

dedupe_chunks-All {κ} :
    (F : Floats) (P : VectorHit F → Type κ) (seen : List String) (hits : List (VectorHit F))
    → All P hits
    → All P (dedupe_chunks F seen hits)
unfolding dedupe_chunks
dedupe_chunks-All F P seen [] h = tt
dedupe_chunks-All F P seen (x ∷ xs) h = elim (Bool-cases (contains seen x.chunk.id)) [
  | inl old ↦ rw old (dedupe_chunks-All F P seen xs h.1)
  | inr new ↦ rw new (h.0, dedupe_chunks-All F P (x.chunk.id ∷ seen) xs h.1)
]

module _ (S : GraphStore) (s : S.State) (clearance : Option Clearance) where
  -- A seed that the question names is a node that the clearance allows.
  abbrev pub seed_cleared : Seed → Bool
  seed_cleared seed = not (is_from_question seed.source) || shows S s clearance seed.entity_id

  fate-shows :
      (c : Candidate) → is_confirmed (fate S s clearance c) ≡ shows S s clearance c.entity_id
  unfolding fate
  fate-shows c = elim (Option-cases (S.get_node s c.entity_id)) [
    | inl p ↦ ground arith
    | inr (n, p) ↦ ground arith
  ]

  link_round-cleared :
      (f : Fate) (old : Bool) (c : Candidate) (rest : Linked)
      → is_confirmed f ≡ shows S s clearance c.entity_id
      → All (λ seed. seed_cleared seed ≡ true) rest.question_seeds
      → All (λ seed. seed_cleared seed ≡ true) (link_round f old c rest).question_seeds
  unfolding link_round question_seed
  link_round-cleared unconfirmed old c rest h k = k
  link_round-cleared above_clearance old c rest h k = k
  link_round-cleared confirmed true c rest h k = k
  link_round-cleared confirmed false c rest h k = (sym h, k)

  link_seeds-cleared :
      (cs : List Candidate) (seen : List String)
      → All (λ seed. seed_cleared seed ≡ true) (link_seeds S s clearance seen cs).question_seeds
  unfolding link_seeds
  link_seeds-cleared [] seen = tt
  link_seeds-cleared (c ∷ cs) seen =
      link_round-cleared (fate S s clearance c) (contains seen c.entity_id) c _ (fate-shows c)
        (link_seeds-cleared cs _)

  vector_seeds-cleared :
      (ids : List String) → All (λ seed. seed_cleared seed ≡ true) (map vector_seed ids)
  unfolding vector_seed
  vector_seeds-cleared [] = tt
  vector_seeds-cleared (i ∷ ids) = (refl, vector_seeds-cleared ids)

  capped-cleared :
      (seed_cap : ℕ) (ids : List String) (cs : List Candidate)
      → let capped =
          cap_seeds seed_cap
            (map vector_seed ids)
            (link_seeds S s clearance ids cs).question_seeds in
        All (λ seed. seed_cleared seed ≡ true) (capped.kept_vector ++ capped.kept_question)
  unfolding cap_seeds
  capped-cleared seed_cap ids cs =
      let p : Seed → Type 0 = λ seed. seed_cleared seed ≡ true in
      let linked_seeds = (link_seeds S s clearance ids cs).question_seeds in
      All-append p (take (seed_cap - length (take seed_cap linked_seeds)) (map vector_seed ids))
        (take seed_cap linked_seeds) (All-take p _ _ (vector_seeds-cleared ids))
        (All-take p _ _ (link_seeds-cleared cs ids))

  contains-seed_ids :
      (ids : List String) (max_hops cap : ℕ) (j : String)
      → contains (expand_neighborhood S s ids max_hops cap clearance).seed_ids j ≡ contains ids j
  unfolding expand_neighborhood start
  contains-seed_ids ids max_hops cap j = contains-dedupe ids j

  module _ (L : IsLawful S) (valid : L.IsValid s) where
    resolve_nodes-shows :
        (ids : List String) (j : String)
        → any (λ n. (n.id == j) && sees clearance (node_visibility n)) (resolve_nodes S s ids)
          ≡ (contains ids j && shows S s clearance j)
    unfolding resolve_nodes any contains
    resolve_nodes-shows [] j = refl
    resolve_nodes-shows (i ∷ ids) j = elim (Option-cases (S.get_node s i)) [
      | inl p ↦ ground (arith, resolve_nodes-shows ids j, string_eq.beq_iff i j)
      | inr (n, p) ↦ ground (
        arith,
        resolve_nodes-shows ids j,
        string_eq.beq_iff i j,
        string_eq.beq_iff n.id j,
        L.get_node-id s i n valid p,
      )
    ]

    pub merge_nodes-shows :
        (ids : List String) (j : String)
        → any (λ n. n.id == j) (merge_nodes S s clearance ids)
          ≡ (contains ids j && shows S s clearance j)
    unfolding merge_nodes
    merge_nodes-shows ids j =
        any-keep (λ n. n.id == j) (λ n. sees clearance (node_visibility n))
          (resolve_nodes S s (dedupe ids))
        ∙ resolve_nodes-shows (dedupe ids) j
        ∙ ap (λ b. b && shows S s clearance j) (contains-dedupe ids j)

    -- the nodes of a search from the ids
    searched-exact :
        (ids : List String) (max_hops cap : ℕ) (j : String)
        → let found = expand_neighborhood S s ids max_hops cap clearance in
          all (λ t. not t.truncated) found.trace ≡ true
          → (any (λ n. n.id == j) (merge_nodes S s clearance (ids ++ found.result_ids)) ≡ true) ↔ (
              Within (linked S s (allowed_of clearance)) found.seed_ids max_hops j
              × (shows S s clearance j ≡ true))
    searched-exact ids max_hops cap j full =
        let found = expand_neighborhood S s ids max_hops cap clearance in
        let exact = expand_neighborhood-exact S L s valid ids max_hops cap clearance j full in
        let listed = merge_nodes-shows (ids ++ found.result_ids) j in
        let parts = contains-append ids found.result_ids j in
        let once = contains-seed_ids ids max_hops cap j in
        (
          λ h. (exact.0 (ground arith), ground arith),
          λ w. let r = exact.1 w.0 in ground (arith, w.1),
        )

module _ (F : Floats) (V : VectorStore F) (S : GraphStore) (question : String) (v : V.State)
    (s : S.State) (embedder : Embedder F) (synthesizer : Synthesizer F) (links : List Candidate)
    (k max_hops seed_cap : ℕ) (clearance : Option Clearance)
    (metadata_filter : Option (Chunk → Bool)) where
  abbrev pub answered : HybridResult F
  answered =
      hybrid_query F V S question v s embedder synthesizer links k max_hops seed_cap clearance
        metadata_filter

  -- the hits, and the owners of their chunks
  abbrev hits : List (VectorHit F)
  hits = V.knn v (embedder.embed_text question) k (allowed_of clearance) metadata_filter

  -- If the vector store filters as it documents: every chunk of a result is within the clearance and
  -- passes the metadata filter, every node is within the clearance, and every seed that the question
  -- named is a node within the clearance.
  pub hybrid_query-cleared :
      Filters F V
      → All
          (λ h. (sees clearance h.chunk.visibility && passes F metadata_filter h.chunk) ≡ true)
          answered.chunks
        × All (λ n. sees clearance (node_visibility n) ≡ true) answered.graph_nodes
        × All (λ seed. seed_cleared S s clearance seed ≡ true) answered.seeds
  unfolding hybrid_query vector_search merge_nodes
  hybrid_query-cleared filters = (
    dedupe_chunks-All F _ [] hits (
        subst {A = String → Bool}
          (λ a. All (λ h. (a h.chunk.visibility && passes F metadata_filter h.chunk) ≡ true) hits)
          (λ i label. sym (sees-in_clearance clearance label) i)
          (filters v (embedder.embed_text question) k (allowed_of clearance) metadata_filter)),
    All-keep _ (λ n. sees clearance (node_visibility n)) _ (λ n h. h),
    capped-cleared S s clearance seed_cap (owners F (dedupe_chunks F [] hits)) links,
  )

  -- Over a lawful store in a valid state, if no hop was truncated, the nodes of a result are exactly
  -- those within the clearance that a walk of at most `max_hops` admitted links reaches from a seed.
  pub hybrid_query-exact :
      (L : IsLawful S) (j : String)
      → L.IsValid s
      → all (λ t. not t.truncated) answered.hop_trace.trace ≡ true
      → (any (λ n. n.id == j) answered.graph_nodes ≡ true) ↔ (
          Within (linked S s (allowed_of clearance)) answered.hop_trace.seed_ids max_hops j
          × (shows S s clearance j ≡ true))
  unfolding hybrid_query
  hybrid_query-exact L j valid full =
      searched-exact S s clearance L valid (map seed_id answered.seeds) max_hops
        default_frontier_cap j full

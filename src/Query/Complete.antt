-- ===== src/Query/Complete.antt =====
-- query.py, the loop of `expand_neighborhood`: the walks that the visited nodes cover.
use graphrag_aws_template.Prelude.{
  ℕ, zero, suc, ◌+◌, ◌≤◌, ◌≡◌, String, Bool, true, false, not, List, arith, string_eq, contains,
  all, all-append, any_of, length, ltb, is_empty, Bool-cases, inl, inr,
}
use graphrag_aws_template.Prelude.Sets.{contains-union}
use graphrag_aws_template.Store.{GraphStore, IsLawful, Allowed, NeighborEdge, neighbors_batch}
use graphrag_aws_template.Query.{Expansion, NeighborhoodTrace, expand_hop, expand_rounds, start}
use graphrag_aws_template.Query.Links.{linked, contains-batch}
use graphrag_aws_template.Query.Rounds.{contains-newly, found, reached, reached_all}
use graphrag_aws_template.Query.Walks.{Walk, seed, step}

module _ (S : GraphStore) (L : IsLawful S) (s : S.State) (valid : L.IsValid s) (allowed : Allowed)
    (seeds : List String) (cap : ℕ) where
  abbrev link : String → String → Bool
  link = linked S s allowed

  abbrev batch : Expansion → List NeighborEdge
  batch x = neighbors_batch S s x.frontier allowed

  -- Every walk within the rounds was visited, and so was what is linked to a node that is no longer
  -- in the frontier.
  pub record IsComplete (n : ℕ) (x : Expansion) : Type 0 where
    pub visited_walk :
        (m : ℕ) (j : String) → m ≤ n → Walk link seeds m j → contains x.visited j ≡ true
    pub closed :
        (i j : String)
        → contains x.visited i ≡ true
        → contains x.frontier i ≡ false
        → link i j ≡ true
        → contains x.visited j ≡ true

  -- Without truncation a round visits all that is linked to the frontier.
  visited_linked :
      (hop : ℕ) (x : Expansion) (i j : String)
      → ltb cap (length (found (batch x) cap x)) ≡ false
      → contains x.frontier i ≡ true
      → link i j ≡ true
      → contains (expand_hop S s allowed cap hop x).visited j ≡ true
  unfolding expand_hop
  visited_linked hop x i j full f l = ground (
    arith,
    contains-union x.visited (reached (batch x) cap x) j,
    reached_all (batch x) cap x j full,
    contains-newly (batch x) x.visited j,
    contains-batch S L s valid allowed x.frontier j,
    any_of (λ i. link i j) x.frontier i f l,
  )

  linked_visited :
      (n hop : ℕ) (x : Expansion) (i j : String)
      → ltb cap (length (found (batch x) cap x)) ≡ false
      → IsComplete n x
      → contains x.visited i ≡ true
      → link i j ≡ true
      → contains (expand_hop S s allowed cap hop x).visited j ≡ true
  linked_visited n hop x i j full h v l = elim (Bool-cases (contains x.frontier i)) [
    | inl f ↦ visited_linked hop x i j full f l
    | inr f ↦
        unfold expand_hop in
        ground (arith, contains-union x.visited (reached (batch x) cap x) j, h.closed i j v f l)
  ]

  Walk-visited :
      (n hop : ℕ) (x : Expansion)
      → ltb cap (length (found (batch x) cap x)) ≡ false
      → IsComplete n x
      → (m : ℕ) (j : String) → m ≤ suc n
      → Walk link seeds m j
      → contains (expand_hop S s allowed cap hop x).visited j ≡ true
  Walk-visited n hop x full h m j le (seed i) =
      unfold expand_hop in
      ground (
        arith,
        contains-union x.visited (reached (batch x) cap x) j,
        h.visited_walk 0 j (omega arith) (seed i),
      )
  Walk-visited n hop x full h m j le (step {n = k} {i} w l) =
      linked_visited n hop x i j full h (h.visited_walk k i (omega arith) w) l

  expand_hop-IsComplete :
      (n hop : ℕ) (x : Expansion)
      → ltb cap (length (found (batch x) cap x)) ≡ false
      → IsComplete n x
      → IsComplete (suc n) (expand_hop S s allowed cap hop x)
  expand_hop-IsComplete n hop x full h = record {
    visited_walk = Walk-visited n hop x full h;
    closed = λ i j v f l.
        linked_visited n hop x i j full h
          (unfold expand_hop in
            ground (arith, contains-union x.visited (reached (batch x) cap x) i))
          l;
  }

  -- Where nothing is left to expand, every walk was visited.
  closed_visited :
      (n : ℕ) (x : Expansion)
      → is_empty x.frontier ≡ true
      → IsComplete n x
      → (m : ℕ) (j : String) → Walk link seeds m j
      → contains x.visited j ≡ true
  closed_visited n x e h m j (seed i) = h.visited_walk 0 j (omega arith) (seed i)
  closed_visited n x e h m j (step {n = k} {i} w l) =
      h.closed i j (closed_visited n x e h k i w) (unfold contains in ground arith) l

  abbrev untruncated : List NeighborhoodTrace → Bool
  untruncated trace = all (λ t. not t.truncated) trace

  untruncated_hop :
      (hop : ℕ) (x : Expansion)
      → untruncated (expand_hop S s allowed cap hop x).trace ≡ true
      → (untruncated x.trace ≡ true) × (ltb cap (length (found (batch x) cap x)) ≡ false)
  unfolding expand_hop all
  untruncated_hop hop x h = let both = rw all-append at h in ground arith

  untruncated_rounds :
      (rounds hop : ℕ) (x : Expansion)
      → untruncated (expand_rounds S s allowed cap rounds hop x).trace ≡ true
      → untruncated x.trace ≡ true
  unfolding expand_rounds
  untruncated_rounds zero hop x h = h
  untruncated_rounds (suc rounds) hop x h = elim (Bool-cases (is_empty x.frontier)) [
    | inl e ↦ rw e at h
    | inr e ↦
        (untruncated_hop hop x
          (untruncated_rounds rounds (hop + 1) (expand_hop S s allowed cap hop x) (rw e at h))).0
  ]

  pub expand_rounds_complete :
      (rounds n hop : ℕ) (x : Expansion)
      → untruncated (expand_rounds S s allowed cap rounds hop x).trace ≡ true
      → IsComplete n x
      → (m : ℕ) (j : String) → m ≤ n + rounds
      → Walk link seeds m j
      → contains (expand_rounds S s allowed cap rounds hop x).visited j ≡ true
  unfolding expand_rounds
  expand_rounds_complete zero n hop x u h m j le w = h.visited_walk m j (omega arith) w
  expand_rounds_complete (suc rounds) n hop x u h m j le w =
      elim (Bool-cases (is_empty x.frontier)) [
        | inl e ↦ rw e (closed_visited n x e h m j w)
        | inr e ↦
            let y = expand_hop S s allowed cap hop x in
            let rest = rw e at u in
            let full = (untruncated_hop hop x (untruncated_rounds rounds (hop + 1) y rest)).1 in
            rw e (
              expand_rounds_complete rounds (suc n) (hop + 1) y rest
                (expand_hop-IsComplete n hop x full h) m j (omega arith) w)
      ]

  start-Walk :
      (seed_ids : List String) (m : ℕ) (j : String)
      → seeds ≡ (start seed_ids).visited
      → m ≤ 0
      → Walk link seeds m j
      → contains (start seed_ids).visited j ≡ true
  start-Walk seed_ids m j e le (seed h) = rw (← e) h
  start-Walk seed_ids m j e le (step w l) = absurd (omega arith)

  pub start-IsComplete :
      (seed_ids : List String) → seeds ≡ (start seed_ids).visited → IsComplete 0 (start seed_ids)
  start-IsComplete seed_ids e = record {
    visited_walk = λ m j le w. start-Walk seed_ids m j e le w;
    closed = λ i j v f l. unfold start in cc;
  }

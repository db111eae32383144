-- ===== src/Query/Rounds.antt =====
-- One round of `expand_neighborhood`: what it reaches, and what stays of the earlier rounds.
use graphrag_aws_template.Prelude.{
  ℕ, zero, suc, ◌+◌, ◌≤◌, ◌≡◌, sym, ◌∙◌, ap, String, true, false, not, ◌&&◌, List, map, arith,
  string_eq, contains, contains-keep, contains-take, take_all, length, take, keep, Distinct,
  take-Distinct, ltb, ltb→le, is_empty, Bool-cases, inl, inr,
}
use graphrag_aws_template.Prelude.Sets.{contains-dedupe, dedupe-Distinct}
use graphrag_aws_template.Prelude.Sorting.{
  sorted, contains-sorted, sorted-Distinct, length-sorted, text_order,
}
use graphrag_aws_template.Store.{GraphStore, Allowed, NeighborEdge}
use graphrag_aws_template.Query.{neighbor_id, newly, Expansion, expand_hop, expand_rounds}

pub contains-newly :
    (batch : List NeighborEdge) (visited : List String) (j : String)
    → contains (newly batch visited) j
      ≡ (contains (map neighbor_id batch) j && not (contains visited j))
unfolding newly
contains-newly batch visited j =
    contains-dedupe (keep (λ i. not (contains visited i)) (map neighbor_id batch)) j
    ∙ contains-keep (λ i. not (contains visited i)) (map neighbor_id batch) j

module _ (batch : List NeighborEdge) (cap : ℕ) (x : Expansion) where
  abbrev pub found : List String
  found = newly batch x.visited

  abbrev pub reached : List String
  reached = take cap (sorted found)

  pub found_of_reached : (j : String) → contains reached j ≡ true → contains found j ≡ true
  found_of_reached j h = sym (contains-sorted found j) ∙ contains-take cap (sorted found) j h

  pub reached_all :
      (j : String) → ltb cap (length found) ≡ false → contains reached j ≡ contains found j
  reached_all j h =
      ap (λ l. contains l j)
        (take_all cap (sorted found)
          (omega (arith, length-sorted found, ltb→le cap (length found) h)))
      ∙ contains-sorted found j

  pub reached-Distinct : Distinct reached
  reached-Distinct =
      take-Distinct cap (sorted found) (sorted-Distinct found (unfold newly in dedupe-Distinct _))

  pub reached_new : (j : String) → contains reached j ≡ true → contains x.visited j ≡ false
  reached_new j h = ground (arith, found_of_reached j h, contains-newly batch x.visited j)

module _ (S : GraphStore) (s : S.State) (allowed : Allowed) (cap : ℕ) where
  -- The rule of the loop: a claim about the rounds made so far, kept by a round and by a larger count.
  pub expand_rounds_induction :
      (P : ℕ → Expansion → Type 0)
      → ((n hop : ℕ) (x : Expansion) → P n x → P (suc n) (expand_hop S s allowed cap hop x))
      → ((m n : ℕ) (x : Expansion) → m ≤ n → P m x → P n x)
      → (rounds n hop : ℕ) (x : Expansion) → P n x
      → P (n + rounds) (expand_rounds S s allowed cap rounds hop x)
  unfolding expand_rounds
  expand_rounds_induction P step more zero n hop x h = more n (n + 0) x (omega arith) h
  expand_rounds_induction P step more (suc rounds) n hop x h =
      elim (Bool-cases (is_empty x.frontier)) [
        | inl e ↦ rw e (more n (n + suc rounds) x (omega arith) h)
        | inr e ↦ rw e (
            more (suc n + rounds) (n + suc rounds) _ (omega arith) (
              expand_rounds_induction P step more rounds (suc n) (hop + 1)
                (expand_hop S s allowed cap hop x) (step n hop x h)))
      ]

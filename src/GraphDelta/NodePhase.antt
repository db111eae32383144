-- ===== src/GraphDelta/NodePhase.antt =====
-- The loop over the nodes, from the store's nodes and those of the scratch graph.
use graphrag_aws_template.Prelude.{
  ◌≡◌, refl, sym, ◌∙◌, ap, String, true, false, ◌&&◌, ◌||◌, Option, none, some, List, [], ◌∷◌, map,
  arith, string_eq, pair_eq, contains, keep, is_some, is_empty, if◌then◌else◌,
}
use graphrag_aws_template.Prelude.Sets.{union, contains-union}
use graphrag_aws_template.Prelude.Dicts.{get, keys, contains-keys}
use graphrag_aws_template.Prelude.Dicts.Entries.{first_of_two}
use graphrag_aws_template.Model.{Node, Graph}
use graphrag_aws_template.Model.WellFormed.{id_of, IsWellFormed}
use graphrag_aws_template.Store.{GraphStore, IsLawful}
use graphrag_aws_template.GraphDelta.{
  NodeOrder, Decision, Changes, decide_node, node_table, plan_nodes, surviving_of, docs_of,
}
use graphrag_aws_template.GraphDelta.Decisions.{outcome}
use graphrag_aws_template.GraphDelta.NodeDecisions.{NodeOutcome, node_outcome}
use graphrag_aws_template.GraphDelta.Plan.{
  last_named, drops, replacement, decide_all-total, decide_all-drops, decide_all-replaces,
  outcome_lem,
}

map-id : (xs : List String) → map (λ x. x) xs ≡ xs
map-id [] = refl
map-id (x ∷ xs) = ap (◌∷◌ x) (map-id xs)

-- With neither row there is no document.
absent_node :
    (old new : Option Node) (removed_ids : List String)
    → is_some old ≡ false
    → is_some new ≡ false
    → is_empty (surviving_of (docs_of old) (docs_of new) removed_ids) ≡ true
unfolding union keep
absent_node none none removed_ids h k = refl
absent_node none (some n) removed_ids h k = cc
absent_node (some o) new removed_ids h k = cc

module _ (S : GraphStore) (L : IsLawful S) (node_order : NodeOrder) (s : S.State)
    (valid : L.IsValid s) (scratch : Graph) (wf : IsWellFormed scratch)
    (removed_ids : List String) where
  abbrev pub old_node : String → Option Node
  old_node id = get (node_table S s) id

  abbrev pub new_node : String → Option Node
  new_node id = get scratch.nodes id

  pub old_node_lem : (id : String) → old_node id ≡ S.get_node s id
  old_node_lem id = L.get-all_nodes s id valid

  pub node_decision :
      (id : String)
      → (d : Decision String Node) × NodeOutcome removed_ids id (old_node id) (new_node id) d
  node_decision id =
      node_outcome removed_ids id (old_node id) (new_node id)
        (λ n h. L.get_node-id s id n valid (sym (old_node_lem id) ∙ h)) λ n h. wf.by_id.named id n h

  abbrev pub node_keys : List String
  node_keys = node_order.listed (union (keys (node_table S s)) (keys scratch.nodes))

  pub listed_node :
      (id : String) → contains node_keys id ≡ (is_some (S.get_node s id) || is_some (new_node id))
  listed_node id = ground (
    arith,
    node_order.same (union (keys (node_table S s)) (keys scratch.nodes)) id,
    contains-union (keys (node_table S s)) (keys scratch.nodes) id,
    contains-keys (node_table S s) id,
    contains-keys scratch.nodes id,
    old_node_lem id,
  )

  abbrev pub decide_id : String → Option (Decision String Node)
  decide_id id = decide_node removed_ids id (old_node id) (new_node id)

  abbrev pub node_choice : String → Decision String Node
  node_choice id = (node_decision id).0

  pub plan_nodes-total :
      (c : Changes String Node) × (plan_nodes S node_order s scratch removed_ids ≡ some c)
  unfolding plan_nodes
  plan_nodes-total =
      decide_all-total (λ id. id) id_of decide_id node_choice (λ id. (node_decision id).1.decided)
        (λ id i h. (node_decision id).1.dropped i h) (λ id a h. (node_decision id).1.replaced a h)
        node_keys

  module _ (c : Changes String Node)
      (planned : plan_nodes S node_order s scratch removed_ids ≡ some c) where
    pub dropped_nodes :
        (id : String) → contains c.0 id ≡ (contains node_keys id && drops (node_choice id))
    dropped_nodes id = rw map-id at (
        decide_all-drops (λ i. i) id_of decide_id node_choice (λ i. (node_decision i).1.decided)
          (λ i j h. (node_decision i).1.dropped j h) (λ i a h. (node_decision i).1.replaced a h)
          node_keys c id (unfold plan_nodes in planned))

    replaced_nodes :
        (id : String)
        → last_named id_of id c.1
          ≡ (if contains node_keys id then replacement (node_choice id) else none)
    replaced_nodes id =
        decide_all-replaces (λ i. i) id_of decide_id node_choice (λ i. (node_decision i).1.decided)
          (λ i j h. (node_decision i).1.dropped j h) (λ i a h. (node_decision i).1.replaced a h)
          node_keys c id (unfold plan_nodes in planned)

    pub node_after :
        (id : String)
        → first_of_two (last_named id_of id c.1) (if contains c.0 id then none else S.get_node s id)
          ≡ outcome (node_choice id) (old_node id)
    node_after id = ground (
      arith,
      dropped_nodes id,
      replaced_nodes id,
      listed_node id,
      old_node_lem id,
      outcome_lem (node_choice id) (old_node id),
      (node_decision id).1.survives,
      absent_node (old_node id) (new_node id) removed_ids,
    )

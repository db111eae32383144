-- ===== src/GraphDelta/NodeDecisions.antt =====
-- What a round of the plan decides for a node: the documents that survive, and the props.
use graphrag_aws_template.Prelude.{
  ◌≡◌, refl, sym, ◌∙◌, ap, String, true, false, not, Option, none, some, List, [], arith, string_eq,
  pair_eq, keep, is_empty, is_some, Bool-cases, inl, inr,
}
use graphrag_aws_template.Prelude.Sets.{union, difference, set_eq_at}
use graphrag_aws_template.Prelude.Dicts.{get}
use graphrag_aws_template.Model.{Node, Props, value_eq, entity_eq}
use graphrag_aws_template.Model.Merge.{props_of}
use graphrag_aws_template.GraphDelta.{
  or_empty, surviving_of, docs_of, or_else, node_props, sources_of, reconcile_node, node_unchanged,
  Decision, drop, leave, replace, decide_node,
}
use graphrag_aws_template.GraphDelta.Decisions.{
  outcome, contains-surviving_of, get-update, dict_eq_at, overridden, DocsMerge, contains-empty,
  is_empty-same,
}

abbrev pub node_bag : Option Node → Option Props
node_bag none = none
node_bag (some n) = some n.props

pub record NodeOutcome (removed_ids : List String) (id : String) (old new : Option Node)
    (d : Decision String Node) : Type 0 where
  pub decided : decide_node removed_ids id old new ≡ some d
  pub docs : DocsMerge (docs_of old) (docs_of new) removed_ids (or_empty (docs_of (outcome d old)))
  pub survives :
      is_some (outcome d old)
      ≡ not (is_empty (surviving_of (docs_of old) (docs_of new) removed_ids))
  pub props :
      is_some (outcome d old) ≡ true
      → (name : String)
      → get (props_of (λ n. n.props) (outcome d old)) name
        ≡ overridden (node_bag old) (node_bag new) name
  pub dropped : (i : String) → d ≡ drop i → i ≡ id
  pub replaced : (a : Node) → d ≡ replace a → a.id ≡ id
  pub left : d ≡ leave → is_some old ≡ true

-- The surviving documents of the two rows.
abbrev node_docs : Option Node → Option Node → List String → List String
node_docs old new removed_ids = surviving_of (docs_of old) (docs_of new) removed_ids

-- the row that the plan aims at
abbrev node_target : Option Node → Option Node → List String → Node → Node
node_target old new removed_ids ref = record {
  id = ref.id;
  kind = ref.kind;
  props = node_props old new;
  sources = sources_of (node_docs old new removed_ids);
  doc_paths = node_docs old new removed_ids;
}

node_props_lem :
    (old new : Option Node) (name : String)
    → get (node_props old new) name ≡ overridden (node_bag old) (node_bag new) name
unfolding get
node_props_lem none none name = refl
node_props_lem (some o) none name = refl
node_props_lem none (some n) name = refl
node_props_lem (some o) (some n) name = get-update o.props n.props name

module _ (removed_ids : List String) (id : String) (old new : Option Node) where
  dropped_outcome :
      is_empty (node_docs old new removed_ids) ≡ true → NodeOutcome removed_ids id old new (drop id)
  dropped_outcome h = record {
    decided = unfold decide_node in rw h;
    docs = λ p. ground (
      arith,
      contains-empty [] p refl,
      contains-empty (node_docs old new removed_ids) p h,
      contains-surviving_of (docs_of old) (docs_of new) removed_ids p,
    );
    survives = rw h;
    props = λ x name. cc;
    dropped = λ i e. ground arith;
    replaced = λ a e. cc;
    left = λ e. cc;
  }

  replaced_outcome :
      (ref : Node)
      → ref.id ≡ id
      → decide_node removed_ids id old new ≡ some (replace (node_target old new removed_ids ref))
      → is_empty (node_docs old new removed_ids) ≡ false
      → NodeOutcome removed_ids id old new (replace (node_target old new removed_ids ref))
  replaced_outcome ref named decided h = record {
    decided = decided;
    docs = λ p. contains-surviving_of (docs_of old) (docs_of new) removed_ids p;
    survives = rw h;
    props = λ x name. node_props_lem old new name;
    dropped = λ i e. cc;
    replaced = λ a e. ground arith;
    left = λ e. cc;
  }

left_outcome :
    (removed_ids : List String) (id : String) (o ref : Node) (new : Option Node)
    → decide_node removed_ids id (some o) new ≡ some leave
    → is_empty (node_docs (some o) new removed_ids) ≡ false
    → node_unchanged o (node_target (some o) new removed_ids ref) ≡ true
    → NodeOutcome removed_ids id (some o) new leave
left_outcome removed_ids id o ref new decided h same = record {
  decided = decided;
  docs = λ p.
      unfold node_unchanged in
      set_eq_at o.doc_paths (node_docs (some o) new removed_ids) p (ground arith)
      ∙ contains-surviving_of (docs_of (some o)) (docs_of new) removed_ids p;
  survives = rw h;
  props = λ x name.
      unfold node_unchanged in
      dict_eq_at o.props (node_props (some o) new) name (ground arith)
      ∙ node_props_lem (some o) new name;
  dropped = λ i e. cc;
  replaced = λ a e. cc;
  left = λ e. refl;
}

NodeOutcome-old :
    (removed_ids : List String) (id : String) (o ref : Node) (new : Option Node)
    → ref.id ≡ id
    → or_else new (some o) ≡ some ref
    → (d : Decision String Node) × NodeOutcome removed_ids id (some o) new d
NodeOutcome-old removed_ids id o ref new named chosen =
    elim (Bool-cases (is_empty (node_docs (some o) new removed_ids))) [
      | inl e ↦ (drop id, dropped_outcome removed_ids id (some o) new e)
      | inr e ↦ elim (Bool-cases (node_unchanged o (node_target (some o) new removed_ids ref))) [
        | inl same ↦ (
          leave,
          left_outcome removed_ids id o ref new
              (unfold decide_node reconcile_node in rw (e, chosen) (rw same)) e same,
        )
        | inr other ↦ (
          _,
          replaced_outcome removed_ids id (some o) new ref named
              (unfold decide_node reconcile_node in rw (e, chosen) (rw other)) e,
        )
      ]
    ]

-- The decision about a node, from its two rows.
pub node_outcome :
    (removed_ids : List String) (id : String) (old new : Option Node)
    → ((n : Node) → old ≡ some n → n.id ≡ id)
    → ((n : Node) → new ≡ some n → n.id ≡ id)
    → (d : Decision String Node) × NodeOutcome removed_ids id old new d
node_outcome removed_ids id none none named new_named =
    (drop id, dropped_outcome removed_ids id none none (unfold union difference keep in refl))
node_outcome removed_ids id none (some n) named new_named =
    elim (Bool-cases (is_empty (node_docs none (some n) removed_ids))) [
      | inl e ↦ (drop id, dropped_outcome removed_ids id none (some n) e)
      | inr e ↦ (
        _,
        replaced_outcome removed_ids id none (some n) n (new_named n refl)
            (unfold decide_node reconcile_node in rw e) e,
      )
    ]
node_outcome removed_ids id (some o) none named new_named =
    NodeOutcome-old removed_ids id o o none (named o refl) refl
node_outcome removed_ids id (some o) (some n) named new_named =
    NodeOutcome-old removed_ids id o n (some n) (new_named n refl) refl

-- The row is there exactly when it has a document.
pub documented :
    {removed_ids : List String} {id : String} {old new : Option Node} {d : Decision String Node}
    → NodeOutcome removed_ids id old new d
    → is_some (outcome d old) ≡ not (is_empty (or_empty (docs_of (outcome d old))))
documented {removed_ids} {old} {new} {d} o =
    o.survives
    ∙ ap not (
        is_empty-same (surviving_of (docs_of old) (docs_of new) removed_ids)
          (or_empty (docs_of (outcome d old)))
          λ p. contains-surviving_of (docs_of old) (docs_of new) removed_ids p ∙ sym (o.docs p))

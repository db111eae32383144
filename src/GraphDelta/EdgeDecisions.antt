-- ===== src/GraphDelta/EdgeDecisions.antt =====
-- What a round of the plan decides for an edge: the documents that survive, and the props.
use graphrag_aws_template.Prelude.{
  ◌≡◌, ◌≢◌, refl, sym, ◌∙◌, ap, String, true, false, not, ◌&&◌, Option, none, some, List, [], arith,
  string_eq, pair_eq, keep, is_empty, is_some, Bool-cases, inl, inr,
}
use graphrag_aws_template.Prelude.Sets.{union, difference, set_eq_at}
use graphrag_aws_template.Prelude.Dicts.{get}
use graphrag_aws_template.Model.{Edge, EdgeKey, edge_value, key, Props, value_eq, entity_eq}
use graphrag_aws_template.Model.Merge.{props_of}
use graphrag_aws_template.GraphDelta.{
  or_empty, surviving_of, edge_docs_of, EdgeId, or_else, edge_props, edge_props, sources_of,
  reconcile_edge, reconcile_edge, edge_unchanged, edge_unchanged, Decision, drop, leave, replace,
  decide_edge,
}
use graphrag_aws_template.GraphDelta.Plan.{drops}
use graphrag_aws_template.GraphDelta.Decisions.{
  outcome, contains-surviving_of, get-update, dict_eq_at, overridden, DocsMerge, contains-empty,
  is_empty-same,
}

abbrev pub edge_bag : Option Edge → Option Props
edge_bag none = none
edge_bag (some n) = some n.props

-- the key of the triple that is deleted
abbrev pub id_key : EdgeId → EdgeKey
id_key (i, kind, j) = (i, (edge_value kind, j))

pub record EdgeOutcome (removed_ids : List String) (k : EdgeKey) (old new : Option Edge)
    (d : Decision EdgeId Edge) : Type 0 where
  pub decided : decide_edge removed_ids old new ≡ some d
  pub docs :
      DocsMerge
        (edge_docs_of old)
        (edge_docs_of new)
        removed_ids
        (or_empty (edge_docs_of (outcome d old)))
  pub survives :
      is_some (outcome d old)
      ≡ not (is_empty (surviving_of (edge_docs_of old) (edge_docs_of new) removed_ids))
  pub props :
      is_some (outcome d old) ≡ true
      → (name : String)
      → get (props_of (λ n. n.props) (outcome d old)) name
        ≡ overridden (edge_bag old) (edge_bag new) name
  pub dropped : (x : EdgeId) → d ≡ drop x → id_key x ≡ k
  pub replaced : (a : Edge) → d ≡ replace a → key a ≡ k

-- The surviving documents of the two rows.
abbrev edge_docs : Option Edge → Option Edge → List String → List String
edge_docs old new removed_ids = surviving_of (edge_docs_of old) (edge_docs_of new) removed_ids

-- the row that the plan aims at
abbrev edge_target : Option Edge → Option Edge → List String → Edge → Edge
edge_target old new removed_ids ref = record {
  src_id = ref.src_id;
  dst_id = ref.dst_id;
  kind = ref.kind;
  props = edge_props old new;
  sources = sources_of (edge_docs old new removed_ids);
  doc_paths = edge_docs old new removed_ids;
}

edge_props_lem :
    (old new : Option Edge) (name : String)
    → get (edge_props old new) name ≡ overridden (edge_bag old) (edge_bag new) name
unfolding get
edge_props_lem none none name = refl
edge_props_lem (some o) none name = refl
edge_props_lem none (some n) name = refl
edge_props_lem (some o) (some n) name = get-update o.props n.props name

module _ (removed_ids : List String) (k : EdgeKey) (old new : Option Edge) where
  -- no document survives: the edge is deleted if the store has it
  dropped_outcome :
      (d : Decision EdgeId Edge)
      → is_empty (edge_docs old new removed_ids) ≡ true
      → decide_edge removed_ids old new ≡ some d
      → outcome d old ≡ none
      → ((x : EdgeId) → d ≡ drop x → id_key x ≡ k)
      → ((a : Edge) → d ≢ replace a)
      → EdgeOutcome removed_ids k old new d
  dropped_outcome d h decided gone named never = record {
    decided = decided;
    docs = λ p. rw gone (
        ground (
          arith,
          contains-empty [] p refl,
          contains-empty (edge_docs old new removed_ids) p h,
          contains-surviving_of (edge_docs_of old) (edge_docs_of new) removed_ids p,
        ));
    survives = rw (gone, h);
    props = λ x name. ground arith;
    dropped = named;
    replaced = λ a e. absurd (never a e);
  }

  replaced_outcome :
      (ref : Edge)
      → key ref ≡ k
      → decide_edge removed_ids old new ≡ some (replace (edge_target old new removed_ids ref))
      → is_empty (edge_docs old new removed_ids) ≡ false
      → EdgeOutcome removed_ids k old new (replace (edge_target old new removed_ids ref))
  replaced_outcome ref named decided h = record {
    decided = decided;
    docs = λ p. contains-surviving_of (edge_docs_of old) (edge_docs_of new) removed_ids p;
    survives = rw h;
    props = λ x name. edge_props_lem old new name;
    dropped = λ i e. cc;
    replaced = λ a e. unfold key in ground arith;
  }

left_outcome :
    (removed_ids : List String) (k : EdgeKey) (o ref : Edge) (new : Option Edge)
    → decide_edge removed_ids (some o) new ≡ some leave
    → is_empty (edge_docs (some o) new removed_ids) ≡ false
    → edge_unchanged o (edge_target (some o) new removed_ids ref) ≡ true
    → EdgeOutcome removed_ids k (some o) new leave
left_outcome removed_ids k o ref new decided h same = record {
  decided = decided;
  docs = λ p.
      unfold edge_unchanged in
      set_eq_at o.doc_paths (edge_docs (some o) new removed_ids) p (ground arith)
      ∙ contains-surviving_of (edge_docs_of (some o)) (edge_docs_of new) removed_ids p;
  survives = rw h;
  props = λ x name.
      unfold edge_unchanged in
      dict_eq_at o.props (edge_props (some o) new) name (ground arith)
      ∙ edge_props_lem (some o) new name;
  dropped = λ i e. cc;
  replaced = λ a e. cc;
}

EdgeOutcome-old :
    (removed_ids : List String) (k : EdgeKey) (o ref : Edge) (new : Option Edge)
    → key o ≡ k
    → key ref ≡ k
    → or_else new (some o) ≡ some ref
    → (d : Decision EdgeId Edge) × EdgeOutcome removed_ids k (some o) new d
EdgeOutcome-old removed_ids k o ref new old_named named chosen =
    elim (Bool-cases (is_empty (edge_docs (some o) new removed_ids))) [
      | inl e ↦ (
        drop (o.src_id, o.kind, o.dst_id),
        dropped_outcome removed_ids k (some o) new _ e (unfold decide_edge in rw e) refl
            (λ x q. unfold key in ground arith) (λ a q. cc),
      )
      | inr e ↦ elim (Bool-cases (edge_unchanged o (edge_target (some o) new removed_ids ref))) [
        | inl same ↦ (
          leave,
          left_outcome removed_ids k o ref new
              (unfold decide_edge reconcile_edge in rw (e, chosen) (rw same)) e same,
        )
        | inr other ↦ (
          _,
          replaced_outcome removed_ids k (some o) new ref named
              (unfold decide_edge reconcile_edge in rw (e, chosen) (rw other)) e,
        )
      ]
    ]

-- The decision about an edge, from its two rows.
pub edge_outcome :
    (removed_ids : List String) (k : EdgeKey) (old new : Option Edge)
    → ((e : Edge) → old ≡ some e → key e ≡ k)
    → ((e : Edge) → new ≡ some e → key e ≡ k)
    → (d : Decision EdgeId Edge) × EdgeOutcome removed_ids k old new d
edge_outcome removed_ids k none none named new_named = (
  leave,
  dropped_outcome removed_ids k none none leave (unfold union difference keep in refl)
      (unfold decide_edge keep in refl) refl (λ x q. cc) (λ a q. cc),
)
edge_outcome removed_ids k none (some n) named new_named =
    elim (Bool-cases (is_empty (edge_docs none (some n) removed_ids))) [
      | inl e ↦ (
        leave,
        dropped_outcome removed_ids k none (some n) leave e (unfold decide_edge in rw e) refl
            (λ x q. cc) (λ a q. cc),
      )
      | inr e ↦ (
        _,
        replaced_outcome removed_ids k none (some n) n (new_named n refl)
            (unfold decide_edge reconcile_edge in rw e) e,
      )
    ]
edge_outcome removed_ids k (some o) none named new_named =
    EdgeOutcome-old removed_ids k o o none (named o refl) (named o refl) refl
edge_outcome removed_ids k (some o) (some n) named new_named =
    EdgeOutcome-old removed_ids k o n (some n) (named o refl) (new_named n refl) refl

-- The row is there exactly when it has a document.
pub documented :
    {removed_ids : List String} {k : EdgeKey} {old new : Option Edge} {d : Decision EdgeId Edge}
    → EdgeOutcome removed_ids k old new d
    → is_some (outcome d old) ≡ not (is_empty (or_empty (edge_docs_of (outcome d old))))
documented {removed_ids} {old} {new} {d} o =
    o.survives
    ∙ ap not (
        is_empty-same (surviving_of (edge_docs_of old) (edge_docs_of new) removed_ids)
          (or_empty (edge_docs_of (outcome d old)))
          λ p.
            contains-surviving_of (edge_docs_of old) (edge_docs_of new) removed_ids p
            ∙ sym (o.docs p))

-- Only a row of the store is deleted, and it is deleted exactly if it is not there afterwards.
pub drops-EdgeOutcome :
    {removed_ids : List String} {k : EdgeKey} (old new : Option Edge) (d : Decision EdgeId Edge)
    → EdgeOutcome removed_ids k old new d
    → drops d ≡ (is_some old && not (is_some (outcome d old)))
drops-EdgeOutcome none new (drop x) o =
    absurd (unfold decide_edge reconcile_edge in ground (arith, o.decided))
drops-EdgeOutcome (some e) new (drop x) o = refl
drops-EdgeOutcome none new leave o = refl
drops-EdgeOutcome (some e) new leave o = refl
drops-EdgeOutcome none new (replace a) o = refl
drops-EdgeOutcome (some e) new (replace a) o = refl

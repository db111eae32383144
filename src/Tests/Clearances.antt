-- ===== src/Tests/Clearances.antt =====
-- Clearances, composed labels, and a labelled graph.
use graphrag_aws_template.Visibility.{default_visibility}
use graphrag_aws_template.Visibility.{get_or}
use graphrag_aws_template.Model.{edge_value}
use graphrag_aws_template.Model.{set_node}
use graphrag_aws_template.Model.{set_edge}
use graphrag_aws_template.Prelude.{
  ◌≡◌, refl, String, string_eq, pair_eq, true, false, ◌&&◌, List, [], ◌∷◌, all, All, arith,
  Bool-cases, inl, inr,
}
use graphrag_aws_template.Prelude.Dicts.{get}
use graphrag_aws_template.Visibility.{
  public, get_or, default_visibility, internal, restricted, value, ranks, compose, Clearance,
  allows, resolve_clearance,
}
use graphrag_aws_template.Visibility.Compose
use graphrag_aws_template.Visibility.Compose.{IsTier, IsDownwardClosed, max_rank}
use graphrag_aws_template.Visibility.Personas
use graphrag_aws_template.Visibility.Personas.{is_absent}
use graphrag_aws_template.Model.{Edge, key, text}
use graphrag_aws_template.Store.{vis}
use graphrag_aws_template.Labels.{Labels, label_graph}
use graphrag_aws_template.Labels.Edges
use graphrag_aws_template.Labels.Edges.{IsTiered, label_of}
use graphrag_aws_template.Tests.Fixtures.{organisation, alice_chairs}

abbrev pub member : Clearance
member = record { persona = "member"; allowed = "public" ∷ "internal" ∷ [] }

pub member_closed : IsDownwardClosed member
unfolding resolve_clearance
member_closed = (Personas.resolve_clearance-IsDownwardClosed "member" member refl).1

abbrev mixed : List String
mixed = "public" ∷ "restricted" ∷ "internal" ∷ []

mixed_tiers : All IsTier mixed
unfolding value
mixed_tiers = ((public, refl), ((restricted, refl), ((internal, refl), tt)))

allows-compose_example : allows member (compose mixed) ≡ false
unfolding allows value all
allows-compose_example = Compose.allows-compose member member_closed mixed mixed_tiers refl

resolve_clearance-IsDownwardClosed_example :
    (member.persona ≡ "member") × IsDownwardClosed member × (true ≡ true)
unfolding resolve_clearance allows
resolve_clearance-IsDownwardClosed_example =
    Personas.resolve_clearance-IsDownwardClosed "member" member refl

abbrev labels : Labels
labels = ("person:alice", "internal") ∷ ("sig:node", "restricted") ∷ []

labels-IsTiered : IsTiered labels
unfolding value get_or get default_visibility
labels-IsTiered id = elim (Bool-cases (string_eq.beq "person:alice" id)) [
  | inl e ↦ (internal, ground arith)
  | inr e ↦ elim (Bool-cases (string_eq.beq "sig:node" id)) [
    | inl f ↦ (restricted, ground arith)
    | inr f ↦ (public, ground arith)
  ]
]

-- the edge after labelling
abbrev labelled_chairs : Edge
labelled_chairs = record alice_chairs { props = ("visibility", text "restricted") ∷ [] }

label_graph-edge_example :
    allows member (vis labelled_chairs.props)
    ≡ (allows member (label_of labels "person:alice") && allows member (label_of labels "sig:node"))
unfolding allows value get label_graph set_edge set_node edge_value
label_graph-edge_example =
    Edges.label_graph-edge organisation labels (key alice_chairs) labelled_chairs member
      labels-IsTiered member_closed refl refl

-- a label that is none of the three tiers
abbrev odd_labels : Labels
odd_labels = ("person:alice", "secret") ∷ []

label_graph-edge_unranked_example : vis (("visibility", text "public") ∷ []) ≡ "public"
unfolding get ranks get_or default_visibility label_graph set_edge set_node edge_value
label_graph-edge_unranked_example =
    Edges.label_graph-edge_unranked organisation odd_labels (key alice_chairs)
      (record alice_chairs { props = ("visibility", text "public") ∷ [] }) refl refl refl

-- ===== src/Tests/Searches.antt =====
-- Searches of the organisation from Alice, under the clearance of a member and under none.
use graphrag_aws_template.Model.{edge_value}
use graphrag_aws_template.Prelude.{keep}
use graphrag_aws_template.Model.{set_node}
use graphrag_aws_template.Prelude.Dicts.{put}
use graphrag_aws_template.Model.{set_edge}
use graphrag_aws_template.Prelude.Dicts.{values}
use graphrag_aws_template.Store.Memory.{neighbors}
use graphrag_aws_template.Prelude.{all}
use graphrag_aws_template.Prelude.{
  ◌≡◌, ◌≤◌, ◌↔◌, refl, String, string_eq, true, false, ◌&&◌, some, none, List, [], ◌∷◌, contains,
  Distinct, length,
}
use graphrag_aws_template.Visibility.{Clearance}
use graphrag_aws_template.Model.{chairs, owns, out}
use graphrag_aws_template.Store.Memory.{memory_store}
use graphrag_aws_template.Store.Memory.Lawful.{memory_laws, memory-IsValid}
use graphrag_aws_template.Query.{
  Step, TraceEntry, TraversalResult, traverse, expand_neighborhood, ok, allowed_of,
}
use graphrag_aws_template.Query.Links.{linked}
use graphrag_aws_template.Query.Walks.{Within}
use graphrag_aws_template.Query.Reach
use graphrag_aws_template.Query.Reach.{IsCleared}
use graphrag_aws_template.Query.Bounds
use graphrag_aws_template.Query.Typed
use graphrag_aws_template.Query.Typed.{From}
use graphrag_aws_template.Tests.Fixtures.{organisation, organisation-IsWellFormed}

abbrev member : Clearance
member = record { persona = "member"; allowed = "public" ∷ "internal" ∷ [] }

abbrev seeds : List String
seeds = "person:alice" ∷ []

expand_neighborhood-exact_example :
    (true ≡ true) ↔ Within (linked memory_store organisation (some member.allowed)) seeds 2 "kep:1"
unfolding all expand_neighborhood neighbors values set_edge put set_node
expand_neighborhood-exact_example =
    Reach.expand_neighborhood-exact memory_store memory_laws organisation
      (memory-IsValid organisation organisation-IsWellFormed) seeds 2 50 (some member) "kep:1" refl

expand_neighborhood_sound_example :
    Within (linked memory_store organisation (some member.allowed)) seeds 2 "sig:node"
    × IsCleared memory_store organisation (some member.allowed) "sig:node"
unfolding contains expand_neighborhood neighbors values set_edge put set_node
expand_neighborhood_sound_example =
    Reach.expand_neighborhood_sound memory_store memory_laws organisation
      (memory-IsValid organisation organisation-IsWellFormed) seeds 2 50 (some member) "sig:node"
      refl

expand_neighborhood-bounds_example :
    let r = expand_neighborhood memory_store organisation seeds 2 1 none in
    Distinct r.result_ids
    × ((j : String) → (contains r.seed_ids j && contains r.result_ids j) ≡ false)
    × (length r.result_ids ≤ 2)
    × (length r.trace ≤ 2)
expand_neighborhood-bounds_example =
    Bounds.expand_neighborhood-bounds memory_store organisation seeds 2 1 none

-- who owns what the SIG that Alice chairs owns
abbrev steps : List Step
steps = (chairs, out) ∷ (owns, out) ∷ []

abbrev hops : List TraceEntry
hops =
    record {
      hop = 1;
      edge_kind = chairs;
      direction = out;
      from_ids = seeds;
      to_ids = "sig:node" ∷ [];
      truncated = false;
    }
    ∷ record {
      hop = 2;
      edge_kind = owns;
      direction = out;
      from_ids = "sig:node" ∷ [];
      to_ids = "kep:1" ∷ [];
      truncated = false;
    }
    ∷ []

abbrev traversal : TraversalResult
traversal = record { seed_ids = seeds; trace = hops; result_ids = "kep:1" ∷ [] }

traversed : traverse memory_store organisation seeds steps 2 50 (some member) ≡ ok traversal
unfolding traverse keep neighbors values set_edge put set_node edge_value
traversed = refl

traverse_sound_example :
    (2 ≤ 2)
    × From memory_store memory_laws organisation
        (memory-IsValid organisation organisation-IsWellFormed)
        (some member.allowed)
        seeds
        steps
        "kep:1"
unfolding contains allowed_of
traverse_sound_example =
    Typed.traverse_sound memory_store memory_laws organisation
      (memory-IsValid organisation organisation-IsWellFormed) seeds steps 2 50 (some member)
      traversal "kep:1" traversed refl

traverse-exact_example :
    (true ≡ true)
    ↔ From memory_store memory_laws organisation
        (memory-IsValid organisation organisation-IsWellFormed)
        (some member.allowed)
        seeds
        steps
        "kep:1"
unfolding all contains allowed_of
traverse-exact_example =
    Typed.traverse-exact memory_store memory_laws organisation
      (memory-IsValid organisation organisation-IsWellFormed) seeds steps 2 50 (some member)
      traversal "kep:1" traversed refl

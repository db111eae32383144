-- ===== src/Delta.antt =====
-- packages/graphrag/src/graphrag/delta.py: the manifest, and its classified difference. Hashing is
-- not modelled: a manifest is given as a dict; its envelope is in State. The order in which the
-- loops go through their sets is an argument.
pub mod Groups
pub mod Classify
use graphrag_aws_template.Prelude.{
  String, string_eq, pair_eq, ◌==◌, Bool, true, false, not, ◌&&◌, Option, none, some, List, [], ◌∷◌,
  ◌++◌, map, keep, is_empty,
}
use graphrag_aws_template.Prelude.Sets.{union, difference, intersection, dedupe, IterationOrder}
use graphrag_aws_template.Prelude.Dicts.{Dict, get, put, keys}
use graphrag_aws_template.Prelude.Sorting.{sorted, text_order, pair_order}

abbrev pub Manifest : Type 0
Manifest = Dict String String

pub record Delta : Type 0 where
  pub added : List String
  pub changed : List String
  pub deleted : List String
  pub moved : List (String × String)

-- `Delta.is_empty`
unfoldable pub no_change : Delta → Bool
no_change d = is_empty d.added && (is_empty d.changed && (is_empty d.deleted && is_empty d.moved))

abbrev pub targets : List (String × String) → List String
targets moved = map (λ m. m.1) moved

abbrev pub origins : List (String × String) → List String
origins moved = map (λ m. m.0) moved

unfoldable pub added_doc_ids : Delta → List String
unfolding union dedupe
added_doc_ids d = union (union (dedupe d.added) (dedupe d.changed)) (dedupe (targets d.moved))

unfoldable pub removed_doc_ids : Delta → List String
unfolding union dedupe
removed_doc_ids d = union (union (dedupe d.deleted) (dedupe d.changed)) (dedupe (origins d.moved))

-- manifest[p]; the loops look up only keys that are there
unfoldable pub hash_at : Manifest → String → String
unfolding get
hash_at manifest p = elim (get manifest p) [ none ↦ "" | some h ↦ h ]

-- the list under a key of a `defaultdict(list)`
abbrev pub listed_at : Dict String (List String) → String → List String
listed_at d h = elim (get d h) [ none ↦ [] | some paths ↦ paths ]

-- for p in paths: by_hash[manifest[p]].append(p)
unfoldable pub group_onto :
    Manifest → Dict String (List String) → List String → Dict String (List String)
unfolding hash_at put get
group_onto manifest by_hash [] = by_hash
group_onto manifest by_hash (p ∷ paths) =
    let h = hash_at manifest p in
    group_onto manifest (put by_hash h (listed_at by_hash h ++ p ∷ [])) paths

-- zip(xs, ys, strict=False)
unfoldable pub zip_short : List String → List String → List (String × String)
zip_short [] ys = []
zip_short (x ∷ xs) [] = []
zip_short (x ∷ xs) (y ∷ ys) = (x, y) ∷ zip_short xs ys

-- the loop over `deleted_by_hash.items()`
unfoldable pub pair_moves :
    Dict String (List String) → Dict String (List String) → List (String × String)
unfolding zip_short sorted get
pair_moves [] added_by_hash = []
pair_moves ((h, old_paths) ∷ rest) added_by_hash =
    zip_short (sorted old_paths) (sorted (listed_at added_by_hash h))
    ++ pair_moves rest added_by_hash

-- old[p] != new[p]
unfoldable pub differs : Manifest → Manifest → String → Bool
unfolding hash_at
differs old new p = not (hash_at old p == hash_at new p)

module _ (order : IterationOrder string_eq) where
  unfoldable pub moves : Manifest → Manifest → List (String × String)
  unfolding group_onto pair_moves difference dedupe keys
  moves old new =
      let added_paths = difference (dedupe (keys new)) (dedupe (keys old)) in
      let deleted_paths = difference (dedupe (keys old)) (dedupe (keys new)) in
      pair_moves (group_onto old [] (order.listed deleted_paths))
        (group_onto new [] (order.listed added_paths))

  unfoldable pub diff_manifests : Option Manifest → Manifest → Delta
  unfolding moves differs intersection sorted
  diff_manifests none new = record {
    added = sorted (dedupe (keys new));
    changed = [];
    deleted = [];
    moved = [];
  }
  diff_manifests (some old) new =
      let old_keys = dedupe (keys old) in
      let new_keys = dedupe (keys new) in
      let moved = moves old new in
      record {
        added = sorted (difference (difference new_keys old_keys) (dedupe (targets moved)));
        changed = sorted (keep (differs old new) (intersection old_keys new_keys));
        deleted = sorted (difference (difference old_keys new_keys) (dedupe (origins moved)));
        moved = sorted moved;
      }

-- ===== src/Delta/Classify.antt =====
-- What `diff_manifests` says of every document.
use graphrag_aws_template.Prelude.{
  ◌≡◌, sym, ◌∙◌, ap, String, Bool, true, false, not, ◌&&◌, none, some, List, [], arith, ◌==◌,
  string_eq, pair_eq, contains, contains-keep, keep, is_some, any_at, contains-map,
}
use graphrag_aws_template.Prelude.Sets.{
  IterationOrder, union, difference, dedupe, intersection, contains-union, contains-difference,
  contains-dedupe, contains-intersection,
}
use graphrag_aws_template.Prelude.Dicts.{get, keys, contains-keys}
use graphrag_aws_template.Prelude.Sorting.{
  sorted, contains-sorted, contains-map-sorted, text_order, pair_order,
}
use graphrag_aws_template.Delta.{
  Manifest, Delta, targets, origins, added_doc_ids, removed_doc_ids, hash_at, differs, group_onto,
  moves, diff_manifests,
}
use graphrag_aws_template.Delta.Groups.{contains-group, group_onto-Grouped, pair_moves-contains}

-- A document is in the manifest.
abbrev pub has : Manifest → String → Bool
has m p = is_some (get m p)

hash-get :
    (old new : Manifest) (o n : String)
    → has old o ≡ true
    → has new n ≡ true
    → hash_at old o ≡ hash_at new n
    → get old o ≡ get new n
unfolding hash_at
hash-get old new o n a x z = ground arith

module _ (order : IterationOrder string_eq) (old new : Manifest) where
  abbrev added_paths : List String
  added_paths = difference (dedupe (keys new)) (dedupe (keys old))

  abbrev deleted_paths : List String
  deleted_paths = difference (dedupe (keys old)) (dedupe (keys new))

  contains-added_paths : (p : String) → contains added_paths p ≡ (has new p && not (has old p))
  contains-added_paths p = ground (
    arith,
    contains-difference (dedupe (keys new)) (dedupe (keys old)) p,
    contains-dedupe (keys new) p,
    contains-dedupe (keys old) p,
    contains-keys new p,
    contains-keys old p,
  )

  contains-deleted_paths : (p : String) → contains deleted_paths p ≡ (has old p && not (has new p))
  contains-deleted_paths p = ground (
    arith,
    contains-difference (dedupe (keys old)) (dedupe (keys new)) p,
    contains-dedupe (keys new) p,
    contains-dedupe (keys old) p,
    contains-keys new p,
    contains-keys old p,
  )

  -- A move leads from a document that is gone to one that is new, with the same hash.
  moves-contains :
      (o n : String)
      → contains (moves order old new) (o, n) ≡ true
      → (has old o ≡ true)
        × (has new o ≡ false)
        × (has new n ≡ true)
        × (has old n ≡ false)
        × (hash_at old o ≡ hash_at new n)
  unfolding moves
  moves-contains o n c =
      let (gone, under) =
        pair_moves-contains old (contains deleted_paths)
          (group_onto old [] (order.listed deleted_paths))
          (group_onto new [] (order.listed added_paths)) o n
          (group_onto-Grouped old (contains deleted_paths) (order.listed deleted_paths) []
            (λ p h. sym (order.same deleted_paths p) ∙ h) tt)
          c in
      ground (
        arith,
        contains-group new (order.listed added_paths) (hash_at old o) n,
        order.same added_paths n,
        contains-added_paths n,
        contains-deleted_paths o,
        string_eq.beq_iff (hash_at new n) (hash_at old o),
      )

  target_is_added :
      (p : String)
      → contains (targets (moves order old new)) p ≡ true
      → contains added_paths p ≡ true
  target_is_added p h =
      let ((o, n), c, e) = any_at (λ m. m.1 == p) (moves order old new) (rw contains-map at h) in
      let (a, b, x, y, z) = moves-contains o n c in
      ground (arith, contains-added_paths n, string_eq.beq_iff n p)

  origin_is_deleted :
      (p : String)
      → contains (origins (moves order old new)) p ≡ true
      → contains deleted_paths p ≡ true
  origin_is_deleted p h =
      let ((o, n), c, e) = any_at (λ m. m.0 == p) (moves order old new) (rw contains-map at h) in
      let (a, b, x, y, z) = moves-contains o n c in
      ground (arith, contains-deleted_paths o, string_eq.beq_iff o p)

  -- The same hash in both manifests.
  abbrev pub unchanged : String → Bool
  unchanged p = elim (get old p) [
    | none ↦ false
    | some h ↦ elim (get new p) [ none ↦ false | some k ↦ h == k ]
  ]

  contains-changed :
      (p : String)
      → contains (keep (differs old new) (intersection (dedupe (keys old)) (dedupe (keys new)))) p
        ≡ ((has old p && has new p) && not (unchanged p))
  unfolding differs hash_at
  contains-changed p = ground (
    arith,
    contains-keep (differs old new) (intersection (dedupe (keys old)) (dedupe (keys new))) p,
    contains-intersection (dedupe (keys old)) (dedupe (keys new)) p,
    contains-dedupe (keys new) p,
    contains-dedupe (keys old) p,
    contains-keys new p,
    contains-keys old p,
  )

  contains-targets :
      (p : String)
      → contains (dedupe (targets (sorted (moves order old new)))) p
        ≡ contains (targets (moves order old new)) p
  contains-targets p =
      contains-dedupe (targets (sorted (moves order old new))) p
      ∙ contains-map-sorted (λ m. m.1) (moves order old new) p

  contains-origins :
      (p : String)
      → contains (dedupe (origins (sorted (moves order old new)))) p
        ≡ contains (origins (moves order old new)) p
  contains-origins p =
      contains-dedupe (origins (sorted (moves order old new))) p
      ∙ contains-map-sorted (λ m. m.0) (moves order old new) p

  contains_without :
      (xs : List String) (moved : List String) (p : String)
      → contains (dedupe (sorted (difference xs (dedupe moved)))) p
        ≡ (contains xs p && not (contains moved p))
  contains_without xs moved p =
      contains-dedupe (sorted (difference xs (dedupe moved))) p
      ∙ contains-sorted (difference xs (dedupe moved)) p
      ∙ contains-difference xs (dedupe moved) p
      ∙ ap (λ b. contains xs p && not b) (contains-dedupe moved p)

  abbrev diff : Delta
  diff = diff_manifests order (some old) new

  contains_changed :
      (p : String)
      → contains (dedupe diff.changed) p ≡ ((has old p && has new p) && not (unchanged p))
  unfolding diff_manifests
  contains_changed p =
      contains-dedupe _ p
      ∙ contains-sorted
          (keep (differs old new) (intersection (dedupe (keys old)) (dedupe (keys new)))) p
      ∙ contains-changed p

  contains-added_doc_ids :
      (p : String) → contains (added_doc_ids diff) p ≡ (has new p && not (unchanged p))
  unfolding added_doc_ids diff_manifests
  contains-added_doc_ids p = ground (
    arith,
    contains-union (union (dedupe diff.added) (dedupe diff.changed)) (dedupe (targets diff.moved))
        p,
    contains-union (dedupe diff.added) (dedupe diff.changed) p,
    contains_without added_paths (targets (moves order old new)) p,
    contains_changed p,
    contains-targets p,
    target_is_added p,
    contains-added_paths p,
  )

  contains-removed_doc_ids :
      (p : String) → contains (removed_doc_ids diff) p ≡ (has old p && not (unchanged p))
  unfolding removed_doc_ids diff_manifests
  contains-removed_doc_ids p = ground (
    arith,
    contains-union (union (dedupe diff.deleted) (dedupe diff.changed)) (dedupe (origins diff.moved))
        p,
    contains-union (dedupe diff.deleted) (dedupe diff.changed) p,
    contains_without deleted_paths (origins (moves order old new)) p,
    contains_changed p,
    contains-origins p,
    origin_is_deleted p,
    contains-deleted_paths p,
  )

  -- A document is unchanged when both manifests have it with the same hash. In any order of iteration,
  -- exactly the documents of the new manifest that are not unchanged are ingested again, and exactly
  -- those of the old one that are not unchanged are stripped.
  pub diff_manifests-classifies :
      (p : String)
      → (contains (added_doc_ids diff) p ≡ (has new p && not (unchanged p)))
        × (contains (removed_doc_ids diff) p ≡ (has old p && not (unchanged p)))
  diff_manifests-classifies p = (contains-added_doc_ids p, contains-removed_doc_ids p)

  -- A reported move leads from a document that only the old manifest has to one that only the new
  -- manifest has, and the two have one hash.
  pub diff_manifests-moved :
      (o n : String)
      → contains diff.moved (o, n) ≡ true
      → (has old o ≡ true)
        × (has new o ≡ false)
        × (has new n ≡ true)
        × (has old n ≡ false)
        × (get old o ≡ get new n)
  unfolding diff_manifests
  diff_manifests-moved o n h =
      let (a, b, x, y, z) =
        moves-contains o n (sym (contains-sorted (moves order old new) (o, n)) ∙ h) in
      (a, b, x, y, hash-get old new o n a x z)

-- ===== src/Tests/Changes.antt =====
-- A manifest in which a document moved, one changed, one went and one came.
use graphrag_aws_template.Prelude.{keep}
use graphrag_aws_template.Prelude.{◌≡◌, refl, string_eq, true, false, contains, [], ◌∷◌, some}
use graphrag_aws_template.Prelude.Dicts.{get}
use graphrag_aws_template.Delta.{Manifest, diff_manifests, added_doc_ids, removed_doc_ids}
use graphrag_aws_template.Delta.Classify
use graphrag_aws_template.Delta.Classify.{has}
use graphrag_aws_template.Tests.Fixtures.{as_listed}

abbrev before : Manifest
before = ("a.md", "h1") ∷ ("b.md", "h2") ∷ ("c.md", "h3") ∷ ("d.md", "h4") ∷ []

abbrev now : Manifest
now = ("a.md", "h1") ∷ ("b.md", "h5") ∷ ("e.md", "h3") ∷ ("f.md", "h6") ∷ []

diff_manifests-classifies_example :
    (contains (added_doc_ids (diff_manifests as_listed (some before) now)) "b.md" ≡ true)
    × (contains (removed_doc_ids (diff_manifests as_listed (some before) now)) "b.md" ≡ true)
unfolding get
diff_manifests-classifies_example = Classify.diff_manifests-classifies as_listed before now "b.md"

diff_manifests-moved_example :
    (has before "c.md" ≡ true)
    × (has now "c.md" ≡ false)
    × (has now "e.md" ≡ true)
    × (has before "e.md" ≡ false)
    × (some "h3" ≡ get now "e.md")
unfolding contains diff_manifests keep
diff_manifests-moved_example = Classify.diff_manifests-moved as_listed before now "c.md" "e.md" refl

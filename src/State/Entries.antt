-- ===== src/State/Entries.antt =====
-- What the writers and readers of the envelope do to one entry and to one dict.
use graphrag_aws_template.Prelude.{
  ◌≡◌, refl, String, false, Option, none, some, [], ◌∷◌, arith, ◌==◌, string_eq, if◌then◌else◌,
  contains, Distinct,
}
use graphrag_aws_template.Prelude.Dicts.{Dict, get, keys, contains-keys}
use graphrag_aws_template.Prelude.Sorting.{sorted, insert_sorted}
use graphrag_aws_template.Visibility.{get_or}
use graphrag_aws_template.Model.{str}
use graphrag_aws_template.State.{
  Stage, bronze, silver, gold, stage_value, stage_of, DocState, map_dict, item_order, opt_str,
  opt_value, read_entry, write_entry, read_docs,
}

stage_of-stage_value : (s : Stage) → stage_of (stage_value s) ≡ some s
unfolding stage_of stage_value
stage_of-stage_value bronze = refl
stage_of-stage_value silver = refl
stage_of-stage_value gold = refl

pub opt_str-opt_value : (o : Option String) → opt_str (some (opt_value o)) ≡ o
unfolding opt_str opt_value str
opt_str-opt_value none = refl
opt_str-opt_value (some s) = refl

read_entry-write_entry : (ds : DocState) → read_entry (write_entry ds) ≡ some ds
unfolding read_entry write_entry get_or get str
read_entry-write_entry ds = ground (
  arith,
  stage_of-stage_value ds.stage,
  opt_str-opt_value ds.silver_chunks,
  opt_str-opt_value ds.silver_candidates,
)

-- Reading the entries that were written gives them back.
pub read_docs-map_dict : (d : Dict String DocState) → read_docs (map_dict write_entry d) ≡ some d
unfolding read_docs map_dict
read_docs-map_dict [] = refl
read_docs-map_dict ((k, ds) ∷ d) = ground (arith, read_entry-write_entry ds, read_docs-map_dict d)

pub map_dict-id {ℓ κ} :
    {V : Type ℓ} {W : Type κ} (f : V → W) (g : W → V) (d : Dict String V)
    → ((v : V) → g (f v) ≡ v)
    → map_dict g (map_dict f d) ≡ d
unfolding map_dict
map_dict-id f g [] h = refl
map_dict-id f g ((k, v) ∷ d) h = ground (arith, h v, map_dict-id f g d h)

module _ {ℓ} {V : Type ℓ} where
  get-insert_sorted :
      (j : String) (v : V) (d : Dict String V) (k : String)
      → contains (keys d) j ≡ false
      → get (insert_sorted (j, v) d) k ≡ (if j == k then some v else get d k)
  unfolding insert_sorted get keys contains
  get-insert_sorted j v [] k h = refl
  get-insert_sorted j v ((i, w) ∷ d) k h = ground (
    arith,
    get-insert_sorted j v d k,
    string_eq.beq_iff i j,
    string_eq.beq_iff i k,
    string_eq.beq_iff j k,
  )

  -- Sorting the items of a dict keeps its lookups.
  pub get-sorted : (d : Dict String V) (k : String) → Distinct (keys d) → get (sorted d) k ≡ get d k
  unfolding sorted get keys
  get-sorted [] k h = refl
  get-sorted ((j, v) ∷ d) k h = ground (
    arith,
    get-insert_sorted j v (sorted d) k,
    get-sorted d k h.1,
    get-sorted d j h.1,
    contains-keys (sorted d) j,
    contains-keys d j,
  )

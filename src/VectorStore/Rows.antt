-- ===== src/VectorStore/Rows.antt =====
-- The rows of the vector store, under every operation that changes them.
use graphrag_aws_template.Prelude.{
  ◌≡◌, refl, ◌∙◌, ap, String, Bool, not, Option, none, some, List, [], ◌∷◌, arith, ◌==◌, string_eq,
  if◌then◌else◌, contains,
}
use graphrag_aws_template.Prelude.Sets.{dedupe, contains-dedupe}
use graphrag_aws_template.Prelude.Dicts.{get, remove, get-put, get-remove}
use graphrag_aws_template.Prelude.Dicts.Entries.{
  IsKeyedBy, put-IsKeyedBy, remove-IsKeyedBy, keep_values-IsKeyedBy, filter_some, get-keep_values,
}
use graphrag_aws_template.VectorStore.{
  Floats, EmbeddedChunk, Items, index_chunk, delete, doc_id, of_other, delete_by_doc,
}

pub filter_some-ext {ℓ} :
    {A : Type ℓ} (p q : A → Bool) (o : Option A)
    → ((a : A) → p a ≡ q a)
    → filter_some p o ≡ filter_some q o
filter_some-ext p q none h = refl
filter_some-ext p q (some a) h = ground (arith, h a)

module _ (F : Floats) where
  abbrev pub chunk_id : EmbeddedChunk F → String
  chunk_id ec = ec.chunk.id

  abbrev pub IsIndex : Items F → Type 0
  IsIndex items = IsKeyedBy chunk_id items

  get-delete :
      (ids : List String) (items : Items F) (id : String)
      → get (delete F items ids) id ≡ (if contains ids id then none else get items id)
  unfolding delete contains
  get-delete [] items id = refl
  get-delete (i ∷ ids) items id =
      ground (arith, get-delete ids (remove items i) id, get-remove items i id)

  delete-IsIndex :
      (ids : List String) (items : Items F) → IsIndex items → IsIndex (delete F items ids)
  unfolding delete
  delete-IsIndex [] items w = w
  delete-IsIndex (i ∷ ids) items w =
      delete-IsIndex ids (remove items i) (remove-IsKeyedBy chunk_id items i w)

  -- On a store that holds each chunk once, under its own id, every operation keeps it so.
  pub operations-IsIndex :
      (items : Items F)
      → IsIndex items
      → ((ec : EmbeddedChunk F) → IsIndex (index_chunk F items ec))
        × ((ids : List String) → IsIndex (delete F items ids))
        × ((doc_ids : List String) → IsIndex (delete_by_doc F items doc_ids))
  unfolding index_chunk delete_by_doc
  operations-IsIndex items w = (
    λ ec. put-IsKeyedBy chunk_id items ec.chunk.id ec refl w,
    λ ids. delete-IsIndex ids items w,
    λ doc_ids. keep_values-IsKeyedBy chunk_id (of_other F (dedupe doc_ids)) items w,
  )

  -- After an operation on a store that holds each chunk once: an indexed chunk is found under its id,
  -- the deleted ids and the chunks of the deleted documents are gone, and all else is as before.
  pub operations_lem :
      (items : Items F) (id : String)
      → IsIndex items
      → ((ec : EmbeddedChunk F)
          → get (index_chunk F items ec) id ≡ (if ec.chunk.id == id then some ec else get items id))
        × ((ids : List String)
            → get (delete F items ids) id ≡ (if contains ids id then none else get items id))
        × ((doc_ids : List String)
            → get (delete_by_doc F items doc_ids) id
              ≡ filter_some (λ ec. not (contains doc_ids (doc_id F ec.chunk))) (get items id))
  unfolding index_chunk delete_by_doc
  operations_lem items id w = (
    λ ec. get-put items ec.chunk.id id ec,
    λ ids. get-delete ids items id,
    λ doc_ids.
        get-keep_values (of_other F (dedupe doc_ids)) items id w.once
        ∙ filter_some-ext _ _ (get items id)
            (λ ec. unfold of_other in ap not (contains-dedupe doc_ids (doc_id F ec.chunk))),
  )

-- ===== src/Chunk/Windows.antt =====
-- chunk.py, `_split` and `chunk_corpus`: the windows against the text, and the chunks against the
-- documents.
use Prim.Native.String.append
use Prim.Native.Nat.{ℕ, zero, suc, ◌-◌, ◌≤◌, max}
use graphrag_aws_template.Prelude.{
  leb, ◌≡◌, refl, ◌∙◌, ap, String, ◌<>◌, Bool, true, not, ◌&&◌, Option, none, some, List, [], ◌∷◌,
  map, ◌==◌, string_eq, loop, loop_keeps, contains, contains-map-all, all, all-append, arith,
  Bool-cases, inl, inr, ◌⊎◌, All, leb→le,
}
use graphrag_aws_template.Prelude.Text.{strip, take_text, drop_text, text_length}
use graphrag_aws_template.Normalize.{Unicode}
use graphrag_aws_template.Chunk.{Chunk}
use graphrag_aws_template.Sources.{ParsedDoc, ParsedMarkdown, doc_id}
use graphrag_aws_template.Chunk.Corpus.{
  windows, split, Chunking, add_piece, add_section, add_markdown, add_doc, chunk_corpus, entity_ids,
  sections, prose_kinds,
}

-- the texts, one behind the other
abbrev pub concat : List String → String
concat [] = ""
concat (s ∷ ss) = s <> concat ss

take-take :
    (step size : ℕ) (s : String)
    → step ≤ size
    → take_text step (take_text size s) ≡ take_text step s
unfolding take_text
take-take zero size s h = refl
take-take (suc n) zero s h = absurd (omega arith)
take-take (suc n) (suc m) String.[] h = refl
take-take (suc n) (suc m) (String.◌∷◌ c s) h = ap (String.◌∷◌ c) (take-take n m s (omega arith))

take-drop : (n : ℕ) (s : String) → take_text n s <> drop_text n s ≡ s
unfolding take_text drop_text
take-drop zero s = append.nil s
take-drop (suc n) String.[] = append.nil ""
take-drop (suc n) (String.◌∷◌ c s) =
    append.cons c (take_text n s) (drop_text n s) ∙ ap (String.◌∷◌ c) (take-drop n s)

length-take_text-le : (n : ℕ) (s : String) → text_length (take_text n s) ≤ n
unfolding take_text text_length
length-take_text-le zero s = omega arith
length-take_text-le (suc n) String.[] = omega arith
length-take_text-le (suc n) (String.◌∷◌ c s) = omega (arith, length-take_text-le n s)

windows-concat :
    (size step : ℕ) (s : String) (skip : ℕ)
    → suc step ≤ size
    → concat (map (take_text (suc step)) (windows size (suc step) skip s)) ≡ drop_text skip s
unfolding windows drop_text
windows-concat size step String.[] zero h = refl
windows-concat size step String.[] (suc skip) h = refl
windows-concat size step (String.◌∷◌ c s) (suc skip) h = windows-concat size step s skip h
windows-concat size step (String.◌∷◌ c s) zero h =
    let e : suc step - 1 ≡ step = omega arith in
    rw e (
      ap (λ t. t <> concat (map (take_text (suc step)) (windows size (suc step) step s)))
        (take-take (suc step) size (String.◌∷◌ c s) h)
      ∙ ap (λ t. take_text (suc step) (String.◌∷◌ c s) <> t) (windows-concat size step s step h)
      ∙ take-drop (suc step) (String.◌∷◌ c s))

windows-lengths :
    (size step : ℕ) (s : String) (skip : ℕ)
    → All (λ w. text_length w ≤ size) (windows size step skip s)
unfolding windows
windows-lengths size step String.[] skip = tt
windows-lengths size step (String.◌∷◌ c s) zero =
    (length-take_text-le size (String.◌∷◌ c s), windows-lengths size step s (step - 1))
windows-lengths size step (String.◌∷◌ c s) (suc skip) = windows-lengths size step s skip

-- For a window size of at least one: no piece is longer than the size, and if there are several, the
-- first `max(1, size - overlap)` characters of each, one behind the other, are the text.
pub split-covers :
    (text : String) (size overlap : ℕ)
    → 1 ≤ size
    → All (λ w. text_length w ≤ size) (split text size overlap)
      × ((split text size overlap ≡ text ∷ [])
          ⊎ (concat (map (take_text (max 1 (size - overlap))) (split text size overlap)) ≡ text))
unfolding split
split-covers text size overlap h = elim (Bool-cases (leb (text_length text) size)) [
  | inl short ↦ rw short ((leb→le (text_length text) size short, tt), inl refl)
  | inr long ↦
      let step = max 1 (size - overlap) in
      let e : step ≡ suc (step - 1) = omega arith in
      rw long (
        windows-lengths size step text 0,
        inr (rw e (unfold drop_text in windows-concat size (step - 1) text 0 (omega arith))),
      )
]

module _ (U : Unicode) (chunk_size overlap : ℕ) where
  -- the chunk is of a document in the list
  abbrev pub is_of : List ParsedDoc → Chunk → Bool
  is_of docs chunk =
      contains (map doc_id docs) (chunk.source <> ("/" <> chunk.doc_path)) && not (chunk.text == "")

  add_piece-is_of :
      (docs : List ParsedDoc) (doc : ParsedDoc) (ids : List String) (heading : String)
      (x : Chunking) (piece : String)
      → contains (map doc_id docs) (doc_id doc) ≡ true
      → all (is_of docs) x.chunks ≡ true
      → all (is_of docs) (add_piece doc ids heading x piece).chunks ≡ true
  unfolding add_piece doc_id all
  add_piece-is_of docs doc ids heading x piece k h = elim (Bool-cases (strip piece == "")) [
    | inl blank ↦ rw blank h
    | inr filled ↦ rw filled (all-append (is_of docs) x.chunks _ ∙ ground arith)
  ]

  add_section-is_of :
      (docs : List ParsedDoc) (doc : ParsedDoc) (ids : List String) (x : Chunking)
      (section : String × String)
      → contains (map doc_id docs) (doc_id doc) ≡ true
      → all (is_of docs) x.chunks ≡ true
      → all (is_of docs) (add_section doc ids chunk_size overlap x section).chunks ≡ true
  unfolding add_section
  add_section-is_of docs doc ids x (heading, section) k h =
      loop_keeps (λ y. all (is_of docs) y.chunks ≡ true) (add_piece doc ids heading) x
        (split section chunk_size overlap)
        (λ y piece. add_piece-is_of docs doc ids heading y piece k) h

  add_markdown-is_of :
      (docs : List ParsedDoc) (doc : ParsedDoc) (md : Option ParsedMarkdown) (chunks : List Chunk)
      → contains (map doc_id docs) (doc_id doc) ≡ true
      → all (is_of docs) chunks ≡ true
      → all (is_of docs) (add_markdown U chunk_size overlap doc md chunks) ≡ true
  unfolding add_markdown
  add_markdown-is_of docs doc none chunks k h = h
  add_markdown-is_of docs doc (some md) chunks k h =
      elim (Bool-cases (contains prose_kinds doc.kind)) [
        | inl prose ↦ rw prose (
            loop_keeps (λ y. all (is_of docs) y.chunks ≡ true)
              (add_section doc (entity_ids U doc) chunk_size overlap)
              (record { ordinal = 0; chunks = chunks }) (sections md)
              (λ y section. add_section-is_of docs doc (entity_ids U doc) y section k) h)
        | inr graph ↦ rw graph h
      ]

  chunked-is_of :
      (docs rest : List ParsedDoc) (chunks : List Chunk)
      → all (λ doc. contains (map doc_id docs) (doc_id doc)) rest ≡ true
      → all (is_of docs) chunks ≡ true
      → all (is_of docs) (loop (add_doc U chunk_size overlap) chunks rest) ≡ true
  unfolding loop add_doc all
  chunked-is_of docs [] chunks k h = h
  chunked-is_of docs (doc ∷ rest) chunks k h =
      chunked-is_of docs rest (add_doc U chunk_size overlap chunks doc) (ground arith)
        (add_markdown-is_of docs doc doc.markdown chunks (ground arith) h)

  -- Every chunk of a corpus is of one of its documents, and has a text that is not empty.
  pub chunk_corpus-is_of :
      (docs : List ParsedDoc) → all (is_of docs) (chunk_corpus U chunk_size overlap docs) ≡ true
  unfolding chunk_corpus all
  chunk_corpus-is_of docs =
      chunked-is_of docs docs [] (contains-map-all doc_id docs docs (λ a k. k)) refl

-- ===== src/Chunk/Corpus.antt =====
-- chunk.py: the chunks of a corpus. A chunk's record is in Chunk.antt.
use Prim.Native.Nat.{ℕ, zero, suc, ◌+◌, ◌-◌, max}
use graphrag_aws_template.Prelude.{
  leb, String, ◌<>◌, Option, none, some, List, [], ◌∷◌, ◌++◌, ◌==◌, string_eq, loop, if◌then◌else◌,
  contains,
}
use graphrag_aws_template.Prelude.Dicts.{get}
use graphrag_aws_template.Prelude.Text.{
  is_space, same_code, strip, lstrip_by, starts_with, join, split_lines, take_text, text_length,
  decimal,
}
use graphrag_aws_template.Normalize.{Unicode, sig_id, kep_id}
use graphrag_aws_template.Visibility.{default_visibility}
use graphrag_aws_template.Model.{Value, null, text, other, str}
use graphrag_aws_template.Chunk.{Chunk}
use graphrag_aws_template.Sources.{ParsedDoc, ParsedMarkdown}

abbrev pub default_chunk_size : ℕ
default_chunk_size = 1000

abbrev pub default_overlap : ℕ
default_overlap = 150

abbrev pub prose_kinds : List String
prose_kinds = "sig_readme" ∷ "kep_readme" ∷ []

-- the ids of a value that is a text: `isinstance(value, str)`
unfoldable pub ids_of_text : (String → String) → Option Value → List String
ids_of_text id_of none = []
ids_of_text id_of (some null) = []
ids_of_text id_of (some (text s)) = id_of s ∷ []
ids_of_text id_of (some (other type_name shown)) = []

-- the ids of a value that is not `None`
unfoldable pub ids_of_object : (String → String) → Option Value → List String
unfolding str
ids_of_object id_of none = []
ids_of_object id_of (some null) = []
ids_of_object id_of (some v) = id_of (str v) ∷ []

module _ (U : Unicode) where
  -- `_entity_ids`
  unfoldable pub entity_ids : ParsedDoc → List String
  unfolding ids_of_text ids_of_object get sig_id kep_id
  entity_ids doc =
      if doc.kind == "sig_readme"
      then ids_of_text (sig_id U) (get doc.payload "slug")
      else if doc.kind == "kep_readme"
      then ids_of_object (kep_id U) (get doc.payload "dir_number")
        ++ ids_of_text (sig_id U) (get doc.payload "owning_sig_dir")
      else []

-- the variables of the loop of `_sections`
pub record Sectioning : Type 0 where
  pub heading : String
  pub buf : List String
  pub out : List (String × String)

-- out.append((heading, text)), unless the text is empty
unfoldable pub close_section : Sectioning → List (String × String)
unfolding join strip
close_section x =
    let section = strip (join "\n" x.buf) in
    if section == "" then x.out else x.out ++ (x.heading, section) ∷ []

-- one round of the loop
unfoldable pub read_line : Sectioning → String → Sectioning
unfolding close_section lstrip_by is_space starts_with strip
read_line x line =
    if starts_with (lstrip_by is_space line) "#"
    then record {
      heading = strip (lstrip_by (same_code 35) (strip line));
      buf = [];
      out = close_section x;
    }
    else record x { buf = x.buf ++ line ∷ [] }

unfoldable pub sections : ParsedMarkdown → List (String × String)
unfolding close_section read_line split_lines loop
sections md =
    close_section
      (loop read_line (record { heading = ""; buf = []; out = [] }) (split_lines md.body))

-- [text[i : i + size] for i in range(0, len(text), step)], where the next `i` is `skip` characters on
unfoldable pub windows : ℕ → ℕ → ℕ → String → List String
unfolding take_text
windows size step skip String.[] = []
windows size step zero (String.◌∷◌ c s) =
    take_text size (String.◌∷◌ c s) ∷ windows size step (step - 1) s
windows size step (suc skip) (String.◌∷◌ c s) = windows size step skip s

-- `_split`
unfoldable pub split : String → ℕ → ℕ → List String
unfolding windows text_length
split section size overlap =
    if leb (text_length section) size
    then section ∷ []
    else windows size (max 1 (size - overlap)) 0 section

-- the variables of the two inner loops of `chunk_corpus`
pub record Chunking : Type 0 where
  pub ordinal : ℕ
  pub chunks : List Chunk

-- a round of the inner loop
unfoldable pub add_piece : ParsedDoc → List String → String → Chunking → String → Chunking
unfolding strip decimal default_visibility
add_piece doc ids heading x piece =
    let body = strip piece in
    if body == "" then x else record {
      ordinal = x.ordinal + 1;
      chunks =
          x.chunks
          ++ record {
            id = doc.source <> ("/" <> (doc.path <> ("#" <> decimal x.ordinal)));
            text = body;
            source = doc.source;
            doc_path = doc.path;
            heading = heading;
            entity_ids = ids;
            visibility = default_visibility;
          }
            ∷ [];
    }

unfoldable pub add_section : ParsedDoc → List String → ℕ → ℕ → Chunking → String × String → Chunking
unfolding add_piece split loop
add_section doc ids size overlap x (heading, section) =
    loop (add_piece doc ids heading) x (split section size overlap)

module _ (U : Unicode) (chunk_size overlap : ℕ) where
  -- the chunks of a document behind those before it
  unfoldable pub add_markdown : ParsedDoc → Option ParsedMarkdown → List Chunk → List Chunk
  unfolding add_section sections entity_ids loop contains
  add_markdown doc none chunks = chunks
  add_markdown doc (some md) chunks =
      let x =
        loop (add_section doc (entity_ids U doc) chunk_size overlap)
          (record { ordinal = 0; chunks = chunks }) (sections md) in
      if contains prose_kinds doc.kind then x.chunks else chunks

  -- a round of the outer loop
  unfoldable pub add_doc : List Chunk → ParsedDoc → List Chunk
  unfolding add_markdown
  add_doc chunks doc = add_markdown doc doc.markdown chunks

  unfoldable pub chunk_corpus : List ParsedDoc → List Chunk
  unfolding add_doc loop
  chunk_corpus docs = loop add_doc [] docs

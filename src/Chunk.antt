-- ===== src/Chunk.antt =====
-- packages/graphrag/src/graphrag/chunk.py: the chunk of a prose document.
pub mod Corpus
pub mod Windows
use graphrag_aws_template.Prelude.{String, List}

pub record Chunk : Type 0 where
  pub id : String
  pub text : String
  pub source : String
  pub doc_path : String
  pub heading : String
  pub entity_ids : List String
  pub visibility : String

-- ===== src/Sources.antt =====
-- packages/graphrag/src/graphrag/sources.py: a parsed document. Reading the corpora is not modelled.
use graphrag_aws_template.Prelude.{String, ◌<>◌, Option}
use graphrag_aws_template.Model.{Props}

-- parse.py, of which only the body is read
pub record ParsedMarkdown : Type 0 where
  pub body : String

pub record ParsedDoc : Type 0 where
  pub source : String
  pub path : String
  pub kind : String
  pub payload : Props
  pub markdown : Option ParsedMarkdown

-- the property `ParsedDoc.doc_id`
unfoldable pub doc_id : ParsedDoc → String
doc_id doc = doc.source <> ("/" <> doc.path)

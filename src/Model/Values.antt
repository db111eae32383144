-- ===== src/Model/Values.antt =====
-- The values of a props dict (`object` in the source): `None`, a text, or any other object, of which
-- the program reads only equality and its text under `str`.
use graphrag_aws_template.Prelude.{
  String, Bool, true, false, ◌&&◌, ◌≡◌, ◌↔◌, arith, Eq, ◌==◌, string_eq,
}
use graphrag_aws_template.Prelude.Dicts.{Dict}

pub data Value : Type 0 where
  null : Value
  text : String → Value
  -- the type's name, and the text
  other : String → String → Value

abbrev pub Props : Type 0
Props = Dict String Value

-- str(value)
unfoldable pub str : Value → String
str null = "None"
str (text s) = s
str (other type_name s) = s

abbrev pub value_beq : Value → Value → Bool
value_beq null null = true
value_beq (text s) (text t) = s == t
value_beq (other a s) (other b t) = (a == b) && (s == t)
value_beq _ _ = false

pub value_beq_iff : (v w : Value) → (value_beq v w ≡ true) ↔ (v ≡ w)
value_beq_iff null null = ground arith
value_beq_iff (text s) (text t) = ground (arith, string_eq.beq_iff s t)
value_beq_iff (other a s) (other b t) = ground (arith, string_eq.beq_iff a b, string_eq.beq_iff s t)
value_beq_iff _ _ = ground arith

instance abbrev pub value_eq : Eq Value
value_eq = record { beq = value_beq; beq_iff = value_beq_iff }

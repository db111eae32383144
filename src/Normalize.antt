-- ===== src/Normalize.antt =====
-- packages/graphrag/src/graphrag/normalize.py: the ids that names are normalised to. Python's tables
-- of characters are a parameter, `Unicode`: `str.lower`, `str.isdigit`, and `str(int(s))`, or `none` for
-- its `ValueError`. The parameter assumes that `int` reads what `str.isdigit` accepts, which is so of
-- decimal digits, and not of superscripts and the like, at which `kep_id` raises.
use Prim.Native.Char.{code}
use graphrag_aws_template.Prelude.{
  ℕ, String, ◌<>◌, Bool, false, not, ◌&&◌, ◌||◌, ◌≡◌, true, Option, is_some, leb, none, some,
  string_eq, if◌then◌else◌,
}
use graphrag_aws_template.Prelude.Dicts.{Dict, get}
use graphrag_aws_template.Prelude.Text.{
  same_code, strip, strip_by, lstrip_by, starts_with, drop_text,
}

pub record Unicode : Type 0 where
  pub lower : String → String
  pub is_digit : String → Bool
  pub int_text : String → Option String
  pub int_text_some : (s : String) → is_digit s ≡ true → is_some (int_text s) ≡ true

abbrev at_sign : ℕ → Bool
at_sign c = same_code c 64

abbrev pub hyphen : ℕ → Bool
hyphen c = same_code c 45

-- [a-z0-9]
unfoldable pub is_alnum : ℕ → Bool
is_alnum c = (leb 97 c && leb c 122) || (leb 48 c && leb c 57)

-- `_SLUG_NON_ALNUM.sub("-", s)`: each run of other characters becomes one hyphen
unfoldable pub hyphenate : Bool → String → String
unfolding is_alnum
hyphenate in_run String.[] = ""
hyphenate in_run (String.◌∷◌ c s) =
    let alnum = is_alnum (code c) in
    let rest = hyphenate (not alnum) s in
    if alnum then String.◌∷◌ c rest else if in_run then rest else "-" <> rest

module _ (U : Unicode) where
  open U use {lower, is_digit, int_text}

  -- no alias table is the empty one
  unfoldable pub normalize_handle : String → Dict String String → String
  unfolding strip lstrip_by get
  normalize_handle raw aliases =
      let stripped = strip raw in
      elim (get aliases (lower stripped)) [
        | some alias_hit ↦ lower (lstrip_by at_sign alias_hit)
        | none ↦ lower (strip (lstrip_by at_sign stripped))
      ]

  unfoldable pub normalize_slug : String → String
  unfolding strip strip_by hyphenate starts_with
  normalize_slug raw =
      let s = strip_by hyphen (hyphenate false (lower (strip raw))) in
      if starts_with s "sig-" then s else "sig-" <> s

  -- from `str(number)`
  unfoldable pub kep_id : String → String
  unfolding strip starts_with drop_text
  kep_id number =
      let stripped = strip number in
      let raw = if starts_with (lower stripped) "kep-" then drop_text 4 stripped else stripped in
      let canonical : String = elim (int_text raw) [ none ↦ raw | some digits ↦ digits ] in
      "kep-" <> (if is_digit raw then canonical else raw)

  unfoldable pub person_id : String → Dict String String → String
  unfolding normalize_handle
  person_id handle_or_name aliases = "person:" <> normalize_handle handle_or_name aliases

  unfoldable pub sig_id : String → String
  unfolding normalize_slug
  sig_id name_or_slug = "sig:" <> normalize_slug name_or_slug

  unfoldable pub subproject_id : String → String → String
  unfolding normalize_slug strip strip_by hyphenate
  subproject_id sig_slug name =
      "subproject:"
      <> (normalize_slug sig_slug
          <> ("/" <> strip_by hyphen (hyphenate false (lower (strip name)))))

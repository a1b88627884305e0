-- ===== src/Util/Print.antt =====
-- util/komutil.go: `PrettyPrint`. `json` and `fmt` are parameters.
use kom_operator.Prelude.{String, ◌≡◌, ap, ◌∙◌, false}
use kom_operator.Errors.{Result, ok, err}
use kom_operator.Text.{contains}

pub record Formats (A : Type 0) : Type 0 where
  -- `json.MarshalIndent`
  pub marshal_indent : A → Result String
  -- `fmt.Sprintf` of a format without operands
  pub sprintf : String → String

abbrev or_nothing : Result String → String
or_nothing (ok text) = text
or_nothing (err e) = ""

-- `PrettyPrint`: an error leaves an empty text, and the text is the format.
pub pretty_print : {A : Type 0} → Formats A → A → String
pretty_print f value = f.sprintf (or_nothing (f.marshal_indent value))

-- A value whose text has no percent sign is printed as this text, if a format without one gives
-- itself.
pretty_print_lem :
    {A : Type 0} (f : Formats A) (value : A) (text : String)
    → ((format : String) → contains format "%" ≡ false → f.sprintf format ≡ format)
    → f.marshal_indent value ≡ ok text
    → contains text "%" ≡ false
    → pretty_print f value ≡ text
unfolding pretty_print
pretty_print_lem f value text plain e h = ap (λ r. f.sprintf (or_nothing r)) e ∙ plain text h

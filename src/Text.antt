-- ===== src/Text.antt =====
-- The functions of Go's `strings` that the operator calls, over texts of characters. UTF-8 is
-- self-synchronising, so a comparison by characters agrees with Go's comparison by bytes.
pub mod Contains
pub mod Underscores
use Prim.Native.Char.{code}
use Prim.Native.String.{[], ◌∷◌}
use text.Mathlib.Text.{◌==◌ as str_eq}
use kom_operator.Prelude.{String, Bool, true, false, ◌&&◌, ◌||◌, ◌≡◌, refl, eqb}

-- `strings.HasPrefix(s, t)`
unfoldable pub has_prefix : String → String → Bool
has_prefix s [] = true
has_prefix [] (d ∷ t) = false
has_prefix (c ∷ s) (d ∷ t) = eqb (code c) (code d) && has_prefix s t

-- `strings.Contains(s, t)`
unfoldable pub contains : String → String → Bool
unfolding has_prefix
contains [] t = has_prefix [] t
contains (c ∷ s) t = has_prefix (c ∷ s) t || contains s t

-- `strings.HasSuffix(s, t)`
unfoldable pub has_suffix : String → String → Bool
has_suffix [] t = str_eq [] t
has_suffix (c ∷ s) t = str_eq (c ∷ s) t || has_suffix s t

contains_middle : contains "web_default_80" "default" ≡ true
unfolding contains
contains_middle = refl

contains_not : contains "web_default_80" "prod" ≡ false
unfolding contains
contains_not = refl

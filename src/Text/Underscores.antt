-- ===== src/Text/Underscores.antt =====
-- Texts by their underscores: where the first one stands is read off the text.
use Prim.Native.Nat.{ℕ, ◌+◌}
use Prim.Native.Char.{code, Char}
use Prim.Native.String.{[], ◌∷◌, ◌++◌}
use text.Mathlib.TextLemmas.{
  nil-append, cons-append, head-eq_of_cons-eq, tail-eq_of_cons-eq, append_cancel_left,
}
use kom_operator.Prelude.{String, ◌≡◌, ◌≢◌, refl, ap, sym, ◌∙◌, arith, eqb, if◌then◌else◌}

unfoldable pub underscores : String → ℕ
underscores [] = 0
underscores (c ∷ s) = (if eqb (code c) b'_' then 1 else 0) + underscores s

pub underscores-append : (s t : String) → underscores (s ++ t) ≡ underscores s + underscores t
unfolding underscores
underscores-append [] t = rw nil-append (omega arith)
underscores-append (c ∷ s) t = rw cons-append (omega (arith, underscores-append s t))

pub underscores_one : underscores "_" ≡ 1
unfolding underscores
underscores_one = refl

abbrev bar : Char
bar = "_"

bar-append : (s : String) → "_" ++ s ≡ bar ∷ s
bar-append s = cons-append bar [] s ∙ ap (◌∷◌ bar) (nil-append s)

first_char : (d : Char) (b s t : String) → "_" ++ s ≡ (d ∷ b) ++ t → bar ≡ d
first_char d b s t e = head-eq_of_cons-eq (sym (bar-append s) ∙ (e ∙ cons-append d b t))

bar_counts : (d : Char) (b : String) → bar ≡ d → underscores (d ∷ b) ≢ 0
unfolding underscores
bar_counts d b e h = let same = ap code e in ground (arith, same)

tail_free : (c : Char) (a : String) → underscores (c ∷ a) ≡ 0 → underscores a ≡ 0
unfolding underscores
tail_free c a h = omega arith

-- Texts without underscores are told apart from what follows the first underscore.
pub split_at_underscore :
    (a b s t : String)
    → underscores a ≡ 0
    → underscores b ≡ 0
    → a ++ ("_" ++ s) ≡ b ++ ("_" ++ t)
    → (a ≡ b) × (s ≡ t)
split_at_underscore [] [] s t p q e =
    (refl, append_cancel_left "_" s t (sym (nil-append ("_" ++ s)) ∙ (e ∙ nil-append ("_" ++ t))))
split_at_underscore [] (d ∷ b) s t p q e =
    absurd (bar_counts d b (first_char d b s ("_" ++ t) (sym (nil-append ("_" ++ s)) ∙ e)) q)
split_at_underscore (c ∷ a) [] s t p q e =
    absurd (bar_counts c a (first_char c a t ("_" ++ s) (sym (nil-append ("_" ++ t)) ∙ sym e)) p)
split_at_underscore (c ∷ a) (d ∷ b) s t p q e =
    let e' = sym (cons-append c a ("_" ++ s)) ∙ (e ∙ cons-append d b ("_" ++ t)) in
    let (eq_a, eq_s) =
      split_at_underscore a b s t (tail_free c a p) (tail_free d b q) (tail-eq_of_cons-eq e') in
    (λ i. head-eq_of_cons-eq e' i ∷ eq_a i, eq_s)

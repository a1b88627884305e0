-- ===== src/Util/Slices.antt =====
-- `ContainsString` and `RemoveString` (util/komutil.go) together.
use text.Mathlib.Text.{◌==◌ as str_eq}
use mathlib.Core.List.{append_assoc, append-nil}
use kom_operator.Prelude.{
  String, ◌≡◌, ◌∙◌, sym, false, ◌||◌, none, List, [], ◌∷◌, ◌++◌, Slice, items, append, arith,
  eq_iff, if◌then◌else◌, inl, inr, Bool-cases,
}
use kom_operator.Util.{has_item, contains_string, keep_others, remove_string}

-- The items that differ from `s`, in their order.
pub without : List String → String → List String
without [] s = []
without (x ∷ xs) s = let rest = without xs s in if str_eq x s then rest else x ∷ rest

items-keep_others :
    (xs : List String) (s : String) (result : Slice String)
    → items (keep_others xs s result) ≡ items result ++ without xs s
unfolding keep_others without
items-keep_others [] s result = sym (append-nil (items result))
items-keep_others (x ∷ xs) s result = elim (Bool-cases (str_eq x s)) [
  | inl same ↦ rw same (items-keep_others xs s result)
  | inr other ↦ rw other (
      items-keep_others xs s (append result x)
      ∙ append_assoc (items result) (x ∷ []) (without xs s))
]

pub items-remove_string :
    (xs : Slice String) (s : String) → items (remove_string xs s) ≡ without (items xs) s
unfolding remove_string
items-remove_string xs s = items-keep_others (items xs) s none

has_item-without :
    (xs : List String) (s t : String)
    → has_item (without xs s) t ≡ (if str_eq s t then false else has_item xs t)
unfolding has_item without
has_item-without [] s t = ground arith
has_item-without (x ∷ xs) s t =
    ground (arith, eq_iff x s, eq_iff x t, eq_iff s t, has_item-without xs s t)

-- After `RemoveString` the text is gone, and `ContainsString` answers for every other text as
-- before.
pub contains_string-remove_string :
    (xs : Slice String) (s t : String)
    → contains_string (remove_string xs s) t ≡ (if str_eq s t then false else contains_string xs t)
unfolding contains_string
contains_string-remove_string xs s t = rw items-remove_string (has_item-without (items xs) s t)

has_item-append :
    (xs : List String) (s t : String) → has_item (xs ++ s ∷ []) t ≡ (has_item xs t || str_eq s t)
unfolding has_item
has_item-append [] s t = ground arith
has_item-append (x ∷ xs) s t = ground (arith, has_item-append xs s t)

-- After `append` the text is there, and every other text as before.
pub contains_string-append :
    (xs : Slice String) (s t : String)
    → contains_string (append xs s) t ≡ (contains_string xs t || str_eq s t)
unfolding contains_string
contains_string-append xs s t = has_item-append (items xs) s t

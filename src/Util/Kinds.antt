-- ===== src/Util/Kinds.antt =====
-- util/k8sutil.go: the kinds that a scheme knows of its own.
use mathlib.Core.Logic.Or
use kom_operator.Prelude.{String, not, List, [], ◌∷◌, ◌++◌, if◌then◌else◌}
use kom_operator.Errors.{Result, ok, err}
use kom_operator.Util.{is_kube_meta_kind}

pub record GroupVersionKind : Type 0 where
  pub group : String
  pub version : String
  pub kind : String

-- The loop over the known types, which appends.
keep_own : List GroupVersionKind → List GroupVersionKind → List GroupVersionKind
keep_own [] own = own
keep_own (gvk ∷ rest) own =
    keep_own rest (if not (is_kube_meta_kind gvk.kind) then own ++ gvk ∷ [] else own)

-- `GetGVKsFromAddToScheme`, from the keys of the types that a new scheme knows after the given
-- function, or that function's error.
unfoldable pub get_gvks_from_add_to_scheme :
    Result (List GroupVersionKind) → Result (List GroupVersionKind)
unfolding keep_own
get_gvks_from_add_to_scheme (err e) = err e
get_gvks_from_add_to_scheme (ok known) = ok (keep_own known [])

own_kinds : List GroupVersionKind → List GroupVersionKind
own_kinds [] = []
own_kinds (gvk ∷ rest) =
    let kept = own_kinds rest in if is_kube_meta_kind gvk.kind then kept else gvk ∷ kept

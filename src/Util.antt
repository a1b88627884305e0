-- ===== src/Util.antt =====
-- util/komutil.go and util/k8sutil.go: helpers on slices of texts, the comparison of routings, and
-- kinds of the API. `Env` has what reads the process environment.
pub mod Env
pub mod Kinds
pub mod Files
pub mod Print
pub mod Slices
pub mod Equality
use text.Mathlib.Text.{◌==◌ as str_eq}
use kom_operator.Prelude.{
  String, Bool, true, false, ◌&&◌, ◌||◌, not, Option, none, some, List, [], ◌∷◌, Slice, items,
  append, length, Eq, ◌==◌, eqb, if◌then◌else◌, ◌≡◌, refl,
}
use kom_operator.Text.{has_suffix}
use kom_operator.Kube.{port_eq}
use kom_operator.Api.{Http, Routing}

has_item : List String → String → Bool
has_item [] s = false
has_item (item ∷ rest) s = if str_eq item s then true else has_item rest s

-- `ContainsString`
unfoldable pub contains_string : Slice String → String → Bool
unfolding has_item
contains_string slice s = has_item (items slice) s

keep_others : List String → String → Slice String → Slice String
keep_others [] s result = result
keep_others (item ∷ rest) s result =
    keep_others rest s (if str_eq item s then result else append result item)

-- `RemoveString`: the result is nil until an item is appended.
unfoldable pub remove_string : Slice String → String → Slice String
unfolding keep_others
remove_string slice s = keep_others (items slice) s none

-- The inner loop of `Equals`, which does not stop at the first match.
find_route : Http → List Http → Bool → Bool
find_route k [] found = found
find_route k (v ∷ rest) found =
    find_route k rest (if str_eq v.rule k.rule && v.port == k.port then true else found)

all_found : List Http → List Http → Bool
all_found [] b = true
all_found (k ∷ rest) b = if not (find_route k b false) then false else all_found rest b

-- `Equals`: its two parameters are copies, so that `&a == &b` never holds.
unfoldable pub equals : Routing → Routing → Bool
unfolding find_route all_found
equals a b =
    if not (eqb (length (items a.http)) (length (items b.http)))
    then false
    else all_found (items a.http) (items b.http)

-- `isKubeMetaKind`
unfoldable pub is_kube_meta_kind : String → Bool
unfolding has_suffix
is_kube_meta_kind kind =
    has_suffix kind "List"
    || str_eq kind "PatchOptions"
    || str_eq kind "GetOptions"
    || str_eq kind "DeleteOptions"
    || str_eq kind "ExportOptions"
    || str_eq kind "APIVersions"
    || str_eq kind "APIGroupList"
    || str_eq kind "APIResourceList"
    || str_eq kind "UpdateOptions"
    || str_eq kind "CreateOptions"
    || str_eq kind "Status"
    || str_eq kind "WatchEvent"
    || str_eq kind "ListOptions"
    || str_eq kind "APIGroup"

-- A group version with the kinds of its resources, as the discovery client lists them.
pub record ApiList : Type 0 where
  pub group_version : String
  pub kinds : List String

lists_kind : List ApiList → String → String → Bool
unfolding has_item
lists_kind [] api_group_version kind = false
lists_kind (l ∷ rest) api_group_version kind =
    if str_eq l.group_version api_group_version && has_item l.kinds kind
    then true
    else lists_kind rest api_group_version kind

-- `ResourceExists`; the answer of the discovery client is `none` where it is an error.
pub resource_exists : Option (List ApiList) → String → String → Option Bool
resource_exists none api_group_version kind = none
resource_exists (some lists) api_group_version kind = some (lists_kind lists api_group_version kind)

removes_all : remove_string (some ("a" ∷ "b" ∷ "a" ∷ [])) "a" ≡ some ("b" ∷ [])
unfolding remove_string
removes_all = refl

removes_last : remove_string (some ("a" ∷ [])) "a" ≡ none
unfolding remove_string
removes_last = refl

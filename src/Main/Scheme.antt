-- ===== src/Main/Scheme.antt =====
-- The scheme that the process starts with: `init` of cmd/main.go, api/v1alpha1/groupversion_info.go,
-- and `init` of api/v1alpha1/microservice_types.go. Schemes and their builder are parameters.
use kom_operator.Prelude.{String, ◌≡◌, refl, List, [], ◌∷◌, ◌++◌}
use kom_operator.Errors.{Error, Result, ok, err}
use kom_operator.Exec.{Outcome, returns, panics}

pub record GroupVersion : Type 0 where
  pub group : String
  pub version : String

-- `scheme.Builder`: what `Register` has collected, by the names of the Go types.
pub record Builder : Type 0 where
  pub group_version : GroupVersion
  pub objects : List String

-- Schemes, whose functions give an error or change the scheme.
pub record Schemes : Type 1 where
  pub Scheme : Type 0
  pub new_scheme : Scheme
  -- `AddToScheme` of client-go, and of a builder.
  pub client_go : Scheme → Result Scheme
  pub add_to_scheme : Builder → Scheme → Result Scheme
  pub error_text : Error → String

abbrev pub group_version : GroupVersion
group_version = record { group = "kom.kaiso.github.io"; version = "v1alpha1" }

abbrev pub new_builder : Builder
new_builder = record { group_version = group_version; objects = [] }

-- `Register`
abbrev pub register : Builder → List String → Builder
register builder objects = record builder { objects = builder.objects ++ objects }

-- The builder after the `init` of the package of the types.
abbrev pub scheme_builder : Builder
scheme_builder = register new_builder ("Microservice" ∷ "MicroserviceList" ∷ [])

module _ (k : Schemes) where
  -- `utilruntime.Must`
  abbrev pub must_scheme : Result k.Scheme → (k.Scheme → Outcome k.Scheme) → Outcome k.Scheme
  must_scheme (err e) next = panics (k.error_text e)
  must_scheme (ok s) next = next s

  -- `init` of the process
  unfoldable pub init_scheme : Outcome k.Scheme
  init_scheme =
      must_scheme (k.client_go k.new_scheme)
        λ s. must_scheme (k.add_to_scheme scheme_builder s) λ t. returns t

  -- With both additions the process starts with the scheme that the second one leaves.
  init_scheme_lem :
      (s t : k.Scheme)
      → k.client_go k.new_scheme ≡ ok s
      → k.add_to_scheme scheme_builder s ≡ ok t
      → init_scheme ≡ returns t
  unfolding init_scheme
  init_scheme_lem s t first second = rw (first, second) refl

-- ===== src/Tests/HelperWitnesses.antt =====
-- The kinds of a scheme, for three of them.

use kom_operator.Prelude.{String, List, [], ◌∷◌}
use kom_operator.Util.Kinds.{GroupVersionKind}

abbrev kom : String → GroupVersionKind
kom kind = record { group = "kom.kaiso.github.io"; version = "v1alpha1"; kind = kind }

abbrev known : List GroupVersionKind
known = kom "Microservice" ∷ kom "MicroserviceList" ∷ kom "ListOptions" ∷ []

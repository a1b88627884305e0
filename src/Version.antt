-- ===== src/Version.antt =====
-- version/version.go
use kom_operator.Prelude.{String}
use Prim.Native.String.{◌++◌}
use kom_operator.Kube.{Labels}
use kom_operator.Prelude.{[], ◌∷◌}

abbrev pub version : String
version = "2.2.0"

-- The annotations that the operator puts on what it creates.
abbrev pub creator : Labels
creator = ("creator", "kom-operator.kaiso.github.io/" ++ version) ∷ []

-- ===== src/Traefik/ProviderTypes.antt =====
-- process/traefik_config_types.go: the providers that Traefik reads its dynamic configuration from.
use kom_operator.Prelude.{String, Bool, false, Option, none, List, []}
use kom_operator.Dict.{Dict}

pub record KubernetesCrdProvider : Type 0 where
  pub endpoint : String
  pub token : String
  pub cert_auth_file_path : String
  pub namespaces : List String
  pub allow_cross_namespace : Bool
  pub allow_external_name_services : Bool
  pub label_selector : String
  pub ingress_class : String

pub record EndpointIngress : Type 0 where
  pub ip : String
  pub hostname : String
  pub published_service : String

pub record KubernetesIngressProvider : Type 0 where
  pub endpoint : String
  pub token : String
  pub cert_auth_file_path : String
  pub namespaces : List String
  pub label_selector : String
  pub ingress_class : String
  pub ingress_endpoint : Option EndpointIngress
  pub allow_empty_services : Bool
  pub allow_external_name_services : Bool

-- The values of the `interface{}` map that the source writes.
pub data Setting : Type 0 where
  switch : Bool → Setting
  text : String → Setting

pub record Providers : Type 0 where
  pub providers_throttle_duration : String
  pub file : Dict Setting
  pub kubernetes_ingress : KubernetesIngressProvider
  pub kubernetes_crd : KubernetesCrdProvider

-- The zero values, which a Go literal gives to the fields that it leaves out.
abbrev pub empty_crd_provider : KubernetesCrdProvider
empty_crd_provider = record {
  endpoint = "";
  token = "";
  cert_auth_file_path = "";
  namespaces = [];
  allow_cross_namespace = false;
  allow_external_name_services = false;
  label_selector = "";
  ingress_class = "";
}

abbrev pub empty_ingress_provider : KubernetesIngressProvider
empty_ingress_provider = record {
  endpoint = "";
  token = "";
  cert_auth_file_path = "";
  namespaces = [];
  label_selector = "";
  ingress_class = "";
  ingress_endpoint = none;
  allow_empty_services = false;
  allow_external_name_services = false;
}

-- ===== src/Api/Kube.antt =====
-- The types of the Kubernetes API that the custom resources hold. What the operator passes on
-- unread is kept as its JSON value; a `map[string]string` is a list of pairs.
use kea_dhcp_operator.Base.{String, Option}
use kea_dhcp_operator.Base.Int.{ℤ}
use kea_dhcp_operator.Json.{Json}

pub record ObjectMeta : Type 0 where
  pub name : String
  pub namespace : String
  pub generation : ℤ

pub record LocalObjectReference : Type 0 where
  pub name : String

pub record SecretKeySelector : Type 0 where
  pub name : String
  pub key : String

-- Where an environment variable has its value from.
pub data EnvSource : Type 0 where
  literal : String → EnvSource
  secret_key_ref : SecretKeySelector → EnvSource
  field_ref : String → EnvSource

pub record EnvVar : Type 0 where
  pub name : String
  pub source : EnvSource

pub record Affinity : Type 0 where
  pub node_affinity : Option Json
  pub pod_affinity : Option Json
  pub pod_anti_affinity : Option Json

-- apiextensionsv1.JSON: `Raw` may be nil.
pub record RawJson : Type 0 where
  pub raw : Option String

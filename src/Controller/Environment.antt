-- ===== src/Controller/Environment.antt =====
-- What the reconcilers of the components are given: the client, the platform, and the code of other
-- packages that they call. `print` is json.MarshalIndent, `unmarshal` the reading of raw JSON, and
-- `compute_hash` is `ComputeHash` of internal/kea/config.go over crypto/sha256.
use kea_dhcp_operator.Base.{String, Bool, Option, List, Result}
use kea_dhcp_operator.Json.{Json}
use kea_dhcp_operator.Api.Stork.{KeaStorkServer}
use kea_dhcp_operator.Controller.Client.{Fetched}
use kea_dhcp_operator.Controller.Objects.{Client}

pub record Environment (Objects : Type 0) : Type 0 where
  pub client : Client Objects
  pub is_open_shift : Bool
  pub unmarshal : String → Option Json
  pub print : Json → Result String
  pub compute_hash : String → String
  pub get_stork : String → String → Fetched KeaStorkServer
  pub list_storks : String → Option (List KeaStorkServer)

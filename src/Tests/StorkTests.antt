-- ===== src/Tests/StorkTests.antt =====
-- Witnesses of the reconciliation of a Stork server.
use kea_dhcp_operator.Controller.Steps.{State}
use kea_dhcp_operator.Json.{Json}
use kea_dhcp_operator.Api.Stork.{KeaStorkServer, KeaStorkServerStatus}
use kea_dhcp_operator.Controller.StorkServer.Kept.{get-reconcile_stork_request}
use kea_dhcp_operator.Controller.StorkServer.{secret_key, reconcile_stork_request}
use kea_dhcp_operator.Tests.Cluster.{Objects, only, cluster, cluster-TakesEffect}
use kea_dhcp_operator.Tests.Specs.{stork_server}
use kea_dhcp_operator.Resources.StorkServer.{build_stork_server_admin_secret}
use kea_dhcp_operator.Controller.Objects.{secret, Resource}
use kea_dhcp_operator.Controller.Client.{found, not_found, OwnerApi, Fetched}
use kea_dhcp_operator.Base.{String, [], ok, true, refl, ◌≡◌}

abbrev admin_secret : Resource
admin_secret = secret (build_stork_server_admin_secret "net" "stork-stork-admin" [] "hunter2!A")

-- A cluster with a Secret of every name.
abbrev with_secrets : State Objects KeaStorkServer
with_secrets = record { objects = λ k. found admin_secret; owners = stork_server }

abbrev storks : OwnerApi KeaStorkServer KeaStorkServer KeaStorkServerStatus
storks = only (λ server status. record server { status = status })

abbrev no_route : String → String → Objects → Fetched Json
no_route ns name s = not_found

kept_secret_example :
    cluster.get
      (secret_key "net" "stork-stork-admin")
      (reconcile_stork_request cluster true no_route
        (ok "a2V5")
        (ok "dG9r")
        storks
        "now"
        "net"
        "stork"
        with_secrets).1.objects
    ≡ found admin_secret
kept_secret_example =
    get-reconcile_stork_request cluster cluster-TakesEffect (secret_key "net" "stork-stork-admin")
      refl admin_secret true no_route (ok "a2V5") (ok "dG9r") storks "now" "net" "stork"
      with_secrets refl

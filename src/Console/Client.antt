-- ===== src/Console/Client.antt =====
-- console-plugin/pkg/keaclient/client.go: the query of a page of leases. The HTTP exchange of
-- `SendCommand` and the decoding of the arguments (json.Unmarshal) are parameters; a kind of lease is a
-- type of its own, so that GetLeases4 and GetLeases6 are one function.
use kea_dhcp_operator.Base.{Result, ok, error, String, ◌<>◌, List, [], ◌∷◌, if◌then◌else◌}
use kea_dhcp_operator.Base.Int.{ℤ, pos, eq_ℤ}
use kea_dhcp_operator.Base.Decimal.{decimal_ℤ}
use kea_dhcp_operator.Json.{Json, text, number, object, end, field}

pub record KeaCommand : Type 0 where
  pub command : String
  pub service : List String
  pub arguments : Json

pub record KeaResponse : Type 0 where
  pub result : ℤ
  pub text : String
  pub arguments : String

-- Which leases are asked for.
pub data Family : Type 0 where
  dhcp4 : Family
  dhcp6 : Family

abbrev command_of : Family → String
command_of dhcp4 = "lease4-get-page"
command_of dhcp6 = "lease6-get-page"

abbrev service_of : Family → String
service_of dhcp4 = "dhcp4"
service_of dhcp6 = "dhcp6"

abbrev arguments_of : Family → String
arguments_of dhcp4 = "lease4"
arguments_of dhcp6 = "lease6"

unfoldable pub lease_command : Family → KeaCommand
lease_command f = record {
  command = command_of f;
  service = service_of f ∷ [];
  arguments = object (field "from" (text "start") (field "limit" (number (pos 10000)) end));
}

module _ {Lease : Type 0} (send_command : String → KeaCommand → Result (List KeaResponse))
    (unmarshal : String → Result (List Lease)) where
  abbrev with_context : String → Result (List Lease) → Result (List Lease)
  with_context context (ok leases) = ok leases
  with_context context (error e) = error (context <> ": " <> e)

  -- The first response; result 3 means that there are no leases.
  unfoldable pub leases_of : Family → String → KeaResponse → Result (List Lease)
  leases_of f agent_url first =
      if eq_ℤ first.result (pos 3)
      then ok []
      else if eq_ℤ first.result (pos 0)
      then with_context ("failed to unmarshal " <> arguments_of f <> " arguments")
          (unmarshal first.arguments)
      else error (
          "kea error (result="
          <> decimal_ℤ first.result
          <> ") from "
          <> agent_url
          <> ": "
          <> first.text)

  abbrev first_of : Family → String → Result (List KeaResponse) → Result (List Lease)
  first_of f agent_url (error e) = error e
  first_of f agent_url (ok []) = error ("empty response from " <> agent_url)
  first_of f agent_url (ok (first ∷ rest)) = leases_of f agent_url first

  -- GetLeases4 and GetLeases6.
  unfoldable pub get_leases : Family → String → Result (List Lease)
  unfolding leases_of
  get_leases f agent_url = first_of f agent_url (send_command agent_url (lease_command f))

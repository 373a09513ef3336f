-- ===== src/Tests/ConsoleTests.antt =====
-- Witnesses of the Stork agent's resolution, of the checks on shell inputs and of the console plugin.
use kea_dhcp_operator.Base.{
  String, false, ◌≡◌, refl, Option, some, List, [], ◌∷◌, ◌==◌, if◌then◌else◌, Result, ok, error,
}
use kea_dhcp_operator.Base.Int.{pos}
use kea_dhcp_operator.Api.Common.{StorkAgentConfig}
use kea_dhcp_operator.Api.Stork.{KeaStorkServer}
use kea_dhcp_operator.Console.Handler.{AgentEndpoint, lease_response, lease_response_lem}
use kea_dhcp_operator.Controller.Client.{Fetched, found}
use kea_dhcp_operator.Controller.Stork.{SecretData}
use kea_dhcp_operator.Resources.ShellSafety.{contains, contains-validate_nad_shell_inputs}
use kea_dhcp_operator.Resources.Validate.{
  validate_nad_shell_inputs, is_safe_name, is_safe_subnet, is_safe_command, some_chars, all_chars,
  after_subnet, after_number, after_char, skip_digits,
}
use kea_dhcp_operator.Tests.Specs.{stork, stork_server}

abbrev get_stork : String → String → Fetched KeaStorkServer
get_stork namespace name = found stork_server

abbrev list_storks : String → Option (List KeaStorkServer)
list_storks namespace = some (stork_server ∷ [])

abbrev token : SecretData
token = ("token", "secret") ∷ []

abbrev get_secret : String → String → Fetched SecretData
get_secret namespace name = found token

abbrev searching : StorkAgentConfig
searching = record stork { server_url = "" }

accepted : validate_nad_shell_inputs "net1" "10.0.0.0/24" "kea-dhcp4" ≡ ok tt
unfolding validate_nad_shell_inputs is_safe_name is_safe_subnet is_safe_command some_chars all_chars
    after_subnet after_number after_char skip_digits
accepted = refl

-- 36 is the code of $.
shell_example :
    (contains 36 "net1" ≡ false)
    × (contains 36 "10.0.0.0/24" ≡ false)
    × (contains 36 "kea-dhcp4" ≡ false)
shell_example = contains-validate_nad_shell_inputs 36 refl "net1" "10.0.0.0/24" "kea-dhcp4" accepted

abbrev agent_a : AgentEndpoint
agent_a = record { name = "a"; namespace = "net"; url = "http://a/"; port = pos 8000 }

abbrev agent_b : AgentEndpoint
agent_b = record { name = "b"; namespace = "net"; url = "http://b/"; port = pos 8000 }

-- Only agent a answers.
abbrev answer : String → Result (List String)
answer url = if url == "http://a/" then ok ("10.0.0.9" ∷ []) else error "timeout"

leases_example :
    lease_response answer "net" (agent_a ∷ agent_b ∷ [])
    ≡ record { leases = "10.0.0.9" ∷ []; count = 1; agents = "http://a/" ∷ [] }
leases_example = lease_response_lem answer "net" (agent_a ∷ agent_b ∷ [])

-- ===== src/Resources/StatefulSet/Scripts.antt =====
-- The shell commands of `BuildStatefulSet` in internal/resources/statefulset.go.
use kea_dhcp_operator.Base.{
  ℕ, String, List, [], ◌∷◌, ◌<>◌, ◌==◌, ◌&&◌, not, is_empty, if◌then◌else◌,
}
use kea_dhcp_operator.Base.Decimal.{decimal}
use kea_dhcp_operator.Api.Kube.{EnvVar}
use kea_dhcp_operator.Api.Maps.{StringMap}
use kea_dhcp_operator.Resources.Deployment.{is_ok}
use kea_dhcp_operator.Resources.Names.{stateful_set_name}
use kea_dhcp_operator.Resources.Stork.{config_mount_path, run_mount_path}
use kea_dhcp_operator.Resources.Validate.{validate_nad_shell_inputs}
use kea_dhcp_operator.Resources.StatefulSet.Params.{
  active_config_mount_path, configs_base_mount_path, StatefulSetParams,
}

-- The shell commands that put the address of a peer in place of its host name: the address of the
-- pod itself, or that of the peer's own Service.
unfoldable pub resolve_peer : String → String → String → String → String
resolve_peer sts_name config_dst config_hostname service_hostname =
    "\nif echo \"" <> config_hostname <> "\" | grep -q \"^" <> sts_name
    <> "-${ordinal}\\.\"; then\n  pod_ip=$(hostname -i | awk '{print $1}')\n  sed -i \"s|"
    <> config_hostname <> "|$pod_ip|g\" " <> config_dst <> "\n  echo \"This server: "
    <> config_hostname
    <> " -> $pod_ip (pod IP)\"\nelse\n  resolved=\"\"\n  for i in 1 2 3 4 5 6 7 8 9 10 11 12 13 14 15; do\n    resolved=$(nslookup "
    <> service_hostname
    <> " 2>/dev/null | tail -n +3 | awk '/^Address/{print $NF}' | grep -v ':' | head -1)\n    if [ -n \"$resolved\" ]; then break; fi\n    echo \"Waiting for DNS resolution of "
    <> service_hostname
    <> " (attempt $i)...\"\n    sleep 2\n  done\n  if [ -n \"$resolved\" ]; then\n    sed -i \"s|"
    <> config_hostname <> "|$resolved|g\" " <> config_dst <> "\n    echo \"Resolved "
    <> config_hostname <> " -> $resolved (via " <> service_hostname
    <> ")\"\n  else\n    echo \"WARNING: Could not resolve " <> service_hostname
    <> ", keeping hostname\"\n  fi\nfi"

unfoldable pub resolve_peers : String → String → StringMap → String
resolve_peers sts_name config_dst [] = ""
resolve_peers sts_name config_dst ((config_hostname, service_hostname) ∷ hosts) =
    resolve_peer sts_name config_dst config_hostname service_hostname
    <> resolve_peers sts_name config_dst hosts

unfoldable pub expand_secrets : String → List EnvVar → String
expand_secrets config_dst [] = ""
expand_secrets config_dst (ev ∷ evs) =
    "; sed -i \"s|\\$"
    <> ev.name
    <> "|${"
    <> ev.name
    <> "}|g\" "
    <> config_dst
    <> expand_secrets config_dst evs

-- The branches of the `case` of `caseScript`.
unfoldable pub address_cases : List (ℕ × String) → String
address_cases [] = ""
address_cases ((ordinal, address) ∷ addresses) =
    decimal ordinal <> ") ip_addr=\"" <> address <> "/${prefix}\" ;; " <> address_cases addresses

module _ (p : StatefulSetParams) where
  unfoldable pub config_dst : String
  config_dst = active_config_mount_path <> "/" <> p.config_file_name

  -- The script of the init container: takes the configuration of the pod's ordinal, then puts the
  -- addresses of the peers and the secrets in.
  unfoldable pub init_script : String
  unfolding config_dst resolve_peers expand_secrets
  init_script =
      "chmod 750 "
      <> run_mount_path
      <> "; ordinal=${HOSTNAME##*-}; cp "
      <> configs_base_mount_path
      <> "/${ordinal}/"
      <> p.config_file_name
      <> " "
      <> config_dst
      <> "; echo \"Selected config for ordinal ${ordinal}\""
      <> resolve_peers (stateful_set_name p.cr_name p.component) config_dst p.peer_hostname_map
      <> expand_secrets config_dst p.secret_env_vars
      <> "\necho '=== Final config ==='; cat "
      <> config_dst

  -- Adds the address to the attached interface, then starts Kea.
  unfoldable pub start_kea : String
  start_kea =
      p.nad_interface <> "\"; exec " <> p.command <> " -c " <> config_mount_path <> "/"
      <> p.config_file_name

  -- `caseScript`: the addresses of the peers, and the computed one for an ordinal that has none.
  unfoldable pub case_script : String
  unfolding start_kea address_cases
  case_script =
      "ordinal=${HOSTNAME##*-}; prefix=$(echo "
      <> p.nad_subnet
      <> " | cut -d/ -f2); case $ordinal in "
      <> address_cases p.peer_addresses
      <> "*) base=$(echo "
      <> p.nad_subnet
      <> " | cut -d/ -f1); IFS=. read -r a b c d <<EOF\n$base\nEOF\nip_last=$((d + ordinal + 2)); ip_addr=\"${a}.${b}.${c}.${ip_last}/${prefix}\" ;; esac; ip addr add $ip_addr dev "
      <> p.nad_interface
      <> " 2>/dev/null || true; echo \"Assigned $ip_addr to "
      <> start_kea

  -- Subnet base + ordinal + 2.
  unfoldable pub auto_script : String
  unfolding start_kea
  auto_script =
      "ordinal=${HOSTNAME##*-}; base=$(echo " <> p.nad_subnet <> " | cut -d/ -f1); prefix=$(echo "
      <> p.nad_subnet
      <> " | cut -d/ -f2); IFS=. read -r a b c d <<EOF\n$base\nEOF\nip_last=$((d + ordinal + 2)); ip addr add ${a}.${b}.${c}.${ip_last}/${prefix} dev "
      <> p.nad_interface
      <> " 2>/dev/null || true; echo \"Assigned ${a}.${b}.${c}.${ip_last}/${prefix} to "
      <> start_kea

  unfoldable pub stateful_set_command : List String
  unfolding case_script auto_script
  stateful_set_command =
      if not (p.nad_interface == "")
        && (not (p.nad_subnet == "")
            && is_ok (validate_nad_shell_inputs p.nad_interface p.nad_subnet p.command))
      then "sh" ∷ "-c" ∷ (if is_empty p.peer_addresses then auto_script else case_script) ∷ []
      else p.command ∷ "-c" ∷ (config_mount_path <> "/" <> p.config_file_name) ∷ []

-- ===== src/Resources/Images.antt =====
-- The defaults of internal/resources/deployment.go: images, commands and the names of the volumes.
use kea_dhcp_operator.Base.{String, ◌==◌, if◌then◌else◌}

-- A component that is not known has no default.
unfoldable pub default_image_for_component : String → String
default_image_for_component component =
    if component == "dhcp4"
    then "docker.cloudsmith.io/isc/docker/kea-dhcp4:3.0.2"
    else if component == "dhcp6"
    then "docker.cloudsmith.io/isc/docker/kea-dhcp6:3.0.2"
    else if component == "ctrl-agent"
    then "docker.cloudsmith.io/isc/docker/kea-ctrl-agent:3.0.2"
    else if component == "ddns"
    then "docker.cloudsmith.io/isc/docker/kea-dhcp-ddns:3.0.2"
    else ""

unfoldable pub default_command_for_component : String → String
default_command_for_component component =
    if component == "dhcp4"
    then "/usr/sbin/kea-dhcp4"
    else if component == "dhcp6"
    then "/usr/sbin/kea-dhcp6"
    else if component == "ctrl-agent"
    then "/usr/sbin/kea-ctrl-agent"
    else if component == "ddns"
    then "/usr/sbin/kea-dhcp-ddns"
    else ""

abbrev pub config_volume_name : String
config_volume_name = "kea-config"

abbrev pub config_template_mount_path : String
config_template_mount_path = "/etc/kea-template"

abbrev pub config_writable_volume_name : String
config_writable_volume_name = "kea-config-rendered"

abbrev pub lease_volume_name : String
lease_volume_name = "kea-leases"

abbrev pub lease_mount_path : String
lease_mount_path = "/var/lib/kea"

abbrev pub tls_volume_name : String
tls_volume_name = "kea-tls"

abbrev pub tls_mount_path : String
tls_mount_path = "/etc/kea/tls"

abbrev pub config_hash_annotation : String
config_hash_annotation = "kea.openshift.io/config-hash"

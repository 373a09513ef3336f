-- ===== src/Lib.antt =====
-- The Kea DHCP operator, verified.
--
-- The operator (github.com/MoOyeg/kea-dhcp-operator) turns custom resources into a running Kea: the
-- structs of api/v1alpha1 are the resources, internal/kea renders a spec to Kea's JSON configuration,
-- internal/resources builds the Kubernetes objects, and internal/controller reconciles each resource,
-- an umbrella resource (KeaServer) creating the resources of the components and gathering their
-- status.
--
-- Parts and files:
--   Base, Base/*         texts, lists, integers, Boolean tests and decimal numbers.
--   Json, Json/*         the JSON values that the renderers build: an object is the list of its
--                        members, `set` is an assignment to a Go map, `set_if_not_nil` and
--                        `set_if_not_empty` are setIfNotNil and setIfNotEmpty of
--                        internal/kea/config.go; Json/Read has the decoding of values.
--   Api, Api/*           the structs of api/v1alpha1, field by field. `Type` is `kind` and `Data` is
--                        `data_text`; a pointer is an Option, an int32 or int64 is an integer that the
--                        code only copies, compares or prints. What the operator passes on unread
--                        (resources, tolerations, affinities) is its JSON value.
--   Render, Render/*     internal/kea: each render function, as the value it builds. The order of keys
--                        and the printing (json.MarshalIndent) are not modelled: the value is.
--                        json.Unmarshal, used for the parameters of hooks, is the parameter
--                        `unmarshal`.
--   Schema, Schema/*     what a configuration means: readers by the JSON names that the structs
--                        declare, written independently of the renderers.
--   Resources, Resources/*
--                        internal/resources: the names and labels of objects (Names, Labels), the
--                        Deployment (Deployment) and the StatefulSet (StatefulSet/*) with their
--                        volumes and shell scripts, the Services and the other objects (Services), the
--                        Stork agent (Stork) and the Stork server (StorkServer), and the checks on
--                        what is put into shell commands (Validate, ShellSafety). WellFormed and
--                        Selectors say what is asked of pods and of selectors. A Go map is an
--                        association list in the order of its iteration. Owner references are left
--                        out.
--   Controller, Controller/*
--                        internal/controller: setCondition (Conditions), the status of a component and
--                        isChildReady (Status), reconcileResource and reconcileRoute with the function
--                        that puts the desired state back (Objects), what the operator creates on
--                        start-up (Setup), the steps that the reconcilers share (Steps/*), the
--                        reconciliation of the DHCPv4 server in both modes (Dhcp4/*), of the DHCPv6
--                        server (Dhcp6), of the control agent (Agent), of DHCP-DDNS (Ddns), of the
--                        Stork server (StorkServer) and of the umbrella resource (Umbrella/*); the
--                        resolution of the Stork agent (Stork), and the secrets of the control agent
--                        and of DHCP-DDNS (Secrets, SecretPlaceholders). A reconciler is a function on
--                        the state, the objects of the cluster and the resources that it is for; an
--                        error ends it and keeps what was done before. net.ParseCIDR, url.Parse, the
--                        printer of JSON, the hash and random texts are parameters. The Kubernetes
--                        client is an interface (Client, Objects): its laws say that a call without an
--                        error has taken effect and changes no other object; where a theorem says that
--                        calls succeed, that is a hypothesis (Steps/Success); Steps/InPlace says
--                        what is to stand in place of a live object, and HaWritten derives the laws
--                        of the ConfigMaps of an HA server from the client's. Time is an argument;
--                        events and logs are left out.
--   Console, Console/*   console-plugin/pkg: the query of leases (keaclient), and what the back end
--                        makes of the answers of all agents (handler, discovery). The HTTP exchange is
--                        a parameter.
--   Tests, Tests/*       the results at concrete inputs.
--
-- Not modelled: the watches and the registration with controller-runtime, the generated deep
-- copies, the manager's entry point, the detection of the platform, whose answer is a parameter,
-- and the front end of the console plugin. Loops run over lists or over the number of replicas,
-- which the API server keeps at 1 at least; the digits of a numeral (Base/Decimal) run on fuel that
-- is one more than the number, which is more than it has digits.
pub mod Base
pub mod Json
pub mod Api
pub mod Render
pub mod Schema
pub mod Resources
pub mod Controller
pub mod Console
pub mod Tests

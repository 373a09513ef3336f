-- ===== src/Controller/Dhcp4/HaWritten.antt =====
-- The ConfigMaps that `reconcileHAConfigs` leaves behind with the operator's own client.
use kea_dhcp_operator.Controller.Steps.Frame.{Avoids-reconcile_resource}
use kea_dhcp_operator.Render.Dhcp4.{render_json_with_server_name}
use kea_dhcp_operator.Controller.Steps.Effect.{get-reconcile_resource}
use kea_dhcp_operator.Controller.Dhcp4.Credentials.{credentials}
use kea_dhcp_operator.Controller.Dhcp4.Workload.{dhcp4_replicas, peers_of}
use kea_dhcp_operator.Resources.Labels.{common_labels}
use kea_dhcp_operator.Resources.Names.{ha_config_map_name, config_file_name}
use kea_dhcp_operator.Resources.Services.{config_map_meta}
use kea_dhcp_operator.Api.Dhcp4.{KeaDhcp4Server}
use kea_dhcp_operator.Controller.Environment.{Environment}
use kea_dhcp_operator.Api.Workloads.{DataObject}
use kea_dhcp_operator.Controller.Dhcp4.Reconcile.{config_maps_of, dhcp4_ha_configs, data_in}
use kea_dhcp_operator.Controller.Dhcp4.HaConfigs.{
  IsReliable, ConfigMapData, reconcile_ha_configs, server_name_at, get-reconcile_ha_configs,
}
use kea_dhcp_operator.Controller.Client.{found, not_found, get_failed, done, Outcome, Fetched}
use kea_dhcp_operator.Base.{String, ℕ, ◌≡◌, ◌∙◌, ap, ok, some, ◌<◌, [], ◌∷◌}
use kea_dhcp_operator.Api.Kube.{ObjectMeta}
use kea_dhcp_operator.Controller.Objects.{
  config_map, Client, config_maps, TakesEffect, Key, Resource, written, apply_desired, secret,
  deployment, stateful_set, service, service_account, pod_monitor, role_binding, route,
}

-- There is a ConfigMap, or no object, under the key of one.
abbrev pub HoldsConfigMap : Fetched Resource → Type 0
HoldsConfigMap (found (config_map d)) = Unit
HoldsConfigMap (found r) = ⊥
HoldsConfigMap not_found = Unit
HoldsConfigMap (get_failed e) = Unit

abbrev pub config_map_key : ObjectMeta → String → Key
config_map_key owner name = record { kind = config_maps; namespace = owner.namespace; name = name }

abbrev pub Fits : {Objects : Type 0} → Client Objects → ObjectMeta → String → Objects → Type 0
Fits client owner name s = HoldsConfigMap (client.get (config_map_key owner name) s)

abbrev ha_config_map : ObjectMeta → String → ConfigMapData → DataObject
ha_config_map owner name d = record {
  meta = config_map_meta name owner.namespace (common_labels owner.name "dhcp4");
  entries = (d.file_name, d.content) ∷ [];
}

module _ {Objects : Type 0} (client : Client Objects) {admitted : Resource → Resource}
    (law : TakesEffect client admitted)
    (plain : (d : DataObject) → admitted (config_map d) ≡ config_map d) (owner : ObjectMeta) where
  data_in-written :
      (name : String) (d : ConfigMapData) (live : Fetched Resource)
      → HoldsConfigMap live
      → data_in (
          found (
            admitted (
              written live
                (config_map (ha_config_map owner name d))
                (apply_desired (config_map (ha_config_map owner name d))))))
        ≡ some d
  unfolding apply_desired
  data_in-written name d (found (config_map l)) h =
      ap (λ (x : Resource). data_in (found x)) (plain _)
  data_in-written name d (found (secret x)) h = absurd h
  data_in-written name d (found (deployment x)) h = absurd h
  data_in-written name d (found (stateful_set x)) h = absurd h
  data_in-written name d (found (service x)) h = absurd h
  data_in-written name d (found (service_account x)) h = absurd h
  data_in-written name d (found (pod_monitor x)) h = absurd h
  data_in-written name d (found (role_binding x)) h = absurd h
  data_in-written name d (found (route x)) h = absurd h
  data_in-written name d not_found h = ap (λ (x : Resource). data_in (found x)) (plain _)
  data_in-written name d (get_failed e) h = ap (λ (x : Resource). data_in (found x)) (plain _)

  -- The client's calls take effect on the ConfigMaps of a server, also as the loop sees them.
  config_maps_of-IsReliable : IsReliable (config_maps_of client owner) (Fits client owner)
  unfolding config_map_meta
  config_maps_of-IsReliable = record {
    get-reconcile_resource = λ name d s fits h.
        ap data_in
          (get-reconcile_resource client law owner (config_map (ha_config_map owner name d)) s h)
        ∙ data_in-written name d (client.get (config_map_key owner name) s) fits;
    get-reconcile_resource-other = λ name other d s apart. ap data_in (
        Avoids-reconcile_resource client law (config_map_key owner other) owner
          (config_map (ha_config_map owner name d)) (λ e. apart (ap (λ (k : Key). k.name) e)) s);
    Fits-reconcile_resource-other = λ name other d s apart fits.
        rw
          (Avoids-reconcile_resource client law (config_map_key owner other) owner
            (config_map (ha_config_map owner name d)) (λ e. apart (ap (λ (k : Key). k.name) e)) s)
          fits;
  }

module _ {Objects : Type 0} (env : Environment Objects) {admitted : Resource → Resource}
    (law : TakesEffect env.client admitted)
    (plain : (d : DataObject) → admitted (config_map d) ≡ config_map d)
    (server : KeaDhcp4Server) where
  -- The call that writes the configuration of an ordinal, after those for the ordinals before.
  abbrev pub ha_config_call : ℕ → String → Objects → Outcome × Objects
  ha_config_call k json s =
      let maps = config_maps_of env.client server.meta in
      maps.reconcile_resource (ha_config_map_name server.meta.name "dhcp4" k)
        (record { file_name = config_file_name "dhcp4"; content = json })
        (reconcile_ha_configs maps env.unmarshal env.print env.compute_hash server.meta.name "dhcp4"
          (credentials server.spec).1 (peers_of server) k s).1

  -- With a client whose calls without an error take effect, and an API server that gives ConfigMaps no
  -- defaults, the ConfigMap of an ordinal below the number of replicas holds, after
  -- `reconcileHAConfigs`, one file: the configuration rendered with the name of the peer of that ordinal.
  -- This is so if that configuration can be printed, no object of another kind stands under the
  -- ConfigMap's key, and the call for it, after the passes for the ordinals before, ends without an
  -- error, whatever happens at the other ordinals.
  pub get-dhcp4_ha_configs :
      (k : ℕ) {json : String} (s : Objects)
      → k < dhcp4_replicas server
      → env.print (
          render_json_with_server_name env.unmarshal
            (credentials server.spec).1
            (server_name_at (peers_of server) k))
        ≡ ok json
      → Fits env.client server.meta (ha_config_map_name server.meta.name "dhcp4" k) s
      → (ha_config_call k json s).0 ≡ done
      → data_in (
          env.client.get
            (config_map_key server.meta (ha_config_map_name server.meta.name "dhcp4" k))
            (dhcp4_ha_configs env server s).1)
        ≡ some (record { file_name = config_file_name "dhcp4"; content = json })
  unfolding dhcp4_ha_configs
  get-dhcp4_ha_configs k s below printed fits succeeds =
      get-reconcile_ha_configs (config_maps_of env.client server.meta) env.unmarshal env.print
        env.compute_hash server.meta.name "dhcp4" (credentials server.spec).1 (peers_of server)
        (config_maps_of-IsReliable env.client law plain server.meta) (dhcp4_replicas server) k s
        below printed fits succeeds

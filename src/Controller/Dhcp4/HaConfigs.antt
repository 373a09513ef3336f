-- ===== src/Controller/Dhcp4/HaConfigs.antt =====
-- internal/controller/keadhcp4server_controller.go: `reconcileHAConfigs`. The printer of JSON, the hash
-- and the call that creates or updates a ConfigMap are parameters; an error of the printer or
-- of the call is logged and passed over.
use Prim.Native.Nat.{ℕ, zero, suc, ◌+◌, ◌<◌}
use kea_dhcp_operator.Base.{
  String, false, ◌≡◌, ◌≢◌, ◌∙◌, refl, ◌<>◌, Option, none, some, List, map, ◌==◌, get_elem?, arith,
  Result, ok, error, ap, sym,
}
use kea_dhcp_operator.Base.Decimal.{decimal}
use kea_dhcp_operator.Json.{Json}
use kea_dhcp_operator.Api.Ha.{HaConfig, HaPeer}
use kea_dhcp_operator.Controller.Client.{Outcome, done}
use kea_dhcp_operator.Render.Dhcp4.{Dhcp4ConfigRenderer, render_json_with_server_name}
use kea_dhcp_operator.Render.Hooks.{ha_hook_lib}
use kea_dhcp_operator.Resources.Names.{
  ha_config_map_name, config_file_name, ha_config_map_name-injective,
}
use kea_dhcp_operator.Schema.Dhcp4Hooks.{dhcp4_ha, dhcp4_ha-render_json_internal}
use kea_dhcp_operator.Schema.Ha.{HasHaSetting, without_address}
use kea_dhcp_operator.Schema.Hooks.{NotLoaded}

abbrev name_or : String → Option HaPeer → String
name_or default none = default
name_or default (some p) = p.name

-- The server name of an ordinal: that of the peer there, or a made-up one.
unfoldable pub server_name_at : List HaPeer → ℕ → String
server_name_at peers i = name_or ("server" <> decimal (i + 1)) (get_elem? peers i)

-- What a ConfigMap holds: one file.
pub record ConfigMapData : Type 0 where
  pub file_name : String
  pub content : String

-- A store of ConfigMaps by name, and the call that creates or updates one.
pub record ConfigMapApi (World : Type 0) : Type 0 where
  pub get : String → World → Option ConfigMapData
  pub reconcile_resource : String → ConfigMapData → World → Outcome × World

-- A client whose calls without an error take effect where the store fits, each on the ConfigMap that it
-- names and on no other.
pub record IsReliable {World : Type 0} (api : ConfigMapApi World) (Fits : String → World → Type 0)
    : Type 0 where
  pub get-reconcile_resource :
      (name : String) (d : ConfigMapData) (w : World)
      → Fits name w
      → (api.reconcile_resource name d w).0 ≡ done
      → api.get name (api.reconcile_resource name d w).1 ≡ some d
  pub get-reconcile_resource-other :
      (name other : String) (d : ConfigMapData) (w : World)
      → name ≢ other
      → api.get other (api.reconcile_resource name d w).1 ≡ api.get other w
  pub Fits-reconcile_resource-other :
      (name other : String) (d : ConfigMapData) (w : World)
      → name ≢ other
      → Fits other w
      → Fits other (api.reconcile_resource name d w).1

module _ (unmarshal : String → Option Json) (renderer : Dhcp4ConfigRenderer)
    (peers : List HaPeer) where
  -- The configuration of an ordinal.
  unfoldable pub config_at : ℕ → Json
  config_at i = render_json_with_server_name unmarshal renderer (server_name_at peers i)

  -- Every replica that has a peer with a name calls itself by the name of its own peer, and has
  -- the whole list of peers: that is the HA configuration which the configuration of its ordinal
  -- loads, if no hook of the user's loads the HA library, and a multi-threading section, if there
  -- is one, sets something.
  pub dhcp4_ha-config_at :
      {ha : HaConfig} {p : HaPeer} (k : ℕ)
      → NotLoaded ha_hook_lib renderer.spec.hooks_libraries
      → renderer.spec.high_availability ≡ some ha
      → HasHaSetting ha.multi_threading
      → get_elem? peers k ≡ some p
      → (p.name == "") ≡ false
      → dhcp4_ha (config_at k)
        ≡ some (record ha {
          this_server_name = p.name;
          tls = none;
          peers = map without_address ha.peers;
        })
  unfolding config_at render_json_with_server_name server_name_at
  dhcp4_ha-config_at {ha} {p} k free on set there named =
      rw there (dhcp4_ha-render_json_internal unmarshal renderer p.name free on set ∙ rw named)

ok-injective : {A : Type 0} {x y : A} → ok x ≡ ok y → x ≡ y
ok-injective h = cc h

module _ {World : Type 0} (api : ConfigMapApi World) (unmarshal : String → Option Json)
    (print : Json → Result String) (compute_hash : String → String) (cr_name component : String)
    (renderer : Dhcp4ConfigRenderer) (peers : List HaPeer) where
  unfoldable pub config_json : ℕ → Result String
  config_json i = print (config_at unmarshal renderer peers i)

  abbrev pub config_map_at : String → ConfigMapData
  config_map_at json = record { file_name = config_file_name component; content = json }

  -- A configuration that cannot be printed is logged and left out.
  abbrev add_hash : String → Result String → String
  add_hash combined_hash (ok json) = combined_hash <> compute_hash json
  add_hash combined_hash (error e) = combined_hash

  unfoldable pub write_config : ℕ → Result String → World → World
  write_config i (ok json) w =
      (api.reconcile_resource (ha_config_map_name cr_name component i) (config_map_at json) w).1
  write_config i (error e) w = w

  -- The loop, from an ordinal on, with the hashes so far.
  unfoldable pub reconcile_from : ℕ → ℕ → String → World → String × World
  unfolding config_json write_config
  reconcile_from i zero combined_hash w = (combined_hash, w)
  reconcile_from i (suc n) combined_hash w =
      reconcile_from (suc i) n (add_hash combined_hash (config_json i))
        (write_config i (config_json i) w)

  abbrev finish : String × World → String × World
  finish (combined_hash, w) = (compute_hash combined_hash, w)

  unfoldable pub reconcile_ha_configs : ℕ → World → String × World
  unfolding reconcile_from
  reconcile_ha_configs replicas w = finish (reconcile_from 0 replicas "" w)

  module _ {Fits : String → World → Type 0} (law : IsReliable api Fits) where
    get-write_config_other :
        (i k : ℕ) (r : Result String) (w : World)
        → k < i
        → api.get (ha_config_map_name cr_name component k) (write_config i r w)
          ≡ api.get (ha_config_map_name cr_name component k) w
    unfolding write_config
    get-write_config_other i k (ok json) w below =
        law.get-reconcile_resource-other (ha_config_map_name cr_name component i)
          (ha_config_map_name cr_name component k) (config_map_at json) w
          (λ same. omega (arith, ha_config_map_name-injective cr_name component i k same))
    get-write_config_other i k (error e) w below = refl

    -- A ConfigMap of an earlier ordinal is left alone.
    get-reconcile_from_below :
        (i n k : ℕ) (combined_hash : String) (w : World)
        → k < i
        → api.get (ha_config_map_name cr_name component k) (reconcile_from i n combined_hash w).1
          ≡ api.get (ha_config_map_name cr_name component k) w
    unfolding reconcile_from
    get-reconcile_from_below i zero k combined_hash w below = refl
    get-reconcile_from_below i (suc n) k combined_hash w below =
        get-reconcile_from_below (suc i) n k _ _ (omega arith)
        ∙ get-write_config_other i k (config_json i) w below

    Fits-write_config :
        (i k : ℕ) (r : Result String) (w : World)
        → i < k
        → Fits (ha_config_map_name cr_name component k) w
        → Fits (ha_config_map_name cr_name component k) (write_config i r w)
    unfolding write_config
    Fits-write_config i k (ok json) w above fits =
        law.Fits-reconcile_resource-other (ha_config_map_name cr_name component i)
          (ha_config_map_name cr_name component k) (config_map_at json) w
          (λ same. omega (arith, ha_config_map_name-injective cr_name component i k same)) fits
    Fits-write_config i k (error e) w above fits = fits

    -- The call for an ordinal ends without an error.
    abbrev pub Succeeds : ℕ → String → World → Type 0
    Succeeds k json w =
        (api.reconcile_resource (ha_config_map_name cr_name component k) (config_map_at json) w).0
        ≡ done

    get-write_config :
        (i k : ℕ) {json : String} (r : Result String) (w : World)
        → k ≡ i
        → r ≡ ok json
        → Fits (ha_config_map_name cr_name component k) w
        → Succeeds k json w
        → api.get (ha_config_map_name cr_name component k) (write_config i r w)
          ≡ some (config_map_at json)
    unfolding write_config
    get-write_config i k (ok json) w here printed fits succeeds =
        let same : json ≡ _ = ok-injective printed in
        rw (← here, same)
          (law.get-reconcile_resource (ha_config_map_name cr_name component k) _ w fits succeeds)
    get-write_config i k (error e) w here printed fits succeeds = cc

    get-reconcile_from :
        (i n m k : ℕ) {json : String} (combined_hash : String) (w : World)
        → k ≡ i + m
        → m < n
        → config_json k ≡ ok json
        → Fits (ha_config_map_name cr_name component k) w
        → Succeeds k json (reconcile_from i m combined_hash w).1
        → api.get (ha_config_map_name cr_name component k) (reconcile_from i n combined_hash w).1
          ≡ some (config_map_at json)
    unfolding reconcile_from
    get-reconcile_from i zero m k combined_hash w at below printed fits succeeds =
        absurd (omega (arith, below))
    get-reconcile_from i (suc n) zero k combined_hash w at below printed fits succeeds =
        let here : k ≡ i = omega (arith, at) in
        get-reconcile_from_below (suc i) n k _ _ (omega (arith, at))
        ∙ get-write_config i k (config_json i) w here (ap config_json (sym here) ∙ printed) fits
            succeeds
    get-reconcile_from i (suc n) (suc m) k combined_hash w at below printed fits succeeds =
        get-reconcile_from (suc i) n m k _ _ (omega (arith, at)) (omega (arith, below)) printed
          (Fits-write_config i k (config_json i) w (omega (arith, at)) fits) succeeds

    -- After the loop, with a client whose calls take effect, the ConfigMap of an ordinal below the
    -- number of replicas holds the configuration rendered with the name of the peer of that ordinal, if
    -- that configuration can be printed and the call for it, after the passes for the ordinals before,
    -- ends without an error, whatever happens at the others.
    pub get-reconcile_ha_configs :
        (replicas k : ℕ) {json : String} (w : World)
        → k < replicas
        → print (render_json_with_server_name unmarshal renderer (server_name_at peers k)) ≡ ok json
        → Fits (ha_config_map_name cr_name component k) w
        → Succeeds k json (reconcile_ha_configs k w).1
        → api.get (ha_config_map_name cr_name component k) (reconcile_ha_configs replicas w).1
          ≡ some (record { file_name = config_file_name component; content = json })
    unfolding reconcile_ha_configs config_at
    get-reconcile_ha_configs replicas k w below printed fits succeeds =
        get-reconcile_from 0 replicas k k "" w (omega arith) below printed fits succeeds

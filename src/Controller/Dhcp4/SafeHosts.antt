-- ===== src/Controller/Dhcp4/SafeHosts.antt =====
-- The host names that reach the shell script of the init container.
use kea_dhcp_operator.Api.Ha.{HaPeer}
use kea_dhcp_operator.Controller.Dhcp4.Workload.{peer_hosts, per_pod_host, add_host}
use kea_dhcp_operator.Api.Dhcp4.{KeaDhcp4Server}
use kea_dhcp_operator.Resources.ShellSafety.{is_special, contains, contains-validate_hostname}
use kea_dhcp_operator.Base.Decimal.{decimal}
use kea_dhcp_operator.Resources.Validate.{validate_hostname}
use kea_dhcp_operator.Api.Maps.{put, StringMap}
use kea_dhcp_operator.Base.{
  String, ok, error, [], ◌∷◌, true, false, inl, inr, Bool-cases, All, ℕ, ◌≡◌, Option, ◌==◌, Result,
  List, ◌<>◌, ap, refl, sym, suc, some, none,
}

ok-injective : {xs ys : StringMap} → Path (Result StringMap) (ok xs) (ok ys) → xs ≡ ys
ok-injective {xs = xs} h = ap (λ (r : Result StringMap). elim r [ ok zs ↦ zs | error e ↦ xs ]) h

module _ (k : ℕ) (special : is_special k ≡ true) where
  abbrev pub IsPlain : String × String → Type 0
  IsPlain (host, service) = contains k host ≡ false

  IsPlain-put :
      (key value : String) (kvs : StringMap)
      → contains k key ≡ false
      → All IsPlain kvs
      → All IsPlain (put key value kvs)
  unfolding put
  IsPlain-put key value [] plain all = (plain, tt)
  IsPlain-put key value ((host, service) ∷ kvs) plain all = elim (Bool-cases (host == key)) [
    | inl same ↦ rw same all
    | inr other ↦ rw other (all.0, IsPlain-put key value kvs plain all.1)
  ]

  module _ (hostname_of : String → Option String) (server : KeaDhcp4Server) where
    IsPlain-validated :
        (i : ℕ) (host : String) (r : Result Unit) (hosts hosts' : StringMap)
        → validate_hostname host ≡ r
        → (elim r [
          | ok u ↦ ok (put host (per_pod_host server i) hosts)
          | error e ↦ error ("HA peer " <> decimal i <> " URL: " <> e)
        ])
          ≡ ok hosts'
        → All IsPlain hosts
        → All IsPlain hosts'
    IsPlain-validated i host (ok u) hosts hosts' valid h all = rw (sym (ok-injective h)) (
        IsPlain-put host (per_pod_host server i) hosts
          (contains-validate_hostname k special host valid) all)
    IsPlain-validated i host (error e) hosts hosts' valid h all = cc

    IsPlain-add_host :
        (i : ℕ) (o : Option String) (hosts hosts' : StringMap)
        → add_host hostname_of server i o hosts ≡ ok hosts'
        → All IsPlain hosts
        → All IsPlain hosts'
    IsPlain-add_host i none hosts hosts' h all = rw (sym (ok-injective h)) all
    IsPlain-add_host i (some host) hosts hosts' h all =
        IsPlain-validated i host (validate_hostname host) hosts hosts' refl h all

    IsPlain-next :
        (next : StringMap → Result StringMap) (r : Result StringMap) (hosts' : StringMap)
        → (elim r [ ok hosts1 ↦ next hosts1 | error e ↦ error e ]) ≡ ok hosts'
        → ((hosts1 : StringMap) → r ≡ ok hosts1 → All IsPlain hosts1)
        → ((hosts1 : StringMap) → next hosts1 ≡ ok hosts' → All IsPlain hosts1 → All IsPlain hosts')
        → All IsPlain hosts'
    IsPlain-next next (ok hosts1) hosts' h before after = after hosts1 h (before hosts1 refl)
    IsPlain-next next (error e) hosts' h before after = cc

    -- The host names of the peers that are replaced in the configuration have no character that a shell
    -- reads specially, if the loop over the peers ends without an error.
    pub IsPlain-peer_hosts :
        (i : ℕ) (peers : List HaPeer) (hosts hosts' : StringMap)
        → peer_hosts hostname_of server i peers hosts ≡ ok hosts'
        → All IsPlain hosts
        → All IsPlain hosts'
    unfolding peer_hosts
    IsPlain-peer_hosts i [] hosts hosts' h all = rw (sym (ok-injective h)) all
    IsPlain-peer_hosts i (p ∷ ps) hosts hosts' h all =
        IsPlain-next (λ hosts1. peer_hosts hostname_of server (suc i) ps hosts1)
          (add_host hostname_of server i (hostname_of p.url) hosts) hosts' h
          (λ hosts1 added. IsPlain-add_host i (hostname_of p.url) hosts hosts1 added all)
          (λ hosts1 rest. IsPlain-peer_hosts (suc i) ps hosts1 hosts' rest)

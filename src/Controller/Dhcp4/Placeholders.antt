-- ===== src/Controller/Dhcp4/Placeholders.antt =====
-- Each database of a DHCPv4 server is rendered with the placeholders of its own Secret.
use Prim.Native.Nat.{ℕ, zero, suc, ◌+◌, ◌<◌, ◌≤◌}
use mathlib.Core.Option
use mathlib.Core.Option.{some-injective}
use kea_dhcp_operator.Base.{
  ◌≡◌, ◌∙◌, ap, refl, Option, none, some, List, [], ◌∷◌, get_elem?, set_elem, length, get_or, arith,
}
use kea_dhcp_operator.Api.Kube.{LocalObjectReference}
use kea_dhcp_operator.Api.Common.{DatabaseConfig}
use kea_dhcp_operator.Api.Dhcp4.{KeaDhcp4ServerSpec}
use kea_dhcp_operator.Render.Dhcp4.{DbCredentials, no_credentials, hosts_databases_objects}
use kea_dhcp_operator.Render.Parts.{database_object}
use kea_dhcp_operator.Controller.Dhcp4.Credentials.{
  placeholders, hosts_prefix, pad_to, with_hosts_credentials, hosts_credentials, credentials,
}

-- The credentials that the renderer uses for the database of an index.
abbrev credentials_at : List DbCredentials → ℕ → DbCredentials
credentials_at cs k = get_or (get_elem? cs k) no_credentials

pad_to_lem :
    (n : ℕ) (cs : List DbCredentials) (k : ℕ) → credentials_at (pad_to n cs) k ≡ credentials_at cs k
unfolding pad_to
pad_to_lem zero cs k = refl
pad_to_lem (suc n) [] zero = refl
pad_to_lem (suc n) [] (suc k) = pad_to_lem n [] k
pad_to_lem (suc n) (c ∷ cs) zero = refl
pad_to_lem (suc n) (c ∷ cs) (suc k) = pad_to_lem n cs k

at_set :
    (i : ℕ) (c : DbCredentials) (cs : List DbCredentials)
    → credentials_at (set_elem (pad_to (suc i) cs) i c) i ≡ c
unfolding pad_to
at_set zero c [] = refl
at_set zero c (d ∷ cs) = refl
at_set (suc i) c [] = at_set i c []
at_set (suc i) c (d ∷ cs) = at_set i c cs

at_other :
    (i k : ℕ) (c : DbCredentials) (cs : List DbCredentials)
    → k < i
    → credentials_at (set_elem cs i c) k ≡ credentials_at cs k
at_other zero k c cs h = ground (arith, h)
at_other (suc i) zero c [] h = refl
at_other (suc i) zero c (d ∷ cs) h = refl
at_other (suc i) (suc k) c [] h = refl
at_other (suc i) (suc k) c (d ∷ cs) h = at_other i k c cs (omega (arith, h))

length-set_elem :
    (cs : List DbCredentials) (i : ℕ) (c : DbCredentials) → length (set_elem cs i c) ≡ length cs
length-set_elem [] i c = refl
length-set_elem (d ∷ cs) zero c = refl
length-set_elem (d ∷ cs) (suc i) c = ap (λ (n : ℕ). suc n) (length-set_elem cs i c)

length-pad_to : (n : ℕ) (cs : List DbCredentials) → length cs ≤ n → length (pad_to n cs) ≡ n
unfolding pad_to
length-pad_to zero [] h = refl
length-pad_to zero (c ∷ cs) h = omega (arith, h)
length-pad_to (suc n) [] h = omega (arith, length-pad_to n [])
length-pad_to (suc n) (c ∷ cs) h = omega (arith, length-pad_to n cs)

beyond : (cs : List DbCredentials) (k : ℕ) → length cs ≤ k → credentials_at cs k ≡ no_credentials
beyond [] k h = refl
beyond (c ∷ cs) zero h = ground (arith, h)
beyond (c ∷ cs) (suc k) h = beyond cs k (omega (arith, h))

with_hosts_credentials_before :
    (i k : ℕ) (o : Option LocalObjectReference) (cs : List DbCredentials)
    → k < i
    → credentials_at (with_hosts_credentials i o cs) k ≡ credentials_at cs k
unfolding with_hosts_credentials
with_hosts_credentials_before i k none cs h = refl
with_hosts_credentials_before i k (some ref) cs h =
    at_other i k (placeholders (hosts_prefix i)) (pad_to (suc i) cs) h ∙ pad_to_lem (suc i) cs k

-- What an entry is rendered with, by its index and its Secret.
abbrev pub credentials_of : ℕ → Option LocalObjectReference → DbCredentials
credentials_of i none = no_credentials
credentials_of i (some ref) = placeholders (hosts_prefix i)

with_hosts_credentials_here :
    (i : ℕ) (o : Option LocalObjectReference) (cs : List DbCredentials)
    → length cs ≤ i
    → credentials_at (with_hosts_credentials i o cs) i ≡ credentials_of i o
unfolding with_hosts_credentials
with_hosts_credentials_here i none cs h = beyond cs i h
with_hosts_credentials_here i (some ref) cs h = at_set i (placeholders (hosts_prefix i)) cs

length-with_hosts_credentials :
    (i : ℕ) (o : Option LocalObjectReference) (cs : List DbCredentials)
    → length cs ≤ i
    → length (with_hosts_credentials i o cs) ≤ suc i
unfolding with_hosts_credentials
length-with_hosts_credentials i none cs h = omega (arith, h)
length-with_hosts_credentials i (some ref) cs h = omega (
  arith,
  length-set_elem (pad_to (suc i) cs) i (placeholders (hosts_prefix i)),
  length-pad_to (suc i) cs (omega (arith, h)),
)

hosts_credentials_before :
    (i k : ℕ) (dbs : List DatabaseConfig) (cs : List DbCredentials)
    → k < i
    → credentials_at (hosts_credentials i dbs cs) k ≡ credentials_at cs k
unfolding hosts_credentials
hosts_credentials_before i k [] cs h = refl
hosts_credentials_before i k (db ∷ dbs) cs h =
    hosts_credentials_before (suc i) k dbs _ (omega (arith, h))
    ∙ with_hosts_credentials_before i k db.credentials_secret_ref cs h

hosts_credentials_at :
    (i m k : ℕ) (dbs : List DatabaseConfig) (cs : List DbCredentials) (db : DatabaseConfig)
    → length cs ≤ i
    → k ≡ i + m
    → get_elem? dbs m ≡ some db
    → credentials_at (hosts_credentials i dbs cs) k ≡ credentials_of k db.credentials_secret_ref
unfolding hosts_credentials
hosts_credentials_at i m k [] cs db h e there = ground (arith, there)
hosts_credentials_at i zero k (d ∷ dbs) cs db h e there =
    let at_i : k ≡ i = omega (arith, e) in
    let this : d ≡ db = some-injective _ _ there in
    rw (at_i, ← this)
      (hosts_credentials_before (suc i) i dbs _ (omega arith)
        ∙ with_hosts_credentials_here i d.credentials_secret_ref cs h)
hosts_credentials_at i (suc m) k (d ∷ dbs) cs db h e there =
    hosts_credentials_at (suc i) m k dbs _ db
      (length-with_hosts_credentials i d.credentials_secret_ref cs h) (omega (arith, e)) there

get_elem?-hosts_databases_objects :
    (dbs : List DatabaseConfig) (cs : List DbCredentials) (k : ℕ)
    → get_elem? (hosts_databases_objects dbs cs) k
      ≡ Option.map
          (λ (db : DatabaseConfig).
            database_object db (credentials_at cs k).user (credentials_at cs k).password)
          (get_elem? dbs k)
unfolding hosts_databases_objects
get_elem?-hosts_databases_objects [] cs k = refl
get_elem?-hosts_databases_objects (db ∷ dbs) [] zero = refl
get_elem?-hosts_databases_objects (db ∷ dbs) [] (suc k) = get_elem?-hosts_databases_objects dbs [] k
get_elem?-hosts_databases_objects (db ∷ dbs) (c ∷ cs) zero = refl
get_elem?-hosts_databases_objects (db ∷ dbs) (c ∷ cs) (suc k) =
    get_elem?-hosts_databases_objects dbs cs k

-- Step 3 of the reconciliation: the entry of every hosts database is rendered with the placeholders of
-- its own index if it has a Secret, and with no credentials otherwise, whichever of the entries before
-- it have Secrets.
pub hosts_databases-credentials :
    (spec : KeaDhcp4ServerSpec) (k : ℕ) (db : DatabaseConfig)
    → get_elem? spec.hosts_databases k ≡ some db
    → get_elem?
        (hosts_databases_objects spec.hosts_databases (credentials spec).1.hosts_dbs_creds)
        k
      ≡ some (
          database_object db
            (credentials_of k db.credentials_secret_ref).user
            (credentials_of k db.credentials_secret_ref).password)
unfolding credentials
hosts_databases-credentials spec k db there =
    get_elem?-hosts_databases_objects spec.hosts_databases _ k
    ∙ rw (
      there,
      hosts_credentials_at 0 k k spec.hosts_databases [] db (omega arith) (omega arith) there,
    )

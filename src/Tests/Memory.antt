-- ===== src/Tests/Memory.antt =====
-- A client over objects in memory, which keeps the laws of the interface.
use kea_dhcp_operator.Base.{String, ◌≡◌, refl, ◌==◌, ◌&&◌, if◌then◌else◌, eq_iff}
use kea_dhcp_operator.Controller.Client.{done, Fetched, found, not_found, ChildApi, IsFaithful}

abbrev pub Memory : Type 0 → Type 0
Memory Object = String → String → Fetched Object

module _ {Object : Type 0} where
  abbrev pub put : String → String → Fetched Object → Memory Object → Memory Object
  put ns name v s ns' name' = if ns == ns' && name == name' then v else s ns' name'

  get-put :
      (ns name : String) (v : Fetched Object) (s : Memory Object) → put ns name v s ns name ≡ v
  get-put ns name v s = rw ((eq_iff ns ns).1 refl, (eq_iff name name).1 refl)

module _ {Child Spec : Type 0} (make : String → String → Spec → Child) where
  abbrev pub in_memory : ChildApi (Memory Child) Child Spec
  in_memory = record {
    get = λ ns name s. s ns name;
    delete = λ ns name s. (done, put ns name not_found s);
    create_or_update = λ ns name spec s. (done, put ns name (found (make ns name spec)) s);
  }

  pub in_memory-IsFaithful :
      (spec_of : Child → Spec)
      → ((ns name : String) (spec : Spec) → spec_of (make ns name spec) ≡ spec)
      → IsFaithful in_memory spec_of
  in_memory-IsFaithful spec_of kept = record {
    get-create_or_update = λ ns name spec s h.
        (make ns name spec, get-put ns name (found (make ns name spec)) s, kept ns name spec);
    get-delete = λ ns name s h. get-put ns name not_found s;
  }

-- ===== src/Placement/Eligible.antt =====
-- `Evaluate` finds exactly those hosts eligible that fit the request, and what an eligible host has
-- left.
use kvm_infrastructure_manag.Base.{
  ℕ, ◌≤◌, ◌≡◌, refl, sym, ◌∙◌, String, true, ◌↔◌, Option, none, some, List, [], ◌∷◌, arith, str_eq,
  All, ok,
}
use kvm_infrastructure_manag.Base.Sort.{sort, sort-All_iff}
use kvm_infrastructure_manag.Base.Text.{str_lt}
use kvm_infrastructure_manag.Placement.Types.{Request, AuthoritySnapshot, Evaluation}
use kvm_infrastructure_manag.Placement.Requirements.{ordered}
use kvm_infrastructure_manag.Placement.Capacity.{HostCapacity, extract_capacity}
use kvm_infrastructure_manag.Placement.Reasons.{pci_reasons, network_reasons, storage_reasons}
use kvm_infrastructure_manag.Placement.Evaluate.{
  reasons, capacity_reasons, numa_reasons, huge_page_reasons, available_vcpus, ledger_memory,
  ledger_pages, required_pages, is_nil, undigested, evaluate,
}
use kvm_infrastructure_manag.Placement.Conditions.{reason_iff, append_iff, each_iff, lt_iff}
use kvm_infrastructure_manag.Placement.HostFits.{IsOpen, general_iff, PciFits, pci_iff}
use kvm_infrastructure_manag.Placement.PartFits.{NetworkFits, network_iff, StorageFits, storage_iff}

abbrev pub NumaFits : String → Option ℕ → HostCapacity → Type 0
NumaFits policy none c = Unit
NumaFits policy (some n) c = str_eq policy "REQUIRED" ≡ true → n ≤ c.numa_nodes

numa_iff :
    (policy : String) (o : Option ℕ) (c : HostCapacity)
    → (numa_reasons policy o c ≡ []) ↔ NumaFits policy o c
numa_iff policy none c = (λ _. tt, λ _. refl)
numa_iff policy (some n) c = (λ h k. ground arith, λ h. ground arith)

abbrev pub PagesFit : Option ℕ → Request → AuthoritySnapshot → HostCapacity → Type 0
PagesFit none r a c = Unit
PagesFit (some size) r a c = required_pages r size ≤ ledger_pages a c size

pages_iff :
    (o : Option ℕ) (r : Request) (a : AuthoritySnapshot) (c : HostCapacity)
    → (huge_page_reasons o r a c ≡ []) ↔ PagesFit o r a c
pages_iff none r a c = (λ _. tt, λ _. refl)
pages_iff (some size) r a c = reason_iff _ (lt_iff (ledger_pages a c size) (required_pages r size))

abbrev pub CapacityFits : Request → AuthoritySnapshot → HostCapacity → Type 0
CapacityFits r a c =
    (r.vcpus ≤ available_vcpus r a c)
    × (r.memory_mib ≤ ledger_memory a c)
    × NumaFits r.numa_policy r.numa_nodes c
    × PagesFit r.huge_page_size_kib r a c

capacity_iff :
    (r : Request) (a : AuthoritySnapshot) (c : HostCapacity)
    → (capacity_reasons r a c ≡ []) ↔ CapacityFits r a c
unfolding capacity_reasons
capacity_iff r a c =
    let cpu = reason_iff "insufficient_vcpu_capacity" (lt_iff (available_vcpus r a c) r.vcpus) in
    let memory =
      reason_iff "insufficient_memory_capacity" (lt_iff (ledger_memory a c) r.memory_mib) in
    let nodes = numa_iff r.numa_policy r.numa_nodes c in
    let f =
      append_iff (append_iff (append_iff cpu memory) nodes)
        (pages_iff r.huge_page_size_kib r a c) in
    (λ h. let x = f.0 h in (x.0.0.0, x.0.0.1, x.0.1, x.1), λ x. f.1 (((x.0, x.1), x.2), x.3))

-- The host fits the request.
pub record IsEligible (r : Request) (a : AuthoritySnapshot) : Type 0 where
  pub open_host : IsOpen r a
  pub pci : All (PciFits a) r.pci
  pub network : All (NetworkFits r a) r.network
  pub storage : All (StorageFits a) r.storage
  pub topology : (extract_capacity a.inventory).1 ≡ []
  pub capacity : CapacityFits r a (extract_capacity a.inventory).0

nil_iff : (l : List String) → (l ≡ []) ↔ (l ≡ [])
nil_iff l = (λ h. h, λ h. h)

reasons_iff : (r : Request) (a : AuthoritySnapshot) → (reasons r a ≡ []) ↔ IsEligible r a
unfolding reasons
reasons_iff r a =
    let f =
      append_iff
        (append_iff
          (append_iff
            (append_iff (append_iff (general_iff r a) (each_iff (pci_reasons a) (pci_iff a) r.pci))
              (each_iff (network_reasons r a) (network_iff r a) r.network))
            (each_iff (storage_reasons a) (storage_iff a) r.storage))
          (nil_iff (extract_capacity a.inventory).1))
        (capacity_iff r a (extract_capacity a.inventory).0) in
    (
      λ h.
          let x = f.0 h in
          record {
            open_host = x.0.0.0.0.0;
            pci = x.0.0.0.0.1;
            network = x.0.0.0.1;
            storage = x.0.0.1;
            topology = x.0.1;
            capacity = x.1;
          },
      λ e. f.1 (((((e.open_host, e.pci), e.network), e.storage), e.topology), e.capacity),
    )

pages_ordered :
    (o : Option ℕ) (r : Request) (a : AuthoritySnapshot) (c : HostCapacity)
    → PagesFit o (ordered r) a c ↔ PagesFit o r a c
unfolding ordered required_pages
pages_ordered none r a c = (λ h. h, λ h. h)
pages_ordered (some size) r a c = (λ h. h, λ h. h)

-- The order of the requirements does not matter.
ordered_iff : (r : Request) (a : AuthoritySnapshot) → IsEligible (ordered r) a ↔ IsEligible r a
unfolding ordered available_vcpus required_pages
ordered_iff r a =
    let p = sort-All_iff (λ x y. str_lt x.device_address y.device_address) (PciFits a) r.pci in
    let n = sort-All_iff (λ x y. str_lt x.port_id y.port_id) (NetworkFits r a) r.network in
    let s = sort-All_iff (λ x y. str_lt x.volume_id y.volume_id) (StorageFits a) r.storage in
    let c = (extract_capacity a.inventory).0 in
    let g = pages_ordered r.huge_page_size_kib r a c in
    (
      λ e. record {
        open_host = e.open_host;
        pci = p.0 e.pci;
        network = n.0 e.network;
        storage = s.0 e.storage;
        topology = e.topology;
        capacity = (e.capacity.0, e.capacity.1, e.capacity.2, g.0 e.capacity.3);
      },
      λ e. record {
        open_host = e.open_host;
        pci = p.1 e.pci;
        network = n.1 e.network;
        storage = s.1 e.storage;
        topology = e.topology;
        capacity = (e.capacity.0, e.capacity.1, e.capacity.2, g.1 e.capacity.3);
      },
    )

is_nil_iff : (l : List String) → (is_nil l ≡ true) ↔ (l ≡ [])
is_nil_iff [] = (λ _. refl, λ _. refl)
is_nil_iff (x ∷ l) = (λ h. cc, λ h. cc)

none_iff : (l : List String) → (l ≡ []) ↔ All (λ x. ⊥) l
none_iff [] = (λ _. tt, λ _. refl)
none_iff (x ∷ l) = (λ h. cc, λ h. absurd h.0)

sort_nil_iff : (l : List String) → (sort str_lt l ≡ []) ↔ (l ≡ [])
sort_nil_iff l =
    let f = sort-All_iff str_lt (λ x. ⊥) l in
    let s = none_iff (sort str_lt l) in
    let n = none_iff l in (λ h. n.1 (f.0 (s.0 h)), λ h. s.1 (f.1 (n.0 h)))

module _ (request_digest : Request → String) (evaluation_digest : Evaluation → String) where
  evaluate-eq-ok :
      (r : Request) (a : AuthoritySnapshot) (e : Evaluation)
      → evaluate request_digest evaluation_digest r a ≡ ok e
      → e.eligible ≡ is_nil (sort str_lt (reasons (ordered r) a))
  unfolding evaluate undigested
  evaluate-eq-ok r a e h = ground arith

  -- Of an evaluation that `evaluate` returns: the host is eligible exactly when it fits the request
  -- as given. The pool, the readiness and the evidence are open, each PCI device, port and volume
  -- finds the authority it needs, the inventory has no topology fault, and the CPUs, the memory,
  -- the NUMA nodes and the huge pages are enough.
  pub eligible_iff :
      (r : Request) (a : AuthoritySnapshot) (e : Evaluation)
      → evaluate request_digest evaluation_digest r a ≡ ok e
      → (e.eligible ≡ true) ↔ IsEligible r a
  eligible_iff r a e h =
      let codes = reasons (ordered r) a in
      let nil = is_nil_iff (sort str_lt codes) in
      let sorted = sort_nil_iff codes in
      let fits = reasons_iff (ordered r) a in
      let order = ordered_iff r a in
      let flag = evaluate-eq-ok r a e h in
      (
        λ k. order.0 (fits.0 (sorted.0 (nil.0 (sym flag ∙ k)))),
        λ k. flag ∙ nil.1 (sorted.1 (fits.1 (order.1 k))),
      )

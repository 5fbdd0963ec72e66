-- ===== src/Placement/Evaluate.antt =====
-- internal/placement/evaluator.go: `Evaluate` and `Select`. `request_digest` and
-- `evaluation_digest` stand for the SHA-256 of the JSON text, which these structures always have.
use kvm_infrastructure_manag.Base.{
  ℕ, ◌/◌, String, Bool, true, false, ◌||◌, not, Option, none, some, List, [], ◌∷◌, ◌++◌, ltb,
  if◌then◌else◌, str_eq, Result, ok, err,
}
use kvm_infrastructure_manag.Base.Ints.{ℤ, pos, eq_int, lt_int}
use kvm_infrastructure_manag.Base.Words.{add64, sub64, mul64, to_int64}
use kvm_infrastructure_manag.Base.Sort.{sort}
use kvm_infrastructure_manag.Base.Text.{str_lt}
use kvm_infrastructure_manag.Placement.Types.{Request, AuthoritySnapshot, Evaluation}
use kvm_infrastructure_manag.Placement.Requirements.{Error, ordered, check}
use kvm_infrastructure_manag.Placement.Reasons.{
  reason, general_reasons, pci_reasons, network_reasons, storage_reasons, each,
}
use kvm_infrastructure_manag.Placement.Capacity.{
  HostCapacity, extract_capacity, saturating_subtract, ceil_divide,
}

-- The virtual CPUs that are left: isolated ones for a pinned or dedicated request.
unfoldable pub available_vcpus : Request → AuthoritySnapshot → HostCapacity → ℕ
available_vcpus r a c =
    if r.cpu_pinning || str_eq r.cpu_allocation "DEDICATED"
    then saturating_subtract c.isolated_vcpus a.claimed_vcpus
    else saturating_subtract c.vcpus a.claimed_vcpus

unfoldable pub ledger_memory : AuthoritySnapshot → HostCapacity → ℕ
ledger_memory a c =
    let ledger = saturating_subtract c.memory_mib a.claimed_memory_mib in
    if ltb c.observed_available_memory_mib ledger then c.observed_available_memory_mib else ledger

abbrev pub numa_reasons : String → Option ℕ → HostCapacity → List String
numa_reasons policy none c = []
numa_reasons policy (some n) c =
    if str_eq policy "REQUIRED" then reason (ltb c.numa_nodes n) "insufficient_numa_nodes" else []

unfoldable pub required_pages : Request → ℕ → ℕ
required_pages r size = ceil_divide (mul64 r.memory_mib 1024) size

unfoldable pub ledger_pages : AuthoritySnapshot → HostCapacity → ℕ → ℕ
ledger_pages a c size =
    let ledger = saturating_subtract (c.huge_page_total size) (a.claimed_huge_pages size) in
    if ltb (c.huge_page_free size) ledger then c.huge_page_free size else ledger

abbrev pub huge_page_reasons : Option ℕ → Request → AuthoritySnapshot → HostCapacity → List String
huge_page_reasons none r a c = []
huge_page_reasons (some size) r a c =
    reason (ltb (ledger_pages a c size) (required_pages r size)) "insufficient_hugepage_capacity"

abbrev pub huge_page_claim : Request → ℕ
huge_page_claim r = elim r.huge_page_size_kib [ none ↦ 0 | some size ↦ required_pages r size ]

unfoldable pub capacity_reasons : Request → AuthoritySnapshot → HostCapacity → List String
capacity_reasons r a c =
    reason (ltb (available_vcpus r a c) r.vcpus) "insufficient_vcpu_capacity"
    ++ reason (ltb (ledger_memory a c) r.memory_mib) "insufficient_memory_capacity"
    ++ numa_reasons r.numa_policy r.numa_nodes c
    ++ huge_page_reasons r.huge_page_size_kib r a c

-- All the reasons, in the order in which they are added.
unfoldable pub reasons : Request → AuthoritySnapshot → List String
reasons r a =
    let (c, unavailable) = extract_capacity a.inventory in
    general_reasons r a
    ++ each (pci_reasons a) r.pci
    ++ each (network_reasons r a) r.network
    ++ each (storage_reasons a) r.storage
    ++ unavailable
    ++ capacity_reasons r a c

unfoldable pub score : Request → AuthoritySnapshot → ℤ
score r a =
    let (c, unavailable) = extract_capacity a.inventory in
    let cpu = sub64 (available_vcpus r a c) r.vcpus in
    let memory_gib = (sub64 (ledger_memory a c) r.memory_mib) / 1024 in
    to_int64 (add64 (mul64 cpu 1000) memory_gib)

abbrev pub is_nil : List String → Bool
is_nil [] = true
is_nil (s ∷ ss) = false

module _ (request_digest : Request → String) (evaluation_digest : Evaluation → String) where
  -- The evaluation of an ordered and valid request, with no digest of its own.
  unfoldable pub undigested : Request → AuthoritySnapshot → Evaluation
  undigested r a =
      let codes = sort str_lt (reasons r a) in
      record {
        request_id = r.request_id;
        request_digest = request_digest r;
        host_id = a.host_id;
        pool_id = a.pool_id;
        image_id = r.image_id;
        flavor_id = r.flavor_id;
        image_revision = r.image_revision;
        flavor_revision = r.flavor_revision;
        flavor_shape_digest = r.flavor_shape_digest;
        eligible = is_nil codes;
        reason_codes = codes;
        score = if is_nil codes then score r a else pos 0;
        evaluation_digest = "";
        pool_generation = a.pool_generation;
        membership_set_generation = a.membership_set_generation;
        membership_generation = a.membership_generation;
        hierarchy_id = a.hierarchy_id;
        hierarchy_generation = a.hierarchy_generation;
        pool_policy_id = a.pool_policy_id;
        pool_policy_generation = a.pool_policy_generation;
        capability_generation = a.capability_generation;
        baseline_assignment_generation = a.baseline_assignment_generation;
        preflight_generation = a.preflight_generation;
        compliance_generation = a.compliance_generation;
        required_claim = record {
          vcpus = r.vcpus;
          memory_mib = r.memory_mib;
          huge_page_size_kib = r.huge_page_size_kib;
          huge_page_pages = huge_page_claim r;
          cpu_allocation = r.cpu_allocation;
        };
      }

  unfoldable pub evaluate : Request → AuthoritySnapshot → Result Error Evaluation
  evaluate request a =
      let r = ordered request in
      elim (check r) [
        | some e ↦ err e
        | none ↦ let e = undigested r a in ok (record e { evaluation_digest = evaluation_digest e })
      ]

-- The eligible evaluations.
unfoldable pub eligible_only : List Evaluation → List Evaluation
eligible_only [] = []
eligible_only (e ∷ es) = if e.eligible then e ∷ eligible_only es else eligible_only es

-- Higher scores first, then the smaller Host identity.
abbrev pub ranks_before : Evaluation → Evaluation → Bool
ranks_before a b =
    if not (eq_int a.score b.score) then lt_int b.score a.score else str_lt a.host_id b.host_id

unfoldable pub select : List Evaluation → List Evaluation
select evaluations = sort ranks_before (eligible_only evaluations)

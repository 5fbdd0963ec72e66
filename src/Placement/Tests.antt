-- ===== src/Placement/Tests.antt =====
-- The theorems on the placement of a virtual machine at a concrete host, and runs of `Evaluate`.
use kvm_infrastructure_manag.Base.{
  ◌+◌, ◌≤◌, ◌↔◌, ◌≡◌, refl, String, true, false, none, some, List, [], ◌∷◌, ◌++◌, arith, ok, err,
  All, str_eq, if◌then◌else◌,
}
use kvm_infrastructure_manag.Base.Ints.{pos}
use kvm_infrastructure_manag.Base.Sort.{sort}
use kvm_infrastructure_manag.Base.Words.{add64, sub64, mul64, to_int64}
use kvm_infrastructure_manag.Inventory.Model.{Snapshot, Fragment, Source, Capability}
use kvm_infrastructure_manag.Placement.Types.{
  Request, AuthoritySnapshot, PciRequirement, StorageRequirement, StorageAuthority,
  PciDeviceAuthority, Evaluation,
}
use kvm_infrastructure_manag.Placement.Requirements.{
  attachment_duplicate, pci_valid, check_pci, check_network, resource_contract, storage_valid,
  check_storage, ordered, check,
}
use kvm_infrastructure_manag.Placement.Capacity.{
  saturating_subtract, saturating_add, ceil_divide, capability_available, count_thread,
  count_threads, count_pools, scan_memory, scan_fragment, scan_fragments, extract_capacity,
}
use kvm_infrastructure_manag.Placement.Reasons.{
  add_reasons, general_reasons, device_reasons, pci_reasons, network_reasons, ledger_available,
  volume_reasons, storage_reasons, each,
}
use kvm_infrastructure_manag.Placement.Evaluate.{
  available_vcpus, ledger_memory, required_pages, ledger_pages, capacity_reasons, reasons, score,
  undigested, evaluate, eligible_only, select,
}
use kvm_infrastructure_manag.Placement.Eligible.{IsEligible, eligible_iff}
use kvm_infrastructure_manag.Placement.Overcommit.{no_overcommit, cpu_pool, RoomFor, WordsFor}
use kvm_infrastructure_manag.Placement.Accepted.{Distinct, attachments, evaluate-Distinct}
use kvm_infrastructure_manag.Placement.Ranking.{select_lem, IsEligibleOne, IsRefusedOne, IsRanked}
use mathlib.Core.List.{Perm}

abbrev request_digest : Request → String
request_digest r = "request"

abbrev evaluation_digest : Evaluation → String
evaluation_digest e = "evaluation"

abbrev device : PciRequirement
device = record {
  device_address = "0000:01:00.1";
  policy_id = "policy";
  qualification_id = "qualified";
  required_iommu_group = "";
  policy_generation = 1;
  qualification_revision = 2;
  required_numa_node_id = some (pos 0);
  handoff_id = "";
  source_claim_id = "";
  source_device_address = "";
  source_host_id = "";
  source_retirement_evidence_id = "";
  source_allocation_generation = 0;
}

abbrev volume : StorageRequirement
volume = record {
  volume_id = "v1";
  attachment_id = "a1";
  backend_id = "b1";
  vg_uuid = "vg";
  storage_class_id = "fast";
  capacity_allocation_id = "";
  backend_generation = 1;
  storage_class_revision = 1;
  capacity_generation = 1;
  attachment_generation = 1;
  capacity_allocation_generation = 0;
  attachment_intent_generation = 0;
  fencing_policy_revision = 1;
  size_bytes = 100;
  access_mode = "SINGLE_WRITER";
  bootable = true;
  volume_revision = 0;
  attachment_intent_id = "";
}

abbrev request : Request
request = record {
  request_id = "r";
  project_id = "p";
  workload_id = "w";
  image_id = "i";
  flavor_id = "f";
  pool_id = "pool";
  image_revision = 1;
  flavor_revision = 1;
  flavor_shape_digest = "shape";
  vcpus = 1;
  memory_mib = 2;
  root_disk_gib = 0;
  numa_policy = "REQUIRED";
  cpu_allocation = "SHARED";
  numa_nodes = some 1;
  huge_page_size_kib = some 2048;
  cpu_pinning = false;
  catalog_access_allowed = true;
  extra_specs = λ k. none;
  pci = device ∷ [];
  network = [];
  storage = volume ∷ [];
}

abbrev device_authority : PciDeviceAuthority
device_authority = record {
  device_address = "0000:01:00.1";
  observation_state = "AVAILABLE";
  relationship_state = "AVAILABLE";
  pf_address = "0000:01:00.0";
  iommu_group = "7";
  numa_node_id = pos 0;
  vf_index = pos 1;
  observation_generation = 5;
  qualification_id = "qualified";
  binding_state = "CURRENT";
  binding_profile = "profile";
  qualification_revision = 2;
  binding_generation = 5;
  policy_id = "policy";
  policy_state = "ALLOWED";
  policy_profile = "profile";
  policy_generation = 1;
  assignment_qualified = true;
  active_claim = false;
}

abbrev backend : StorageAuthority
backend = record {
  volume_id = "v1";
  attachment_id = "a1";
  backend_id = "b1";
  backend_type = "LOCAL_LVM";
  backend_state = "ACTIVE";
  backend_host_id = "host";
  vg_uuid = "vg";
  capability_state = "CURRENT";
  support_tier = "SUPPORTED";
  storage_class_id = "fast";
  storage_class_state = "ACTIVE";
  allowed_backend_type = "LOCAL_LVM";
  locality = "HOST_LOCAL";
  capacity_state = "CURRENT";
  health_state = "HEALTHY";
  backend_generation = 1;
  backend_capability_generation = 5;
  storage_class_revision = 1;
  fencing_policy_revision = 1;
  capacity_generation = 1;
  total_bytes = 1000;
  observed_free_bytes = 800;
  external_or_unknown_bytes = 10;
  hard_reserve_bytes = 100;
  claimed_bytes = 50;
  single_writer_allowed = true;
  thin_provisioning = false;
  encryption_required = false;
  volume_conflict = false;
  attachment_conflict = false;
  resource_consumer_ready = false;
}

abbrev module_source : Source
module_source = record {
  module_name = "linux";
  module_version = "1";
  schema_version = "1";
  artifact_digest = "sha";
}

abbrev available : String → Capability
available name = record {
  name = name;
  version = "v1";
  state = "AVAILABLE";
  reason_code = "";
  constraints = [];
}

abbrev cpus : Fragment
cpus = record {
  domain = "COMPUTE";
  source = module_source;
  evidence = [];
  capabilities = available "kim.host.cpu-topology.v1" ∷ [];
  compute = some (record {
    architecture = "x86_64";
    cpu_model = "cpu";
    threads =
        record {
          linux_id = pos 0;
          core_id = pos 0;
          socket_id = pos 0;
          numa_node_id = pos 0;
          online = true;
          isolated = false;
        }
        ∷ record {
          linux_id = pos 1;
          core_id = pos 1;
          socket_id = pos 0;
          numa_node_id = pos 0;
          online = true;
          isolated = true;
        }
        ∷ [];
  });
  memory = none;
  pci = none;
  network = none;
  storage = none;
  virtualization = none;
}

abbrev ram : Fragment
ram = record {
  domain = "MEMORY";
  source = module_source;
  evidence = [];
  capabilities = available "kim.host.memory.v1" ∷ [];
  compute = none;
  memory = some (record {
    total_bytes = 16777216;
    available_bytes = 8388608;
    numa_nodes =
        record { linux_id = pos 0; cpu_thread_ids = []; memory_total_bytes = 16777216 } ∷ [];
    huge_page_pools =
        record {
          numa_node_id = some (pos 0);
          page_size_bytes = 2097152;
          total_pages = 4;
          free_pages = 3;
          reserved_pages = 0;
          surplus_pages = 0;
        }
        ∷ [];
  });
  pci = none;
  network = none;
  storage = none;
  virtualization = none;
}

abbrev inventory : Snapshot
inventory = record {
  schema_version = "1";
  host_identity = "host";
  observation_generation = 5;
  collection_status = "COMPLETE";
  capabilities = [];
  fragments = cpus ∷ ram ∷ [];
}

abbrev authority : AuthoritySnapshot
authority = record {
  database_mode = "ACTIVE";
  host_id = "host";
  pool_id = "pool";
  pool_generation = 1;
  membership_set_generation = 1;
  membership_generation = 1;
  hierarchy_id = "h";
  hierarchy_generation = 1;
  pool_policy_id = "pp";
  pool_policy_generation = 1;
  pool_state = "ACTIVE";
  membership_state = "ACTIVE";
  capability_generation = 5;
  readiness_capability_generation = 5;
  capability_state = "CURRENT";
  readiness_state = "READY";
  preflight_state = "PASSED";
  compliance_state = "COMPLIANT";
  baseline_assignment_generation = 1;
  preflight_generation = 1;
  compliance_generation = 1;
  inventory = inventory;
  claimed_vcpus = 1;
  claimed_memory_mib = 4;
  claimed_huge_pages = λ size. 1;
  pci_devices = λ address. if str_eq address "0000:01:00.1" then some device_authority else none;
  networks = λ port. none;
  storage = λ v. if str_eq v "v1" then some backend else none;
}

abbrev found : Evaluation
found = record (undigested request_digest evaluation_digest request authority) {
  evaluation_digest = "evaluation";
}

evaluate-found : evaluate request_digest evaluation_digest request authority ≡ ok found
unfolding evaluate undigested ordered check check_pci pci_valid check_network check_storage
    storage_valid resource_contract sort reasons general_reasons each pci_reasons device_reasons
    add_reasons storage_reasons volume_reasons ledger_available extract_capacity scan_fragments
    scan_fragment capability_available count_threads count_thread scan_memory count_pools
    saturating_subtract saturating_add ceil_divide add64 sub64 mul64 capacity_reasons
    available_vcpus ledger_memory required_pages ledger_pages score to_int64 eligible_only select
    network_reasons
evaluate-found = refl

found-eligible : found.eligible ≡ true
unfolding evaluate undigested ordered check check_pci pci_valid check_network check_storage
    storage_valid resource_contract sort reasons general_reasons each pci_reasons device_reasons
    add_reasons storage_reasons volume_reasons ledger_available extract_capacity scan_fragments
    scan_fragment capability_available count_threads count_thread scan_memory count_pools
    saturating_subtract saturating_add ceil_divide add64 sub64 mul64 capacity_reasons
    available_vcpus ledger_memory required_pages ledger_pages score to_int64 eligible_only select
    network_reasons
found-eligible = refl

eligible_iff_example : (found.eligible ≡ true) ↔ IsEligible request authority
eligible_iff_example =
    eligible_iff request_digest evaluation_digest request authority found evaluate-found

words : WordsFor authority volume
words =
    (record { total = ground arith; reserve = ground arith; claimed = ground arith }, ground arith)

no_overcommit_example :
    let c = (extract_capacity inventory).0 in
    (1 + 1 ≤ cpu_pool request c)
    × (4 + 2 ≤ c.memory_mib)
    × (2 ≤ c.observed_available_memory_mib)
    × All (RoomFor authority) (volume ∷ [])
no_overcommit_example =
    no_overcommit request_digest evaluation_digest request authority found evaluate-found
      found-eligible (ground arith) (ground arith) (words, tt)

-- A host with a greater score that is given later, and one that is not eligible.
abbrev better : Evaluation
better = record found { host_id = "better"; score = pos 2000000 }

abbrev refused_one : Evaluation
refused_one = record found { host_id = "refused"; eligible = false }

best_first : select (found ∷ refused_one ∷ better ∷ []) ≡ better ∷ found ∷ []
unfolding evaluate undigested ordered check check_pci pci_valid check_network check_storage
    storage_valid resource_contract sort reasons general_reasons each pci_reasons device_reasons
    add_reasons storage_reasons volume_reasons ledger_available extract_capacity scan_fragments
    scan_fragment capability_available count_threads count_thread scan_memory count_pools
    saturating_subtract saturating_add ceil_divide add64 sub64 mul64 capacity_reasons
    available_vcpus ledger_memory required_pages ledger_pages score to_int64 eligible_only select
    network_reasons
best_first = refl

select_lem_example :
    ((rest : List Evaluation) × All IsRefusedOne rest
      × Perm
          (select (found ∷ refused_one ∷ better ∷ []) ++ rest)
          (found ∷ refused_one ∷ better ∷ []))
    × All IsEligibleOne (select (found ∷ refused_one ∷ better ∷ []))
    × IsRanked (select (found ∷ refused_one ∷ better ∷ []))
select_lem_example = select_lem (found ∷ refused_one ∷ better ∷ [])

-- Each of two volumes on one backend fits by itself, so that the host is eligible, though together
-- they ask for 1400 bytes where 850 are left.
abbrev small_backend : StorageAuthority
small_backend = record backend {
  total_bytes = 1000;
  hard_reserve_bytes = 100;
  claimed_bytes = 50;
  observed_free_bytes = 1000;
  external_or_unknown_bytes = 0;
}

abbrev small_authority : AuthoritySnapshot
small_authority = record authority {
  storage = λ v.
      if str_eq v "v1"
      then some small_backend
      else some (record small_backend { volume_id = "v2"; attachment_id = "a2" });
}

abbrev two_volumes : Request
two_volumes = record request {
  storage =
      record volume { size_bytes = 700 }
      ∷ record volume { volume_id = "v2"; attachment_id = "a2"; size_bytes = 700; bootable = false }
      ∷ [];
}

volumes_overcommitted :
    (undigested request_digest evaluation_digest two_volumes small_authority).eligible ≡ true
unfolding evaluate undigested ordered check check_pci pci_valid check_network check_storage
    storage_valid resource_contract sort reasons general_reasons each pci_reasons device_reasons
    add_reasons storage_reasons volume_reasons ledger_available extract_capacity scan_fragments
    scan_fragment capability_available count_threads count_thread scan_memory count_pools
    saturating_subtract saturating_add ceil_divide add64 sub64 mul64 capacity_reasons
    available_vcpus ledger_memory required_pages ledger_pages score to_int64 eligible_only select
    network_reasons
volumes_overcommitted = refl

volumes_accepted : check two_volumes ≡ none
unfolding check check_pci pci_valid check_network check_storage storage_valid resource_contract sort
    ordered
volumes_accepted = refl

-- Two volumes with one attachment are refused.
attachment_repeated :
    evaluate request_digest evaluation_digest
      (record request { storage = volume ∷ record volume { volume_id = "v0" } ∷ [] })
      authority
    ≡ err (attachment_duplicate "a1")
unfolding evaluate undigested ordered check check_pci pci_valid check_network check_storage
    storage_valid resource_contract sort reasons general_reasons each pci_reasons device_reasons
    add_reasons storage_reasons volume_reasons ledger_available extract_capacity scan_fragments
    scan_fragment capability_available count_threads count_thread scan_memory count_pools
    saturating_subtract saturating_add ceil_divide add64 sub64 mul64 capacity_reasons
    available_vcpus ledger_memory required_pages ledger_pages score to_int64 eligible_only select
    network_reasons
attachment_repeated = refl

-- A host with no CPU left is refused, by that reason alone.
no_vcpus :
    (undigested request_digest evaluation_digest request
      (record authority { claimed_vcpus = 2 })).reason_codes
    ≡ "insufficient_vcpu_capacity" ∷ []
unfolding evaluate undigested ordered check check_pci pci_valid check_network check_storage
    storage_valid resource_contract sort reasons general_reasons each pci_reasons device_reasons
    add_reasons storage_reasons volume_reasons ledger_available extract_capacity scan_fragments
    scan_fragment capability_available count_threads count_thread scan_memory count_pools
    saturating_subtract saturating_add ceil_divide add64 sub64 mul64 capacity_reasons
    available_vcpus ledger_memory required_pages ledger_pages score to_int64 eligible_only select
    network_reasons
no_vcpus = refl

evaluate-Distinct_example : Distinct (attachments (ordered request).storage)
evaluate-Distinct_example =
    evaluate-Distinct request_digest evaluation_digest request authority found evaluate-found

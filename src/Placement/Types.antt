-- ===== src/Placement/Types.antt =====
-- internal/placement/evaluator.go: the request, the authority snapshot and the evaluation. A map is
-- a function: into Option where the code tells a missing key apart, and else with the zero value. A
-- uint64 or uint32 is a ℕ; where the code adds, multiplies or subtracts, the wrap is written out.
use kvm_infrastructure_manag.Base.{ℕ, String, Bool, Option, List}
use kvm_infrastructure_manag.Base.Ints.{ℤ}
use kvm_infrastructure_manag.Inventory.Model.{Snapshot}

pub record PciRequirement : Type 0 where
  pub device_address : String
  pub policy_id : String
  pub qualification_id : String
  pub required_iommu_group : String
  pub policy_generation : ℕ
  pub qualification_revision : ℕ
  pub required_numa_node_id : Option ℤ
  pub handoff_id : String
  pub source_claim_id : String
  pub source_device_address : String
  pub source_host_id : String
  pub source_retirement_evidence_id : String
  pub source_allocation_generation : ℕ

pub record NetworkRequirement : Type 0 where
  pub port_id : String
  pub network_id : String
  pub subnet_id : String
  pub segment_claim_id : String
  pub ip_address : String
  pub mac_address : String
  pub binding_type : String
  pub device_address : String
  pub allocation_source : String
  pub network_generation : ℕ
  pub subnet_generation : ℕ
  pub segment_generation : ℕ
  pub host_mapping_generation : ℕ
  pub required_mtu : ℕ
  pub handoff_id : String
  pub source_host_id : String
  pub source_quiescence_evidence_id : String
  pub source_quiescence_evidence_digest : String
  pub source_port_generation : ℕ
  pub source_binding_generation : ℕ
  pub destination_port_generation : ℕ
  pub destination_binding_generation : ℕ
  pub port_revision : ℕ
  pub attachment_intent_id : String

pub record StorageRequirement : Type 0 where
  pub volume_id : String
  pub attachment_id : String
  pub backend_id : String
  pub vg_uuid : String
  pub storage_class_id : String
  pub capacity_allocation_id : String
  pub backend_generation : ℕ
  pub storage_class_revision : ℕ
  pub capacity_generation : ℕ
  pub attachment_generation : ℕ
  pub capacity_allocation_generation : ℕ
  pub attachment_intent_generation : ℕ
  pub fencing_policy_revision : ℕ
  pub size_bytes : ℕ
  pub access_mode : String
  pub bootable : Bool
  pub volume_revision : ℕ
  pub attachment_intent_id : String

pub record Request : Type 0 where
  pub request_id : String
  pub project_id : String
  pub workload_id : String
  pub image_id : String
  pub flavor_id : String
  pub pool_id : String
  pub image_revision : ℕ
  pub flavor_revision : ℕ
  pub flavor_shape_digest : String
  pub vcpus : ℕ
  pub memory_mib : ℕ
  pub root_disk_gib : ℕ
  pub numa_policy : String
  pub cpu_allocation : String
  pub numa_nodes : Option ℕ
  pub huge_page_size_kib : Option ℕ
  pub cpu_pinning : Bool
  pub catalog_access_allowed : Bool
  pub extra_specs : String → Option String
  pub pci : List PciRequirement
  pub network : List NetworkRequirement
  pub storage : List StorageRequirement

pub record PciDeviceAuthority : Type 0 where
  pub device_address : String
  pub observation_state : String
  pub relationship_state : String
  pub pf_address : String
  pub iommu_group : String
  pub numa_node_id : ℤ
  pub vf_index : ℤ
  pub observation_generation : ℕ
  pub qualification_id : String
  pub binding_state : String
  pub binding_profile : String
  pub qualification_revision : ℕ
  pub binding_generation : ℕ
  pub policy_id : String
  pub policy_state : String
  pub policy_profile : String
  pub policy_generation : ℕ
  pub assignment_qualified : Bool
  pub active_claim : Bool

pub record NetworkAuthority : Type 0 where
  pub port_id : String
  pub network_id : String
  pub network_state : String
  pub network_project_id : String
  pub subnet_id : String
  pub subnet_state : String
  pub segment_claim_id : String
  pub segment_state : String
  pub mapping_state : String
  pub network_generation : ℕ
  pub subnet_generation : ℕ
  pub segment_generation : ℕ
  pub host_mapping_generation : ℕ
  pub network_mtu : ℕ
  pub mapping_maximum_mtu : ℕ
  pub ip_address_allowed : Bool
  pub identity_conflict : Bool
  pub port_conflict : Bool
  pub binding_supported : Bool
  pub handoff_ready : Bool

pub record StorageAuthority : Type 0 where
  pub volume_id : String
  pub attachment_id : String
  pub backend_id : String
  pub backend_type : String
  pub backend_state : String
  pub backend_host_id : String
  pub vg_uuid : String
  pub capability_state : String
  pub support_tier : String
  pub storage_class_id : String
  pub storage_class_state : String
  pub allowed_backend_type : String
  pub locality : String
  pub capacity_state : String
  pub health_state : String
  pub backend_generation : ℕ
  pub backend_capability_generation : ℕ
  pub storage_class_revision : ℕ
  pub fencing_policy_revision : ℕ
  pub capacity_generation : ℕ
  pub total_bytes : ℕ
  pub observed_free_bytes : ℕ
  pub external_or_unknown_bytes : ℕ
  pub hard_reserve_bytes : ℕ
  pub claimed_bytes : ℕ
  pub single_writer_allowed : Bool
  pub thin_provisioning : Bool
  pub encryption_required : Bool
  pub volume_conflict : Bool
  pub attachment_conflict : Bool
  pub resource_consumer_ready : Bool

pub record AuthoritySnapshot : Type 0 where
  pub database_mode : String
  pub host_id : String
  pub pool_id : String
  pub pool_generation : ℕ
  pub membership_set_generation : ℕ
  pub membership_generation : ℕ
  pub hierarchy_id : String
  pub hierarchy_generation : ℕ
  pub pool_policy_id : String
  pub pool_policy_generation : ℕ
  pub pool_state : String
  pub membership_state : String
  pub capability_generation : ℕ
  pub readiness_capability_generation : ℕ
  pub capability_state : String
  pub readiness_state : String
  pub preflight_state : String
  pub compliance_state : String
  pub baseline_assignment_generation : ℕ
  pub preflight_generation : ℕ
  pub compliance_generation : ℕ
  pub inventory : Snapshot
  pub claimed_vcpus : ℕ
  pub claimed_memory_mib : ℕ
  pub claimed_huge_pages : ℕ → ℕ
  pub pci_devices : String → Option PciDeviceAuthority
  pub networks : String → Option NetworkAuthority
  pub storage : String → Option StorageAuthority

pub record RequiredClaim : Type 0 where
  pub vcpus : ℕ
  pub memory_mib : ℕ
  pub huge_page_size_kib : Option ℕ
  pub huge_page_pages : ℕ
  pub cpu_allocation : String

pub record Evaluation : Type 0 where
  pub request_id : String
  pub request_digest : String
  pub host_id : String
  pub pool_id : String
  pub image_id : String
  pub flavor_id : String
  pub image_revision : ℕ
  pub flavor_revision : ℕ
  pub flavor_shape_digest : String
  pub eligible : Bool
  pub reason_codes : List String
  pub score : ℤ
  pub evaluation_digest : String
  pub pool_generation : ℕ
  pub membership_set_generation : ℕ
  pub membership_generation : ℕ
  pub hierarchy_id : String
  pub hierarchy_generation : ℕ
  pub pool_policy_id : String
  pub pool_policy_generation : ℕ
  pub capability_generation : ℕ
  pub baseline_assignment_generation : ℕ
  pub preflight_generation : ℕ
  pub compliance_generation : ℕ
  pub required_claim : RequiredClaim

-- ===== src/Placement/Reasons.antt =====
-- internal/placement/evaluator.go, `Evaluate`: the reason codes against a host, requirement by
-- requirement. Each `addReason` is one list, empty where its condition does not hold.
use Prim.Native.String.{◌++◌ as str_append}
use kvm_infrastructure_manag.Base.{
  ℕ, String, Bool, false, ◌&&◌, ◌||◌, not, Option, none, some, List, [], ◌∷◌, ◌++◌, ltb, ◌==◌,
  if◌then◌else◌, str_eq,
}
use kvm_infrastructure_manag.Base.Ints.{ℤ, eq_int, is_negative}
use kvm_infrastructure_manag.Placement.Types.{
  Request, AuthoritySnapshot, PciRequirement, NetworkRequirement, StorageRequirement,
  PciDeviceAuthority, NetworkAuthority, StorageAuthority,
}
use kvm_infrastructure_manag.Placement.Capacity.{saturating_subtract, saturating_add}

abbrev pub reason : Bool → String → List String
reason condition code = if condition then code ∷ [] else []

-- A row of calls of `addReason`.
unfoldable pub add_reasons : List (Bool × String) → List String
add_reasons [] = []
add_reasons ((condition, code) ∷ rest) = reason condition code ++ add_reasons rest

abbrev pub numa_mismatch : Option ℤ → ℤ → Bool
numa_mismatch none node = false
numa_mismatch (some n) node = not (eq_int node n)

unfoldable pub general_reasons : Request → AuthoritySnapshot → List String
general_reasons r a = add_reasons (
    (not (str_eq a.database_mode "ACTIVE"), "database_authority_not_active")
    ∷ (str_eq r.pool_id "" || not (str_eq a.pool_id r.pool_id), "placement_pool_mismatch")
    ∷ (not (str_eq a.pool_state "ACTIVE"), "placement_pool_not_active")
    ∷ (not (str_eq a.membership_state "ACTIVE"), "placement_membership_not_active")
    ∷ (
      not (str_eq a.capability_state "CURRENT")
          || not (a.inventory.observation_generation == a.capability_generation),
      "host_capability_not_current",
    )
    ∷ (
      not (a.readiness_capability_generation == a.capability_generation),
      "readiness_capability_generation_stale",
    )
    ∷ (
      not (str_eq a.readiness_state "READY")
          || not (str_eq a.preflight_state "PASSED")
          || not (str_eq a.compliance_state "COMPLIANT"),
      "host_readiness_not_eligible",
    )
    ∷ (not r.catalog_access_allowed, "catalog_access_denied")
    ∷ [])

-- The reasons against a PCI device that the host has.
unfoldable pub device_reasons : String → PciRequirement → PciDeviceAuthority → ℕ → List String
device_reasons prefix r d generation = add_reasons (
    (
      not (d.observation_generation == generation)
          || not (str_eq d.observation_state "AVAILABLE")
          || not (str_eq d.relationship_state "AVAILABLE")
          || str_eq d.pf_address ""
          || is_negative d.vf_index,
      str_append prefix "observation_not_eligible",
    )
    ∷ (
      not (str_eq d.binding_state "CURRENT")
          || not (d.binding_generation == generation)
          || not (str_eq d.qualification_id r.qualification_id)
          || not (d.qualification_revision == r.qualification_revision)
          || not d.assignment_qualified,
      str_append prefix "qualification_not_current",
    )
    ∷ (
      not (str_eq d.policy_id r.policy_id)
          || not (str_eq d.policy_state "ALLOWED")
          || not (d.policy_generation == r.policy_generation)
          || not (str_eq d.policy_profile d.binding_profile),
      str_append prefix "policy_not_allowed",
    )
    ∷ (numa_mismatch r.required_numa_node_id d.numa_node_id, str_append prefix "numa_mismatch")
    ∷ (
      not (str_eq r.required_iommu_group "") && not (str_eq d.iommu_group r.required_iommu_group),
      str_append prefix "iommu_group_mismatch",
    )
    ∷ (d.active_claim, str_append prefix "already_claimed")
    ∷ [])

unfoldable pub pci_reasons : AuthoritySnapshot → PciRequirement → List String
pci_reasons a r =
    let prefix = str_append "pci:" (str_append r.device_address ":") in
    elim (a.pci_devices r.device_address) [
      | none ↦ str_append prefix "observation_missing" ∷ []
      | some d ↦ device_reasons prefix r d a.capability_generation
    ]

-- The reasons against the network of a port that the authority knows.
unfoldable pub port_reasons : String → String → NetworkRequirement → NetworkAuthority → List String
port_reasons prefix project r n = add_reasons (
    (
      not (str_eq n.network_id r.network_id)
          || not (str_eq n.network_project_id project)
          || not (str_eq n.network_state "ACTIVE")
          || not (n.network_generation == r.network_generation),
      str_append prefix "network_not_current",
    )
    ∷ (
      not (str_eq n.subnet_id r.subnet_id)
          || not (str_eq n.subnet_state "ACTIVE")
          || not (n.subnet_generation == r.subnet_generation),
      str_append prefix "subnet_not_current",
    )
    ∷ (
      not (str_eq n.segment_claim_id r.segment_claim_id)
          || not (str_eq n.segment_state "ACTIVE")
          || not (n.segment_generation == r.segment_generation),
      str_append prefix "segment_not_current",
    )
    ∷ (
      not (str_eq n.mapping_state "CURRENT")
          || not (n.host_mapping_generation == r.host_mapping_generation),
      str_append prefix "host_mapping_not_current",
    )
    ∷ (
      ltb n.network_mtu r.required_mtu || ltb n.mapping_maximum_mtu r.required_mtu,
      str_append prefix "mtu_not_eligible",
    )
    ∷ (not n.ip_address_allowed, str_append prefix "ip_not_allowed")
    ∷ (n.identity_conflict, str_append prefix "identity_claim_conflict")
    ∷ (n.port_conflict, str_append prefix "port_conflict")
    ∷ (not (str_eq r.handoff_id "") && not n.handoff_ready, str_append prefix "handoff_not_current")
    ∷ (not n.binding_supported, str_append prefix "binding_not_supported")
    ∷ [])

unfoldable pub network_reasons : Request → AuthoritySnapshot → NetworkRequirement → List String
network_reasons request a r =
    let prefix = str_append "network:" (str_append r.port_id ":") in
    elim (a.networks r.port_id) [
      | none ↦ str_append prefix "authority_missing" ∷ []
      | some n ↦ port_reasons prefix request.project_id r n
    ]

-- What a storage backend has left: by its ledger, and no more than it shows as free.
unfoldable pub ledger_available : StorageAuthority → ℕ
ledger_available s =
    let ledger =
      saturating_subtract s.total_bytes (saturating_add s.hard_reserve_bytes s.claimed_bytes) in
    let observed = saturating_subtract s.observed_free_bytes s.external_or_unknown_bytes in
    if ltb observed ledger then observed else ledger

-- The reasons against the backend of a volume that the authority knows.
unfoldable pub volume_reasons :
    String → AuthoritySnapshot → StorageRequirement → StorageAuthority → List String
volume_reasons prefix a r s = add_reasons (
    (
      not (str_eq s.backend_id r.backend_id)
          || not (str_eq s.backend_type "LOCAL_LVM")
          || not (str_eq s.backend_state "ACTIVE")
          || not (s.backend_generation == r.backend_generation)
          || (not (str_eq s.support_tier "VALIDATED") && not (str_eq s.support_tier "SUPPORTED")),
      str_append prefix "backend_not_current",
    )
    ∷ (
      not (str_eq s.backend_host_id a.host_id)
          || not (str_eq s.vg_uuid r.vg_uuid)
          || not (str_eq s.capability_state "CURRENT")
          || not (s.backend_capability_generation == a.capability_generation),
      str_append prefix "locality_or_capability_not_current",
    )
    ∷ (
      not (str_eq s.storage_class_id r.storage_class_id)
          || not (s.storage_class_revision == r.storage_class_revision)
          || not (str_eq s.storage_class_state "ACTIVE")
          || not (str_eq s.allowed_backend_type "LOCAL_LVM")
          || not (str_eq s.locality "HOST_LOCAL")
          || not s.single_writer_allowed
          || s.thin_provisioning
          || s.encryption_required
          || not (s.fencing_policy_revision == r.fencing_policy_revision),
      str_append prefix "storage_class_not_current",
    )
    ∷ (
      not (s.capacity_generation == r.capacity_generation)
          || not (str_eq s.capacity_state "CURRENT")
          || not (str_eq s.health_state "HEALTHY"),
      str_append prefix "capacity_not_current",
    )
    ∷ (ltb (ledger_available s) r.size_bytes, str_append prefix "insufficient_capacity")
    ∷ (s.volume_conflict, str_append prefix "volume_conflict")
    ∷ (s.attachment_conflict, str_append prefix "attachment_conflict")
    ∷ (
      ltb 0 r.volume_revision && not s.resource_consumer_ready,
      str_append prefix "volume_resource_not_ready",
    )
    ∷ [])

unfoldable pub storage_reasons : AuthoritySnapshot → StorageRequirement → List String
storage_reasons a r =
    let prefix = str_append "storage:" (str_append r.volume_id ":") in
    elim (a.storage r.volume_id) [
      | none ↦ str_append prefix "authority_missing" ∷ []
      | some s ↦ volume_reasons prefix a r s
    ]

-- The loop over the requirements of one kind.
unfoldable pub each {ℓ} : {A : Type ℓ} → (A → List String) → List A → List String
each f [] = []
each f (x ∷ xs) = f x ++ each f xs

-- ===== src/Placement/HostFits.antt =====
-- What it takes for a host to be open to a request, and for its PCI devices to fit.
use kvm_infrastructure_manag.Base.{
  ℕ, ◌≡◌, String, true, false, not, ◌↔◌, ◌≢◌, Option, none, some, [], str_eq, Option-cases, inl,
  inr,
}
use kvm_infrastructure_manag.Base.Ints.{is_negative}
use kvm_infrastructure_manag.Placement.Types.{
  Request, AuthoritySnapshot, PciRequirement, PciDeviceAuthority,
}
use kvm_infrastructure_manag.Placement.Reasons.{general_reasons, device_reasons, pci_reasons}
use kvm_infrastructure_manag.Placement.Conditions.{
  or_iff, or3_iff, or4_iff, or5_iff, add_iff, end_iff, text_iff, num_iff, true_iff, false_iff,
  named_iff, guarded_iff, OnNode, node_iff,
}

-- The database, the pool, the membership, the capabilities, the readiness and the catalog.
abbrev pub IsOpen : Request → AuthoritySnapshot → Type 0
IsOpen r a =
    (a.database_mode ≡ "ACTIVE")
    × (((r.pool_id ≢ "") × (a.pool_id ≡ r.pool_id))
        × ((a.pool_state ≡ "ACTIVE")
            × ((a.membership_state ≡ "ACTIVE")
                × (((a.capability_state ≡ "CURRENT")
                      × (a.inventory.observation_generation ≡ a.capability_generation))
                    × ((a.readiness_capability_generation ≡ a.capability_generation)
                        × (((a.readiness_state ≡ "READY")
                              × (a.preflight_state ≡ "PASSED")
                              × (a.compliance_state ≡ "COMPLIANT"))
                            × ((r.catalog_access_allowed ≡ true) × Unit {0})))))))

pub general_iff : (r : Request) (a : AuthoritySnapshot) → (general_reasons r a ≡ []) ↔ IsOpen r a
unfolding general_reasons
general_iff r a = add_iff _ _ (text_iff _ _) (
    add_iff _ _ (or_iff (named_iff _) (text_iff _ _)) (
      add_iff _ _ (text_iff _ _) (
        add_iff _ _ (text_iff _ _) (
          add_iff _ _ (or_iff (text_iff _ _) (num_iff _ _)) (
            add_iff _ _ (num_iff _ _) (
              add_iff _ _ (or3_iff (text_iff _ _) (text_iff _ _) (text_iff _ _))
                (add_iff _ _ (true_iff _) end_iff)))))))

-- The device is observed, qualified, allowed, on the node and in the group asked for, and free.
abbrev pub DeviceFits : PciRequirement → PciDeviceAuthority → ℕ → Type 0
DeviceFits r d generation =
    ((d.observation_generation ≡ generation)
      × (d.observation_state ≡ "AVAILABLE")
      × (d.relationship_state ≡ "AVAILABLE")
      × (d.pf_address ≢ "")
      × (is_negative d.vf_index ≡ false))
    × (((d.binding_state ≡ "CURRENT")
          × (d.binding_generation ≡ generation)
          × (d.qualification_id ≡ r.qualification_id)
          × (d.qualification_revision ≡ r.qualification_revision)
          × (d.assignment_qualified ≡ true))
        × (((d.policy_id ≡ r.policy_id)
              × (d.policy_state ≡ "ALLOWED")
              × (d.policy_generation ≡ r.policy_generation)
              × (d.policy_profile ≡ d.binding_profile))
            × (OnNode r.required_numa_node_id d.numa_node_id
                × ((not (str_eq r.required_iommu_group "") ≡ true
                      → str_eq d.iommu_group r.required_iommu_group ≡ true)
                    × ((d.active_claim ≡ false) × Unit {0})))))

pub device_iff :
    (p : String) (r : PciRequirement) (d : PciDeviceAuthority) (g : ℕ)
    → (device_reasons p r d g ≡ []) ↔ DeviceFits r d g
unfolding device_reasons
device_iff p r d g =
    add_iff _ _ (or5_iff (num_iff _ _) (text_iff _ _) (text_iff _ _) (named_iff _) (false_iff _)) (
      add_iff _ _ (or5_iff (text_iff _ _) (num_iff _ _) (text_iff _ _) (num_iff _ _) (true_iff _)) (
        add_iff _ _ (or4_iff (text_iff _ _) (text_iff _ _) (num_iff _ _) (text_iff _ _)) (
          add_iff _ _ (node_iff _ _)
            (add_iff _ _ (guarded_iff _ _) (add_iff _ _ (false_iff _) end_iff)))))

-- The authority has the keyed record, and it satisfies the predicate.
abbrev pub Has : {A : Type 0} → Option A → (A → Type 0) → Type 0
Has none P = ⊥
Has (some x) P = P x

abbrev pub PciFits : AuthoritySnapshot → PciRequirement → Type 0
PciFits a r = Has (a.pci_devices r.device_address) (λ d. DeviceFits r d a.capability_generation)

pub pci_iff : (a : AuthoritySnapshot) (r : PciRequirement) → (pci_reasons a r ≡ []) ↔ PciFits a r
unfolding pci_reasons
pci_iff a r = elim (Option-cases (a.pci_devices r.device_address)) [
  | inl h ↦ rw (h, pci_reasons) ((λ e. cc), (λ x. absurd x))
  | inr (d, h) ↦ rw (h, pci_reasons) (device_iff _ r d a.capability_generation)
]

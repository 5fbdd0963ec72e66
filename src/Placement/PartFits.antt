-- ===== src/Placement/PartFits.antt =====
-- What it takes for the networks and volumes of a request to be eligible on a host.
use kvm_infrastructure_manag.Base.{
  ◌≤◌, ◌≡◌, String, true, false, ◌||◌, not, ◌↔◌, [], ltb, str_eq, Option-cases, inl, inr,
}
use kvm_infrastructure_manag.Placement.Types.{
  Request, AuthoritySnapshot, NetworkRequirement, StorageRequirement, NetworkAuthority,
  StorageAuthority,
}
use kvm_infrastructure_manag.Placement.Reasons.{
  port_reasons, network_reasons, ledger_available, volume_reasons, storage_reasons,
}
use kvm_infrastructure_manag.Placement.Conditions.{
  or_iff, or3_iff, or4_iff, or5_iff, or9_iff, either_iff, add_iff, end_iff, text_iff, num_iff,
  true_iff, false_iff, lt_iff, guarded_iff,
}
use kvm_infrastructure_manag.Placement.HostFits.{Has}

abbrev pub PortFits : String → NetworkRequirement → NetworkAuthority → Type 0
PortFits project r n =
    ((n.network_id ≡ r.network_id)
      × (n.network_project_id ≡ project)
      × (n.network_state ≡ "ACTIVE")
      × (n.network_generation ≡ r.network_generation))
    × (((n.subnet_id ≡ r.subnet_id)
          × (n.subnet_state ≡ "ACTIVE")
          × (n.subnet_generation ≡ r.subnet_generation))
        × (((n.segment_claim_id ≡ r.segment_claim_id)
              × (n.segment_state ≡ "ACTIVE")
              × (n.segment_generation ≡ r.segment_generation))
            × (((n.mapping_state ≡ "CURRENT")
                  × (n.host_mapping_generation ≡ r.host_mapping_generation))
                × (((r.required_mtu ≤ n.network_mtu) × (r.required_mtu ≤ n.mapping_maximum_mtu))
                    × ((n.ip_address_allowed ≡ true)
                        × ((n.identity_conflict ≡ false)
                            × ((n.port_conflict ≡ false)
                                × ((not (str_eq r.handoff_id "") ≡ true → n.handoff_ready ≡ true)
                                    × ((n.binding_supported ≡ true) × Unit {0})))))))))

pub port_iff :
    (p project : String) (r : NetworkRequirement) (n : NetworkAuthority)
    → (port_reasons p project r n ≡ []) ↔ PortFits project r n
unfolding port_reasons
port_iff p project r n =
    add_iff _ _ (or4_iff (text_iff _ _) (text_iff _ _) (text_iff _ _) (num_iff _ _)) (
      add_iff _ _ (or3_iff (text_iff _ _) (text_iff _ _) (num_iff _ _)) (
        add_iff _ _ (or3_iff (text_iff _ _) (text_iff _ _) (num_iff _ _)) (
          add_iff _ _ (or_iff (text_iff _ _) (num_iff _ _)) (
            add_iff _ _ (or_iff (lt_iff _ _) (lt_iff _ _)) (
              add_iff _ _ (true_iff _) (
                add_iff _ _ (false_iff _) (
                  add_iff _ _ (false_iff _)
                    (add_iff _ _ (guarded_iff _ _) (add_iff _ _ (true_iff _) end_iff)))))))))

abbrev pub NetworkFits : Request → AuthoritySnapshot → NetworkRequirement → Type 0
NetworkFits request a r = Has (a.networks r.port_id) (PortFits request.project_id r)

pub network_iff :
    (request : Request) (a : AuthoritySnapshot) (r : NetworkRequirement)
    → (network_reasons request a r ≡ []) ↔ NetworkFits request a r
unfolding network_reasons
network_iff request a r = elim (Option-cases (a.networks r.port_id)) [
  | inl h ↦ rw (h, network_reasons) ((λ e. cc), (λ x. absurd x))
  | inr (n, h) ↦ rw (h, network_reasons) (port_iff _ request.project_id r n)
]

abbrev pub VolumeFits : AuthoritySnapshot → StorageRequirement → StorageAuthority → Type 0
VolumeFits a r s =
    ((s.backend_id ≡ r.backend_id)
      × (s.backend_type ≡ "LOCAL_LVM")
      × (s.backend_state ≡ "ACTIVE")
      × (s.backend_generation ≡ r.backend_generation)
      × ((str_eq s.support_tier "VALIDATED" || str_eq s.support_tier "SUPPORTED") ≡ true))
    × (((s.backend_host_id ≡ a.host_id)
          × (s.vg_uuid ≡ r.vg_uuid)
          × (s.capability_state ≡ "CURRENT")
          × (s.backend_capability_generation ≡ a.capability_generation))
        × (((s.storage_class_id ≡ r.storage_class_id)
              × (s.storage_class_revision ≡ r.storage_class_revision)
              × (s.storage_class_state ≡ "ACTIVE")
              × (s.allowed_backend_type ≡ "LOCAL_LVM")
              × (s.locality ≡ "HOST_LOCAL")
              × (s.single_writer_allowed ≡ true)
              × (s.thin_provisioning ≡ false)
              × (s.encryption_required ≡ false)
              × (s.fencing_policy_revision ≡ r.fencing_policy_revision))
            × (((s.capacity_generation ≡ r.capacity_generation)
                  × (s.capacity_state ≡ "CURRENT")
                  × (s.health_state ≡ "HEALTHY"))
                × ((r.size_bytes ≤ ledger_available s)
                    × ((s.volume_conflict ≡ false)
                        × ((s.attachment_conflict ≡ false)
                            × ((ltb 0 r.volume_revision ≡ true → s.resource_consumer_ready ≡ true)
                                × Unit {0})))))))

pub volume_iff :
    (p : String) (a : AuthoritySnapshot) (r : StorageRequirement) (s : StorageAuthority)
    → (volume_reasons p a r s ≡ []) ↔ VolumeFits a r s
unfolding volume_reasons
volume_iff p a r s =
    add_iff _ _
      (or5_iff (text_iff _ _) (text_iff _ _) (text_iff _ _) (num_iff _ _)
        (either_iff s.support_tier "VALIDATED" "SUPPORTED"))
      (add_iff _ _ (or4_iff (text_iff _ _) (text_iff _ _) (text_iff _ _) (num_iff _ _)) (
        add_iff _ _
          (or9_iff (text_iff _ _) (num_iff _ _) (text_iff _ _) (text_iff _ _) (text_iff _ _)
            (true_iff _) (false_iff _) (false_iff _) (num_iff _ _))
          (add_iff _ _ (or3_iff (num_iff _ _) (text_iff _ _) (text_iff _ _)) (
            add_iff _ _ (lt_iff _ _) (
              add_iff _ _ (false_iff _)
                (add_iff _ _ (false_iff _) (add_iff _ _ (guarded_iff _ _) end_iff)))))))

abbrev pub StorageFits : AuthoritySnapshot → StorageRequirement → Type 0
StorageFits a r = Has (a.storage r.volume_id) (VolumeFits a r)

pub storage_iff :
    (a : AuthoritySnapshot) (r : StorageRequirement) → (storage_reasons a r ≡ []) ↔ StorageFits a r
unfolding storage_reasons
storage_iff a r = elim (Option-cases (a.storage r.volume_id)) [
  | inl h ↦ rw (h, storage_reasons) ((λ e. cc), (λ x. absurd x))
  | inr (s, h) ↦ rw (h, storage_reasons) (volume_iff _ a r s)
]

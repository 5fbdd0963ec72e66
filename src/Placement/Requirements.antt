-- ===== src/Placement/Requirements.antt =====
-- internal/placement/evaluator.go, `Evaluate`: the copy, the order and the validation of the
-- requirements of a request. The sets of identities are lists.
use Prim.Native.String.{◌++◌}
use kvm_infrastructure_manag.Base.{
  String, Bool, false, ◌&&◌, ◌||◌, not, Option, none, some, List, [], ◌∷◌, ltb, ◌==◌, if◌then◌else◌,
  str_eq,
}
use kvm_infrastructure_manag.Base.Words.{add64}
use kvm_infrastructure_manag.Base.Sort.{sort}
use kvm_infrastructure_manag.Base.Text.{str_lt, text_bytes}
use kvm_infrastructure_manag.Placement.Types.{
  Request, PciRequirement, NetworkRequirement, StorageRequirement,
}

pub data Error : Type 0 where
  pci_invalid network_invalid ovs_device sriov_unmatched : String → Error
  ip_duplicate mac_duplicate storage_invalid attachment_duplicate : String → Error

-- Equal to the key of the element before, if there is one.
abbrev pub same_key : Option String → String → Bool
same_key none key = false
same_key (some k) key = str_eq k key

abbrev pub member : String → List String → Bool
member s [] = false
member s (t ∷ ts) = str_eq s t || member s ts

unfoldable pub pci_valid : Option String → PciRequirement → Bool
pci_valid before r = not (
    str_eq r.device_address ""
    || str_eq r.policy_id ""
    || r.policy_generation == 0
    || str_eq r.qualification_id ""
    || r.qualification_revision == 0
    || same_key before r.device_address)

unfoldable pub check_pci : Option String → List PciRequirement → Option Error
check_pci before [] = none
check_pci before (r ∷ rs) =
    if pci_valid before r
    then check_pci (some r.device_address) rs
    else some (pci_invalid r.device_address)

-- The allocation source, "EXPLICIT" where none is given.
abbrev pub source_of : NetworkRequirement → String
source_of r = if str_eq r.allocation_source "" then "EXPLICIT" else r.allocation_source

unfoldable pub identities_valid : NetworkRequirement → Bool
identities_valid r =
    (str_eq (source_of r) "EXPLICIT"
      && not (str_eq r.ip_address "")
      && not (str_eq r.mac_address ""))
    || (str_eq (source_of r) "AUTOMATIC" && str_eq r.ip_address "" && str_eq r.mac_address "")

unfoldable pub handoff_valid : NetworkRequirement → Bool
handoff_valid r =
    str_eq r.handoff_id ""
    || (not (str_eq r.source_host_id "")
        && not (str_eq r.source_quiescence_evidence_id "")
        && text_bytes r.source_quiescence_evidence_digest == 64
        && ltb 0 r.source_port_generation
        && ltb 0 r.source_binding_generation
        && r.destination_port_generation == add64 r.source_port_generation 1
        && r.destination_binding_generation == add64 r.source_binding_generation 1
        && str_eq (source_of r) "EXPLICIT")

unfoldable pub network_valid : Option String → NetworkRequirement → Bool
unfolding identities_valid handoff_valid
network_valid before r = not (
    str_eq r.port_id ""
    || str_eq r.network_id ""
    || r.network_generation == 0
    || str_eq r.subnet_id ""
    || r.subnet_generation == 0
    || str_eq r.segment_claim_id ""
    || r.segment_generation == 0
    || r.host_mapping_generation == 0
    || not (identities_valid r)
    || not (handoff_valid r)
    || ltb r.required_mtu 576
    || not (str_eq r.binding_type "OVS" || str_eq r.binding_type "SRIOV_DIRECT")
    || same_key before r.port_id)

unfoldable pub pci_matched : String → List PciRequirement → Bool
pci_matched address [] = false
pci_matched address (p ∷ ps) = str_eq p.device_address address || pci_matched address ps

abbrev pub ip_key : NetworkRequirement → String
ip_key r = r.subnet_id ++ "/" ++ r.ip_address

abbrev pub mac_key : NetworkRequirement → String
mac_key r = r.network_id ++ "/" ++ r.mac_address

unfoldable pub check_network :
    List PciRequirement
    → Option String
    → List String
    → List String
    → List NetworkRequirement
    → Option Error
check_network pci before ips macs [] = none
check_network pci before ips macs (r ∷ rs) =
    let explicit = check_network pci (some r.port_id) (ip_key r ∷ ips) (mac_key r ∷ macs) rs in
    let automatic = check_network pci (some r.port_id) ips macs rs in
    if not (network_valid before r)
    then some (network_invalid r.port_id)
    else if str_eq r.binding_type "OVS" && not (str_eq r.device_address "")
    then some (ovs_device r.port_id)
    else if str_eq r.binding_type "SRIOV_DIRECT"
        && (str_eq r.device_address "" || not (pci_matched r.device_address pci))
    then some (sriov_unmatched r.port_id)
    else if not (str_eq (source_of r) "EXPLICIT")
    then automatic
    else if member (ip_key r) ips
    then some (ip_duplicate r.ip_address)
    else if member (mac_key r) macs
    then some (mac_duplicate r.mac_address)
    else explicit

unfoldable pub resource_contract : StorageRequirement → Bool
resource_contract r =
    (r.volume_revision == 0
      && str_eq r.attachment_intent_id ""
      && r.attachment_intent_generation == 0
      && str_eq r.capacity_allocation_id ""
      && r.capacity_allocation_generation == 0)
    || (ltb 0 r.volume_revision
        && not (str_eq r.attachment_intent_id "")
        && ltb 0 r.attachment_intent_generation
        && not (str_eq r.capacity_allocation_id "")
        && ltb 0 r.capacity_allocation_generation)

unfoldable pub storage_valid : Option String → StorageRequirement → Bool
unfolding resource_contract
storage_valid before r = not (
    str_eq r.volume_id ""
    || str_eq r.attachment_id ""
    || str_eq r.backend_id ""
    || str_eq r.vg_uuid ""
    || r.backend_generation == 0
    || str_eq r.storage_class_id ""
    || r.storage_class_revision == 0
    || r.capacity_generation == 0
    || r.attachment_generation == 0
    || r.fencing_policy_revision == 0
    || r.size_bytes == 0
    || not (str_eq r.access_mode "SINGLE_WRITER")
    || not (resource_contract r)
    || same_key before r.volume_id)

unfoldable pub check_storage : Option String → List String → List StorageRequirement → Option Error
check_storage before attachments [] = none
check_storage before attachments (r ∷ rs) =
    let rest = check_storage (some r.volume_id) (r.attachment_id ∷ attachments) rs in
    if not (storage_valid before r)
    then some (storage_invalid r.volume_id)
    else if member r.attachment_id attachments
    then some (attachment_duplicate r.attachment_id)
    else rest

-- The request with its requirements in the order of their keys.
unfoldable pub ordered : Request → Request
ordered r = record r {
  pci = sort (λ a b. str_lt a.device_address b.device_address) r.pci;
  network = sort (λ a b. str_lt a.port_id b.port_id) r.network;
  storage = sort (λ a b. str_lt a.volume_id b.volume_id) r.storage;
}

-- The error of an ordered request.
unfoldable pub check : Request → Option Error
unfolding check_pci check_network check_storage
check r = elim (check_pci none r.pci) [
  | some e ↦ some e
  | none ↦ elim (check_network r.pci none [] [] r.network) [
    | some e ↦ some e
    | none ↦ check_storage none [] r.storage
  ]
]

-- ===== src/Inventory/Model.antt =====
-- internal/agent/inventory/model.go: the types of a Host inventory snapshot. `Domain` and
-- `Availability` are string types and stay strings; a pointer is an Option; an `int` that is an
-- index of the host is an integer.
use kvm_infrastructure_manag.Base.{ℕ, String, Bool, ◌||◌, Option, List, str_eq}
use kvm_infrastructure_manag.Base.Ints.{ℤ}

unfoldable pub availability_valid : String → Bool
availability_valid s =
    str_eq s "AVAILABLE" || str_eq s "UNAVAILABLE" || str_eq s "UNKNOWN" || str_eq s "UNSUPPORTED"

unfoldable pub domain_known : String → Bool
domain_known d =
    str_eq d "COMPUTE"
    || str_eq d "MEMORY"
    || str_eq d "PCI"
    || str_eq d "NETWORK"
    || str_eq d "STORAGE"
    || str_eq d "VIRTUALIZATION"

pub record Constraint : Type 0 where
  pub name : String
  pub value : String

pub record Capability : Type 0 where
  pub name : String
  pub version : String
  pub state : String
  pub reason_code : String
  pub constraints : List Constraint

pub record Source : Type 0 where
  pub module_name : String
  pub module_version : String
  pub schema_version : String
  pub artifact_digest : String

pub record EvidenceRef : Type 0 where
  pub field : String
  pub source_path : String
  pub state : String
  pub reason_code : String

pub record CpuThread : Type 0 where
  pub linux_id : ℤ
  pub core_id : ℤ
  pub socket_id : ℤ
  pub numa_node_id : ℤ
  pub online : Bool
  pub isolated : Bool

pub record Compute : Type 0 where
  pub architecture : String
  pub cpu_model : String
  pub threads : List CpuThread

pub record NumaNode : Type 0 where
  pub linux_id : ℤ
  pub cpu_thread_ids : List ℤ
  pub memory_total_bytes : ℕ

pub record HugePagePool : Type 0 where
  pub numa_node_id : Option ℤ
  pub page_size_bytes : ℕ
  pub total_pages : ℕ
  pub free_pages : ℕ
  pub reserved_pages : ℕ
  pub surplus_pages : ℕ

pub record Memory : Type 0 where
  pub total_bytes : ℕ
  pub available_bytes : ℕ
  pub numa_nodes : List NumaNode
  pub huge_page_pools : List HugePagePool

pub record PciDevice : Type 0 where
  pub address : String
  pub vendor_id : String
  pub device_id : String
  pub subsystem_vendor_id : String
  pub subsystem_device_id : String
  pub driver : String
  pub device_revision : String
  pub firmware_revision : String
  pub iommu_group : String
  pub numa_node_id : ℤ
  pub sriov_total_vfs : ℕ
  pub sriov_enabled_vfs : ℕ
  pub pf_address : String
  pub vf_index : Option ℕ
  pub relationship_state : String
  pub relationship_reason : String

pub record Pci : Type 0 where
  pub iommu_enabled : Bool
  pub devices : List PciDevice

pub record NetworkInterface : Type 0 where
  pub name : String
  pub mac_address : String
  pub pci_address : String
  pub driver : String
  pub numa_node_id : ℤ

pub record Network : Type 0 where
  pub interfaces : List NetworkInterface

pub record StorageDevice : Type 0 where
  pub stable_id : String
  pub kind : String
  pub size_bytes : ℕ

pub record Storage : Type 0 where
  pub devices : List StorageDevice

pub record Virtualization : Type 0 where
  pub kvm_available : Bool
  pub libvirt_version : String
  pub qemu_version : String
  pub machine_types : List String

pub record Fragment : Type 0 where
  pub domain : String
  pub source : Source
  pub evidence : List EvidenceRef
  pub capabilities : List Capability
  pub compute : Option Compute
  pub memory : Option Memory
  pub pci : Option Pci
  pub network : Option Network
  pub storage : Option Storage
  pub virtualization : Option Virtualization

pub record Snapshot : Type 0 where
  pub schema_version : String
  pub host_identity : String
  pub observation_generation : ℕ
  pub collection_status : String
  pub capabilities : List Capability
  pub fragments : List Fragment

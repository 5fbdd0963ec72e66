-- ===== src/Inventory/Payloads.antt =====
-- internal/agent/inventory/model.go: the switch on the domain at the end of `normalizeFragment`, with
-- one function for each payload, and the tests on the texts of PCI devices. A loop that compares an
-- entry with the one before it is `refused`.
use Prim.Native.Char.{Char, code}
use Prim.Native.String.{[] as empty, ◌∷◌ as str_cons}
use kvm_infrastructure_manag.Base.{
  ℕ, ◌+◌, ◌-◌, ◌*◌, String, Bool, true, false, ◌&&◌, ◌||◌, not, Option, none, some, List, [], ◌∷◌,
  map, ◌==◌, ltb, leb, if◌then◌else◌, str_eq, Result, ok, err, length,
}
use kvm_infrastructure_manag.Base.Ints.{ℤ, negsuc, lt_int, eq_int, is_negative}
use kvm_infrastructure_manag.Base.Sort.{sort}
use kvm_infrastructure_manag.Base.Text.{str_lt, text_bytes, is_lower_hex}
use kvm_infrastructure_manag.Inventory.Model.{
  Capability, Compute, CpuThread, Memory, NumaNode, HugePagePool, Pci, PciDevice, Network,
  NetworkInterface, Storage, StorageDevice, Virtualization, availability_valid,
}

-- The errors that one loop over an entry gives are one.
pub data Error : Type 0 where
  snapshot_incomplete status_invalid duplicate_capability source_invalid payload_mismatch : Error
  evidence_invalid capability_incomplete reason_present reason_missing : Error
  constraint_invalid compute_empty thread_invalid memory_empty node_invalid pool_invalid : Error
  pci_invalid interface_invalid device_invalid versions_missing : Error
  decode_failed trailing_data marshal_failed capabilities_differ : Error

-- An entry is bad, or the same as the one before it.
unfoldable pub refused : {A : Type 0} → (A → Bool) → (A → A → Bool) → List A → Bool
refused bad same [] = false
refused bad same (x ∷ []) = bad x
refused bad same (x ∷ y ∷ xs) = bad x || same x y || refused bad same (y ∷ xs)

-- A reason goes with every state but the available one.
abbrev pub reason_wrong : String → String → Bool
reason_wrong state reason =
    str_eq state "AVAILABLE" && not (str_eq reason "")
    || not (str_eq state "AVAILABLE") && str_eq reason ""

abbrev pub below_unknown : ℤ → Bool
below_unknown n = lt_int n (negsuc 0)

-- The state of the first capability with this name.
unfoldable pub capability_is_available : List Capability → String → Bool
capability_is_available [] name = false
capability_is_available (c ∷ cs) name =
    let rest = capability_is_available cs name in
    if str_eq c.name name then str_eq c.state "AVAILABLE" else rest

unfoldable pub valid_pci_id : String → Bool
valid_pci_id value = text_bytes value == 4 && is_lower_hex value

unfoldable pub valid_pci_revision : String → Bool
valid_pci_revision value = text_bytes value == 2 && is_lower_hex value

unfoldable pub valid_digest : String → Bool
valid_digest value = text_bytes value == 64 && is_lower_hex value

abbrev digit : Char → ℕ
digit c = if leb (code c) 57 then code c - 48 else code c - 87

-- Four, two, two and one digits, with the separators ":", ":" and ".".
unfoldable pub valid_pci_address : String → Bool
valid_pci_address
      (str_cons a (
        str_cons b (
          str_cons c (
            str_cons d (
              str_cons p (
                str_cons e (
                  str_cons f
                    (str_cons q (str_cons g (str_cons h (str_cons r (str_cons i empty)))))))))))) =
    is_lower_hex (
      str_cons a (
        str_cons b (
          str_cons c
            (str_cons d (str_cons e (str_cons f (str_cons g (str_cons h (str_cons i empty)))))))))
    && code p == 58
    && code q == 58
    && code r == 46
    && leb (16 * digit g + digit h) 31
    && leb (digit i) 7
valid_pci_address _ = false

abbrev thread_bad : CpuThread → Bool
thread_bad t =
    is_negative t.linux_id
    || is_negative t.core_id
    || is_negative t.socket_id
    || below_unknown t.numa_node_id

unfoldable pub normalize_compute : List Capability → Compute → Result Error Compute
normalize_compute cs c =
    let threads = sort (λ (a b : CpuThread). lt_int a.linux_id b.linux_id) c.threads in
    if capability_is_available cs "kim.host.cpu-topology.v1"
      && (str_eq c.architecture "" || length c.threads == 0)
    then err compute_empty
    else if refused thread_bad (λ a b. eq_int a.linux_id b.linux_id) threads
    then err thread_invalid
    else ok (record c { threads = threads })

abbrev node_bad : List Capability → NumaNode → Bool
node_bad cs n =
    is_negative n.linux_id
    || capability_is_available cs "kim.host.numa.v1" && n.memory_total_bytes == 0

-- The comparison of two pools.
abbrev pub by_locality : Option ℤ → Option ℤ → Bool → Bool
by_locality none none size = false
by_locality none (some b) size = true
by_locality (some a) none size = true
by_locality (some a) (some b) size = if not (eq_int a b) then lt_int a b else size

abbrev pub pool_before : HugePagePool → HugePagePool → Bool
pool_before a b =
    by_locality a.numa_node_id b.numa_node_id (ltb a.page_size_bytes b.page_size_bytes)

abbrev locality_bad : Option ℤ → Bool
locality_bad none = false
locality_bad (some n) = is_negative n

abbrev pool_bad : List Capability → HugePagePool → Bool
pool_bad cs p =
    p.page_size_bytes == 0
    || capability_is_available cs "kim.host.hugepages.v1" && ltb p.total_pages p.free_pages
    || locality_bad p.numa_node_id

unfoldable pub normalize_memory : List Capability → Memory → Result Error Memory
normalize_memory cs m =
    let nodes = sort (λ (a b : NumaNode). lt_int a.linux_id b.linux_id) m.numa_nodes in
    let pools = sort pool_before m.huge_page_pools in
    if capability_is_available cs "kim.host.memory.v1" && m.total_bytes == 0
    then err memory_empty
    else if refused (node_bad cs) (λ a b. eq_int a.linux_id b.linux_id) nodes
    then err node_invalid
    else if refused (pool_bad cs) (λ a b. false) pools
    then err pool_invalid
    else ok (record m {
      numa_nodes =
          map (λ (n : NumaNode). record n { cpu_thread_ids = sort lt_int n.cpu_thread_ids }) nodes;
      huge_page_pools = pools;
    })

abbrev pub is_there : {A : Type 0} → Option A → Bool
is_there none = false
is_there (some x) = true

abbrev function_wrong : PciDevice → Bool
function_wrong d =
    not (str_eq d.pf_address "")
      && (not (valid_pci_address d.pf_address) || not (is_there d.vf_index))
    || str_eq d.pf_address "" && is_there d.vf_index

abbrev device_bad : PciDevice → Bool
device_bad d =
    not (valid_pci_address d.address)
    || not (valid_pci_id d.vendor_id)
    || not (valid_pci_id d.device_id)
    || not (str_eq d.subsystem_vendor_id "") && not (valid_pci_id d.subsystem_vendor_id)
    || not (str_eq d.subsystem_device_id "") && not (valid_pci_id d.subsystem_device_id)
    || not (str_eq d.device_revision "") && not (valid_pci_revision d.device_revision)
    || below_unknown d.numa_node_id
    || ltb d.sriov_total_vfs d.sriov_enabled_vfs
    || not (availability_valid d.relationship_state)
    || reason_wrong d.relationship_state d.relationship_reason
    || function_wrong d

unfoldable pub normalize_pci : Pci → Result Error Pci
normalize_pci p =
    let devices = sort (λ (a b : PciDevice). str_lt a.address b.address) p.devices in
    if refused device_bad (λ a b. str_eq a.address b.address) devices
    then err pci_invalid
    else ok (record p { devices = devices })

abbrev interface_bad : NetworkInterface → Bool
interface_bad i =
    str_eq i.name ""
    || str_eq i.mac_address ""
    || str_eq i.driver ""
    || below_unknown i.numa_node_id

unfoldable pub normalize_network : Network → Result Error Network
normalize_network n =
    let interfaces = sort (λ (a b : NetworkInterface). str_lt a.name b.name) n.interfaces in
    if refused interface_bad (λ a b. str_eq a.name b.name) interfaces
    then err interface_invalid
    else ok (record { interfaces = interfaces })

abbrev storage_bad : StorageDevice → Bool
storage_bad d = str_eq d.stable_id "" || str_eq d.kind "" || d.size_bytes == 0

unfoldable pub normalize_storage : Storage → Result Error Storage
normalize_storage s =
    let devices = sort (λ (a b : StorageDevice). str_lt a.stable_id b.stable_id) s.devices in
    if refused storage_bad (λ a b. str_eq a.stable_id b.stable_id) devices
    then err device_invalid
    else ok (record { devices = devices })

unfoldable pub normalize_virtualization : Virtualization → Result Error Virtualization
normalize_virtualization v =
    if v.kvm_available && (str_eq v.libvirt_version "" || str_eq v.qemu_version "")
    then err versions_missing
    else ok (record v { machine_types = sort str_lt v.machine_types })

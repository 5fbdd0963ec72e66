-- ===== src/Inventory/Tests.antt =====
-- The theorem on normalised snapshots at a concrete input, and the order of pools.
use kvm_infrastructure_manag.Base.{
  ◌≡◌, refl, String, true, false, Option, none, some, List, [], ◌∷◌, err, All,
}
use kvm_infrastructure_manag.Base.Ints.{ℤ, pos}
use kvm_infrastructure_manag.Base.Sort.{sort}
use kvm_infrastructure_manag.Base.Text.{is_lower_hex}
use kvm_infrastructure_manag.Inventory.Model.{
  Snapshot, Fragment, Capability, Source, HugePagePool, availability_valid, domain_known,
}
use kvm_infrastructure_manag.Inventory.Payloads.{
  duplicate_capability, pool_before, refused, valid_digest, valid_pci_address, normalize_network,
  normalize_virtualization,
}
use kvm_infrastructure_manag.Inventory.Normalize.{
  normalize_and_validate, normalize_fragments, normalize_fragment, normalize_capabilities,
  normalize_capability, normalize_payload, source_refused, payload_matches, add_all,
}
use kvm_infrastructure_manag.Inventory.Normalize.Reports.{normalized-reported}
use kvm_infrastructure_manag.HostGroup.Selector.{reported}

abbrev source : String → Source
source name = record {
  module_name = name;
  module_version = "1";
  schema_version = "v1";
  artifact_digest = "0123456789abcdef0123456789abcdef0123456789abcdef0123456789abcdef";
}

abbrev capability : String → String → String → Capability
capability name state reason = record {
  name = name;
  version = "v1";
  state = state;
  reason_code = reason;
  constraints = [];
}

abbrev network : List Capability → Fragment
network cs = record {
  domain = "NETWORK";
  source = source "n";
  evidence = [];
  capabilities = cs;
  compute = none;
  memory = none;
  pci = none;
  network = some (record { interfaces = [] });
  storage = none;
  virtualization = none;
}

abbrev virtualization : List Capability → Fragment
virtualization cs = record {
  domain = "VIRTUALIZATION";
  source = source "v";
  evidence = [];
  capabilities = cs;
  compute = none;
  memory = none;
  pci = none;
  network = none;
  storage = none;
  virtualization = some (record {
    kvm_available = false;
    libvirt_version = "";
    qemu_version = "";
    machine_types = [];
  });
}

abbrev snapshot : List Capability → List Fragment → Snapshot
snapshot cs fs = record {
  schema_version = "kim.inventory.snapshot/v3";
  host_identity = "h";
  observation_generation = 1;
  collection_status = "COMPLETE";
  capabilities = cs;
  fragments = fs;
}

abbrev bridge : Capability
bridge = capability "net.bridge" "AVAILABLE" ""

abbrev kvm : Capability
kvm = capability "kvm" "UNAVAILABLE" "no_device"

abbrev given : Snapshot
given = snapshot [] (virtualization (kvm ∷ []) ∷ network (bridge ∷ []) ∷ [])

abbrev normal : Snapshot
normal = snapshot (kvm ∷ bridge ∷ []) (network (bridge ∷ []) ∷ virtualization (kvm ∷ []) ∷ [])

normalized-reported_example :
    All
      (λ (f : Fragment).
        All (λ (c : Capability). reported c.name normal.capabilities ≡ some c.state) f.capabilities)
      normal.fragments
unfolding normalize_and_validate normalize_fragments normalize_fragment normalize_capabilities
    normalize_capability normalize_payload source_refused payload_matches add_all availability_valid
    domain_known valid_digest is_lower_hex refused sort normalize_network normalize_virtualization
normalized-reported_example = normalized-reported given normal refl

-- One name in two fragments is refused.
refused_twice :
    normalize_and_validate (snapshot [] (virtualization (bridge ∷ []) ∷ network (bridge ∷ []) ∷ []))
    ≡ err duplicate_capability
unfolding normalize_and_validate normalize_fragments normalize_fragment normalize_capabilities
    normalize_capability normalize_payload source_refused payload_matches add_all availability_valid
    domain_known valid_digest is_lower_hex refused sort normalize_network normalize_virtualization
refused_twice = refl

addresses :
    (valid_pci_address "0000:1f:00.7" ≡ true)
    × (valid_pci_address "0000:1f:20.0" ≡ false)
    × (valid_pci_address "0000:1F:00.0" ≡ false)
    × (valid_pci_address "0000:1f:00" ≡ false)
unfolding valid_pci_address is_lower_hex
addresses = (refl, refl, refl, refl)

abbrev pool : Option ℤ → HugePagePool
pool node = record {
  numa_node_id = node;
  page_size_bytes = 2097152;
  total_pages = 8;
  free_pages = 8;
  reserved_pages = 0;
  surplus_pages = 0;
}

-- A pool of the host and one of a node each come before the other.
pools_both_ways :
    (pool_before (pool none) (pool (some (pos 0))) ≡ true)
    × (pool_before (pool (some (pos 0))) (pool none) ≡ true)
pools_both_ways = (refl, refl)

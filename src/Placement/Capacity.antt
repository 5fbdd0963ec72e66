-- ===== src/Placement/Capacity.antt =====
-- internal/placement/evaluator.go: the capacity of a host, read from its inventory, and the
-- saturating arithmetic.
use kvm_infrastructure_manag.Base.{
  ℕ, ◌-◌, ◌*◌, ◌/◌, String, Bool, true, false, ◌&&◌, ◌||◌, none, some, List, [], ◌∷◌, ◌++◌, length,
  ltb, leb, ◌==◌, if◌then◌else◌, str_eq,
}
use kvm_infrastructure_manag.Base.Words.{u64_mod, add64, sub64}
use kvm_infrastructure_manag.Inventory.Model.{
  Snapshot, Fragment, Capability, CpuThread, Memory, HugePagePool,
}

unfoldable pub saturating_subtract : ℕ → ℕ → ℕ
saturating_subtract total used = if leb total used then 0 else total - used

unfoldable pub saturating_add : ℕ → ℕ → ℕ
unfolding add64
saturating_add left right =
    let result = add64 left right in if ltb result left then u64_mod - 1 else result

unfoldable pub ceil_divide : ℕ → ℕ → ℕ
unfolding add64 sub64
ceil_divide value divisor = if divisor == 0 then 0 else (sub64 (add64 value divisor) 1) / divisor

unfoldable pub capability_available : List Capability → String → Bool
capability_available [] name = false
capability_available (c ∷ cs) name =
    (str_eq c.name name && str_eq c.state "AVAILABLE") || capability_available cs name

pub record HostCapacity : Type 0 where
  pub vcpus : ℕ
  pub isolated_vcpus : ℕ
  pub memory_mib : ℕ
  pub observed_available_memory_mib : ℕ
  pub numa_nodes : ℕ
  pub huge_page_total : ℕ → ℕ
  pub huge_page_free : ℕ → ℕ

-- The capacity so far, and which topologies have been seen.
pub record Scan : Type 0 where
  pub capacity : HostCapacity
  pub compute_seen : Bool
  pub memory_seen : Bool

unfoldable pub count_thread : CpuThread → HostCapacity → HostCapacity
unfolding add64
count_thread t c =
    if t.online
    then record c {
      vcpus = add64 c.vcpus 1;
      isolated_vcpus = if t.isolated then add64 c.isolated_vcpus 1 else c.isolated_vcpus;
    }
    else c

unfoldable pub count_threads : List CpuThread → HostCapacity → HostCapacity
unfolding count_thread
count_threads [] c = c
count_threads (t ∷ ts) c = count_threads ts (count_thread t c)

-- A write to a map of page counts.
abbrev pub bump : (ℕ → ℕ) → ℕ → ℕ → ℕ → ℕ
bump pages size n k = if k == size then add64 (pages k) n else pages k

unfoldable pub count_pools : List HugePagePool → HostCapacity → HostCapacity
unfolding add64
count_pools [] c = c
count_pools (p ∷ ps) c =
    let size = p.page_size_bytes / 1024 in
    count_pools ps (record c {
      huge_page_total = bump c.huge_page_total size p.total_pages;
      huge_page_free = bump c.huge_page_free size p.free_pages;
    })

unfoldable pub scan_memory : Memory → HostCapacity → HostCapacity
unfolding count_pools
scan_memory m c = count_pools m.huge_page_pools (record c {
  memory_mib = m.total_bytes / (1024 * 1024);
  observed_available_memory_mib = m.available_bytes / (1024 * 1024);
  numa_nodes = length m.numa_nodes;
})

unfoldable pub scan_fragment : Fragment → Scan → Scan
unfolding capability_available count_threads scan_memory
scan_fragment f s = elim f.compute [
  | some compute ↦
      if capability_available f.capabilities "kim.host.cpu-topology.v1"
      then record s { capacity = count_threads compute.threads s.capacity; compute_seen = true }
      else s
  | none ↦ elim f.memory [
    | some memory ↦
        if capability_available f.capabilities "kim.host.memory.v1"
        then record s { capacity = scan_memory memory s.capacity; memory_seen = true }
        else s
    | none ↦ s
  ]
]

unfoldable pub scan_fragments : List Fragment → Scan → Scan
unfolding scan_fragment
scan_fragments [] s = s
scan_fragments (f ∷ fs) s = scan_fragments fs (scan_fragment f s)

abbrev pub no_capacity : HostCapacity
no_capacity = record {
  vcpus = 0;
  isolated_vcpus = 0;
  memory_mib = 0;
  observed_available_memory_mib = 0;
  numa_nodes = 0;
  huge_page_total = λ size. 0;
  huge_page_free = λ size. 0;
}

unfoldable pub extract_capacity : Snapshot → HostCapacity × List String
unfolding scan_fragments
extract_capacity snapshot =
    let s =
      scan_fragments snapshot.fragments
        (record { capacity = no_capacity; compute_seen = false; memory_seen = false }) in
    (
      s.capacity,
      (if s.compute_seen then [] else "cpu_topology_unavailable" ∷ [])
          ++ (if s.memory_seen then [] else "memory_topology_unavailable" ∷ []),
    )

-- ===== src/Placement/Overcommit.antt =====
-- The room that an eligible host has beside what is claimed on it already: for the CPUs and the
-- memory of the request, and for each volume alone.
use kvm_infrastructure_manag.Base.{
  ℕ, ◌+◌, ◌≤◌, ◌<◌, ◌≡◌, String, true, ◌||◌, Option, none, some, List, [], ◌∷◌, arith,
  if◌then◌else◌, str_eq, All, ok,
}
use kvm_infrastructure_manag.Base.Words.{u64_mod, add64}
use kvm_infrastructure_manag.Placement.Types.{
  Request, AuthoritySnapshot, StorageRequirement, StorageAuthority, Evaluation,
}
use kvm_infrastructure_manag.Placement.Capacity.{
  HostCapacity, extract_capacity, saturating_subtract, saturating_add,
}
use kvm_infrastructure_manag.Placement.Reasons.{ledger_available}
use kvm_infrastructure_manag.Placement.Evaluate.{available_vcpus, ledger_memory, evaluate}
use kvm_infrastructure_manag.Placement.HostFits.{Has}
use kvm_infrastructure_manag.Placement.PartFits.{VolumeFits, StorageFits}
use kvm_infrastructure_manag.Placement.Eligible.{eligible_iff}

-- Saturating arithmetic never claims more than there is.
saturating_subtract_room :
    (total used n : ℕ) → 0 < n → n ≤ saturating_subtract total used → used + n ≤ total
unfolding saturating_subtract
saturating_subtract_room total used n p h = ground arith

saturating_add_room :
    (a b n t : ℕ)
    → a < u64_mod
    → b < u64_mod
    → t < u64_mod
    → 0 < n
    → saturating_add a b + n ≤ t
    → a + b + n ≤ t
unfolding saturating_add add64
saturating_add_room a b n t ha hb ht p h = ground arith

-- The CPUs that a request draws on.
abbrev pub cpu_pool : Request → HostCapacity → ℕ
cpu_pool r c =
    if r.cpu_pinning || str_eq r.cpu_allocation "DEDICATED" then c.isolated_vcpus else c.vcpus

-- The room of a backend: by the ledger, and by what it shows as free.
pub record HasRoom (r : StorageRequirement) (s : StorageAuthority) : Type 0 where
  pub ledger : s.hard_reserve_bytes + s.claimed_bytes + r.size_bytes ≤ s.total_bytes
  pub observed : s.external_or_unknown_bytes + r.size_bytes ≤ s.observed_free_bytes

-- The byte counts of a backend are 64-bit words.
pub record AreWords (s : StorageAuthority) : Type 0 where
  pub total : s.total_bytes < u64_mod
  pub reserve : s.hard_reserve_bytes < u64_mod
  pub claimed : s.claimed_bytes < u64_mod

ledger_room :
    (r : StorageRequirement) (s : StorageAuthority)
    → AreWords s
    → 0 < r.size_bytes
    → r.size_bytes ≤ ledger_available s
    → HasRoom r s
unfolding ledger_available
ledger_room r s w p h = record {
  ledger =
      saturating_add_room s.hard_reserve_bytes s.claimed_bytes r.size_bytes s.total_bytes w.reserve
        w.claimed w.total p
        (saturating_subtract_room s.total_bytes
          (saturating_add s.hard_reserve_bytes s.claimed_bytes) r.size_bytes p (ground arith));
  observed =
      saturating_subtract_room s.observed_free_bytes s.external_or_unknown_bytes r.size_bytes p
        (ground arith);
}

-- The backend of a volume is known and has room for this volume.
abbrev pub RoomFor : AuthoritySnapshot → StorageRequirement → Type 0
RoomFor a r = Has (a.storage r.volume_id) (HasRoom r)

abbrev pub WordsFor : AuthoritySnapshot → StorageRequirement → Type 0
WordsFor a r = Has (a.storage r.volume_id) AreWords × (0 < r.size_bytes)

has_room :
    (o : Option StorageAuthority) (a : AuthoritySnapshot) (r : StorageRequirement)
    → Has o AreWords
    → 0 < r.size_bytes
    → Has o (VolumeFits a r)
    → Has o (HasRoom r)
has_room none a r w p f = f
has_room (some s) a r w p f = ledger_room r s w p f.1.1.1.1.0

every_room :
    (a : AuthoritySnapshot) (rs : List StorageRequirement)
    → All (WordsFor a) rs
    → All (StorageFits a) rs
    → All (RoomFor a) rs
every_room a [] w f = tt
every_room a (r ∷ rs) w f =
    (has_room (a.storage r.volume_id) a r w.0.0 w.0.1 f.0, every_room a rs w.1 f.1)

cpu_room :
    (r : Request) (a : AuthoritySnapshot) (c : HostCapacity)
    → 0 < r.vcpus
    → r.vcpus ≤ available_vcpus r a c
    → a.claimed_vcpus + r.vcpus ≤ cpu_pool r c
unfolding available_vcpus
cpu_room r a c p h =
    saturating_subtract_room (cpu_pool r c) a.claimed_vcpus r.vcpus p (ground arith)

memory_room :
    (r : Request) (a : AuthoritySnapshot) (c : HostCapacity)
    → 0 < r.memory_mib
    → r.memory_mib ≤ ledger_memory a c
    → (a.claimed_memory_mib + r.memory_mib ≤ c.memory_mib)
      × (r.memory_mib ≤ c.observed_available_memory_mib)
unfolding ledger_memory
memory_room r a c p h = (
  saturating_subtract_room c.memory_mib a.claimed_memory_mib r.memory_mib p (ground arith),
  ground arith,
)

module _ (request_digest : Request → String) (evaluation_digest : Evaluation → String) where
  -- If a host is found eligible for a request of at least one CPU and some memory and storage sizes,
  -- then the CPUs that are claimed and those that are asked for are together within the CPUs that
  -- the request draws on, and likewise the memory, which is also within what the host shows as
  -- free. Each volume of the request, taken alone and not together with its other volumes, is within
  -- the total of its backend beside the reserve and what is claimed there, and within what the
  -- backend shows as free beside the bytes of others. The byte counts of the backends are words.
  pub no_overcommit :
      (r : Request) (a : AuthoritySnapshot) (e : Evaluation)
      → evaluate request_digest evaluation_digest r a ≡ ok e
      → e.eligible ≡ true
      → 0 < r.vcpus
      → 0 < r.memory_mib
      → All (WordsFor a) r.storage
      → let c = (extract_capacity a.inventory).0 in
        (a.claimed_vcpus + r.vcpus ≤ cpu_pool r c)
        × (a.claimed_memory_mib + r.memory_mib ≤ c.memory_mib)
        × (r.memory_mib ≤ c.observed_available_memory_mib)
        × All (RoomFor a) r.storage
  no_overcommit r a e h k cpu mem words =
      let c = (extract_capacity a.inventory).0 in
      let f = (eligible_iff request_digest evaluation_digest r a e h).0 k in
      let m = memory_room r a c mem f.capacity.1 in
      (cpu_room r a c cpu f.capacity.0, m.0, m.1, every_room a r.storage words f.storage)

-- ===== src/Inventory/Registry.antt =====
-- internal/agent/inventory/registry.go and envelope.go. What the modules' `Collect` gives is an argument
-- of `collect`: they run at the same time and any failure of one fails the call, whichever comes first.
-- The map of the modules is a list in the order of their registration.
pub mod Collected
use kvm_infrastructure_manag.Base.{
  ℕ, ◌≡◌, String, Bool, true, false, ◌&&◌, ◌||◌, not, Option, none, some, List, [], ◌∷◌, ◌++◌, ◌==◌,
  if◌then◌else◌, str_eq, Result, ok, err, ◌>>=◌, length,
}
use kvm_infrastructure_manag.Base.Sort.{sort}
use kvm_infrastructure_manag.Base.Text.{str_lt}
use kvm_infrastructure_manag.Session.Envelope.{Envelope, inventory, new_envelope}
use kvm_infrastructure_manag.Inventory.Model.{Snapshot, Fragment, Capability, domain_known}
use kvm_infrastructure_manag.Inventory.Payloads as payloads
use kvm_infrastructure_manag.Inventory.Payloads.{valid_digest}
use kvm_infrastructure_manag.Inventory.Normalize.{
  Json, normalize_and_validate, marshal_canonical, snapshot_schema,
}

pub data Error : Type 0 where
  descriptor_incomplete domain_unknown no_capabilities capability_empty capability_repeated : Error
  module_missing registry_sealed module_registered no_modules identity_missing : Error
  module_failed domain_differs capability_undeclared capability_unreported : Error
  refused_snapshot : payloads.Error → Error

pub record ModuleDescriptor : Type 0 where
  pub name : String
  pub version : String
  pub domain : String
  pub schema_version : String
  pub artifact_digest : String
  pub capability_names : List String

pub record Registry : Type 0 where
  pub modules : List ModuleDescriptor
  pub sealed : Bool

abbrev pub new_registry : Registry
new_registry = record { modules = []; sealed = false }

abbrev pub in_names : String → List String → Bool
in_names k [] = false
in_names k (x ∷ xs) = str_eq x k || in_names k xs

-- The error of the first capability name that is empty or repeats one before it.
unfoldable pub names_error : List String → List String → Option Error
names_error seen [] = none
names_error seen (x ∷ xs) =
    let rest = names_error (x ∷ seen) xs in
    if str_eq x ""
    then some capability_empty
    else if in_names x seen
    then some capability_repeated
    else rest

unfoldable pub validate_descriptor : ModuleDescriptor → Option Error
validate_descriptor d =
    if str_eq d.name ""
      || str_eq d.version ""
      || str_eq d.schema_version ""
      || not (valid_digest d.artifact_digest)
    then some descriptor_incomplete
    else if not (domain_known d.domain)
    then some domain_unknown
    else if length d.capability_names == 0
    then some no_capabilities
    else names_error [] d.capability_names

abbrev pub is_registered : String → List ModuleDescriptor → Bool
is_registered k [] = false
is_registered k (d ∷ ds) = str_eq d.name k || is_registered k ds

abbrev pub register_valid : ModuleDescriptor → Option Error → Registry → Option Error × Registry
register_valid d (some e) r = (some e, r)
register_valid d none r =
    if r.sealed
    then (some registry_sealed, r)
    else if is_registered d.name r.modules
    then (some module_registered, r)
    else (none, record r { modules = r.modules ++ d ∷ [] })

unfoldable pub register_inventory : Option ModuleDescriptor → Registry → Option Error × Registry
register_inventory none r = (some module_missing, r)
register_inventory (some d) r = register_valid d (validate_descriptor d) r

unfoldable pub seal_and_list : Registry → Result Error (List ModuleDescriptor) × Registry
seal_and_list r = if length r.modules == 0 then (err no_modules, r) else (
  ok (sort (λ (a b : ModuleDescriptor). str_lt a.name b.name) r.modules),
  record r { sealed = true },
)

abbrev pub all_names : List ModuleDescriptor → List String
all_names [] = []
all_names (d ∷ ds) = d.capability_names ++ all_names ds

unfoldable pub advertised_capabilities : Registry → Result Error (List String) × Registry
advertised_capabilities r =
    ((seal_and_list r).0 >>= (λ ds. ok (sort str_lt (all_names ds))), (seal_and_list r).1)

abbrev pub all_declared : List String → List Capability → Bool
all_declared names [] = true
all_declared names (c ∷ cs) = in_names c.name names && all_declared names cs

unfoldable pub bind_descriptor : Fragment → ModuleDescriptor → Result Error Fragment
bind_descriptor f d =
    if not (str_eq f.domain d.domain)
    then err domain_differs
    else if not (all_declared d.capability_names f.capabilities)
    then err capability_undeclared
    else if not (length f.capabilities == length d.capability_names)
    then err capability_unreported
    else ok (record f {
      source = record {
        module_name = d.name;
        module_version = d.version;
        schema_version = d.schema_version;
        artifact_digest = d.artifact_digest;
      };
    })

abbrev pub bound : ModuleDescriptor → Option Fragment → Result Error Fragment
bound d none = err module_failed
bound d (some f) = bind_descriptor f d

unfoldable pub collect_all :
    (ModuleDescriptor → Option Fragment) → List ModuleDescriptor → Result Error (List Fragment)
collect_all observe [] = ok []
collect_all observe (d ∷ ds) =
    bound d (observe d) >>= (λ f. collect_all observe ds >>= (λ fs. ok (f ∷ fs)))

abbrev pub some_unknown : List Capability → Bool
some_unknown [] = false
some_unknown (c ∷ cs) = str_eq c.state "UNKNOWN" || some_unknown cs

unfoldable pub is_degraded : List Fragment → Bool
is_degraded [] = false
is_degraded (f ∷ fs) = some_unknown f.capabilities || is_degraded fs

abbrev pub validated : Result payloads.Error Snapshot → Result Error Snapshot
validated (err e) = err (refused_snapshot e)
validated (ok s) = ok s

abbrev pub snapshot_from : String → ℕ → List Fragment → Snapshot
snapshot_from host generation fs = record {
  schema_version = snapshot_schema;
  host_identity = host;
  observation_generation = generation;
  collection_status = if is_degraded fs then "DEGRADED" else "COMPLETE";
  capabilities = [];
  fragments = fs;
}

unfoldable pub collect :
    (ModuleDescriptor → Option Fragment) → String → ℕ → Registry → Result Error Snapshot × Registry
collect observe host generation r =
    if str_eq host "" || generation == 0 then (err identity_missing, r) else (
      (seal_and_list r).0
          >>= collect_all observe
          >>= (λ fs. validated (normalize_and_validate (snapshot_from host generation fs))),
      (seal_and_list r).1,
    )

-- The message of a snapshot.
unfoldable pub inventory_envelope :
    (List ℕ → String) → Json (List ℕ) → Snapshot → ℕ → String → Result payloads.Error Envelope
inventory_envelope sha lib s session_generation message_id = marshal_canonical lib s >>= (λ payload.
    ok
      (record (new_envelope sha s.host_identity session_generation inventory message_id
        snapshot_schema "host-inventory" s.observation_generation payload) {
          resource_generation = s.observation_generation;
        }))

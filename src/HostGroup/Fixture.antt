-- ===== src/HostGroup/Fixture.antt =====
-- Test data: an inventory and an expression.
use kvm_infrastructure_manag.Base.{
  List, String, true, false, none, some, [], ◌∷◌, if◌then◌else◌, str_eq,
}
use kvm_infrastructure_manag.Base.Ints.{pos}
use kvm_infrastructure_manag.Inventory.Model.{Snapshot, Fragment, Capability, Source}
use kvm_infrastructure_manag.HostGroup.Selector.{SelectorExpression}

abbrev pub source : Source
source = record {
  module_name = "m";
  module_version = "1";
  schema_version = "v1";
  artifact_digest = "0123456789abcdef0123456789abcdef0123456789abcdef0123456789abcdef";
}

abbrev pub capability : String → String → Capability
capability name state = record {
  name = name;
  version = "v1";
  state = state;
  reason_code = if str_eq state "AVAILABLE" then "" else "probe";
  constraints = [];
}

abbrev pub capabilities : String → List Capability
capabilities sriov =
    capability "kim.host.cpu-topology.v1" "AVAILABLE"
    ∷ capability "kim.host.sriov-observation.v1" sriov
    ∷ []

abbrev pub compute : String → Fragment
compute sriov = record {
  domain = "COMPUTE";
  source = source;
  evidence = [];
  capabilities = capabilities sriov;
  compute = some (record {
    architecture = "x86_64";
    cpu_model = "m";
    threads =
        record {
          linux_id = pos 0;
          core_id = pos 0;
          socket_id = pos 0;
          numa_node_id = pos 0;
          online = true;
          isolated = false;
        }
        ∷ [];
  });
  memory = none;
  pci = none;
  network = none;
  storage = none;
  virtualization = none;
}

abbrev pub snapshot : String → String → Snapshot
snapshot host sriov = record {
  schema_version = "kim.inventory.snapshot/v3";
  host_identity = host;
  observation_generation = 1;
  collection_status = "COMPLETE";
  capabilities = capabilities sriov;
  fragments = compute sriov ∷ [];
}

abbrev pub expression : SelectorExpression
expression = record {
  match_all =
      record {
        field = "CAPABILITY_STATE";
        key = "kim.host.sriov-observation.v1";
        operator = "EQUALS";
        value = "AVAILABLE";
      }
      ∷ record { field = "COMPUTE_ARCHITECTURE"; key = ""; operator = "EQUALS"; value = "x86_64" }
      ∷ [];
  unknown_policy = "FAIL_CLOSED";
}

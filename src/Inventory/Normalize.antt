-- ===== src/Inventory/Normalize.antt =====
-- internal/agent/inventory/model.go: `NormalizeAndValidate`, `normalizeFragment`, `DecodeSnapshot` and
-- `MarshalCanonical`. The code changes the snapshot in place; here the result is the new snapshot, and
-- what is left of one that was refused is not kept. The map of the capabilities is a list without an
-- order. JSON is a parameter.
pub mod Reports
use kvm_infrastructure_manag.Base.{
  ℕ, ◌≡◌, ◌+◌, String, Bool, true, false, ◌&&◌, ◌||◌, not, Option, none, some, List, [], ◌∷◌, ◌==◌,
  if◌then◌else◌, str_eq, Result, ok, err, ◌>>=◌,
}
use kvm_infrastructure_manag.Base.Sort.{sort}
use kvm_infrastructure_manag.Base.Text.{str_lt}
use kvm_infrastructure_manag.Inventory.Model.{
  Snapshot, Fragment, Capability, Constraint, EvidenceRef, availability_valid, domain_known,
}
use kvm_infrastructure_manag.Inventory.Payloads.{
  Error, snapshot_incomplete, status_invalid, duplicate_capability, source_invalid,
  payload_mismatch, evidence_invalid, capability_incomplete, reason_present, reason_missing,
  constraint_invalid, decode_failed, trailing_data, marshal_failed, capabilities_differ, refused,
  reason_wrong, valid_digest, is_there, normalize_compute, normalize_memory, normalize_pci,
  normalize_network, normalize_storage, normalize_virtualization,
}

abbrev pub snapshot_schema : String
snapshot_schema = "kim.inventory.snapshot/v3"

abbrev pub evidence_before : EvidenceRef → EvidenceRef → Bool
evidence_before a b =
    if not (str_eq a.field b.field)
    then str_lt a.field b.field
    else str_lt a.source_path b.source_path

abbrev pub evidence_bad : EvidenceRef → Bool
evidence_bad e =
    str_eq e.field ""
    || str_eq e.source_path ""
    || not (availability_valid e.state)
    || reason_wrong e.state e.reason_code

abbrev pub same_evidence : EvidenceRef → EvidenceRef → Bool
same_evidence a b = str_eq a.field b.field && str_eq a.source_path b.source_path

unfoldable pub normalize_capability : Capability → Result Error Capability
normalize_capability c =
    let constraints = sort (λ (a b : Constraint). str_lt a.name b.name) c.constraints in
    if str_eq c.name "" || str_eq c.version "" || not (availability_valid c.state)
    then err capability_incomplete
    else if str_eq c.state "AVAILABLE" && not (str_eq c.reason_code "")
    then err reason_present
    else if not (str_eq c.state "AVAILABLE") && str_eq c.reason_code ""
    then err reason_missing
    else if refused (λ (k : Constraint). str_eq k.name "") (λ a b. str_eq a.name b.name) constraints
    then err constraint_invalid
    else ok (record c { constraints = constraints })

unfoldable pub normalize_capabilities : List Capability → Result Error (List Capability)
normalize_capabilities [] = ok []
normalize_capabilities (c ∷ cs) = elim (normalize_capability c) [
  | err e ↦ err e
  | ok d ↦ elim (normalize_capabilities cs) [ err e ↦ err e | ok ds ↦ ok (d ∷ ds) ]
]

abbrev counted : Bool → ℕ
counted b = if b then 1 else 0

abbrev bool_eq : Bool → Bool → Bool
bool_eq true b = b
bool_eq false b = not b

-- There is one payload, that of the domain.
unfoldable pub payload_matches : Fragment → Bool
payload_matches f =
    counted (is_there f.compute)
        + counted (is_there f.memory)
        + counted (is_there f.pci)
        + counted (is_there f.network)
        + counted (is_there f.storage)
        + counted (is_there f.virtualization)
      == 1
    && bool_eq (str_eq f.domain "COMPUTE") (is_there f.compute)
    && bool_eq (str_eq f.domain "MEMORY") (is_there f.memory)
    && bool_eq (str_eq f.domain "PCI") (is_there f.pci)
    && bool_eq (str_eq f.domain "NETWORK") (is_there f.network)
    && bool_eq (str_eq f.domain "STORAGE") (is_there f.storage)
    && bool_eq (str_eq f.domain "VIRTUALIZATION") (is_there f.virtualization)

unfoldable pub source_refused : Fragment → Bool
source_refused f =
    not (domain_known f.domain)
    || str_eq f.source.module_name ""
    || str_eq f.source.module_version ""
    || str_eq f.source.schema_version ""
    || not (valid_digest f.source.artifact_digest)

-- The payload, if it is there.
abbrev pub optional : {A : Type 0} → (A → Result Error A) → Option A → Result Error (Option A)
optional f none = ok none
optional f (some x) = f x >>= (λ y. ok (some y))

-- The switch on the domain: only the payload of the domain is there.
unfoldable pub normalize_payload : List Capability → Fragment → Result Error Fragment
normalize_payload cs f = optional (normalize_compute cs) f.compute >>= (λ compute.
    optional (normalize_memory cs) f.memory >>= (λ memory. optional normalize_pci f.pci >>= (λ pci.
      optional normalize_network f.network >>= (λ network.
        optional normalize_storage f.storage >>= (λ storage.
          optional normalize_virtualization f.virtualization >>= (λ virtualization. ok (record {
            domain = f.domain;
            source = f.source;
            evidence = sort evidence_before f.evidence;
            capabilities = cs;
            compute = compute;
            memory = memory;
            pci = pci;
            network = network;
            storage = storage;
            virtualization = virtualization;
          })))))))

abbrev pub capability_before : Capability → Capability → Bool
capability_before a b = str_lt a.name b.name

unfoldable pub normalize_fragment : Fragment → Result Error Fragment
normalize_fragment f =
    if source_refused f
    then err source_invalid
    else if not (payload_matches f)
    then err payload_mismatch
    else if refused evidence_bad same_evidence (sort evidence_before f.evidence)
    then err evidence_invalid
    else normalize_capabilities f.capabilities
      >>= (λ cs. normalize_payload (sort capability_before cs) f)

abbrev pub has_name : String → List Capability → Bool
has_name k [] = false
has_name k (c ∷ cs) = str_eq c.name k || has_name k cs

unfoldable pub add_all : List Capability → List Capability → Result Error (List Capability)
add_all [] seen = ok seen
add_all (c ∷ cs) seen =
    let rest = add_all cs (c ∷ seen) in
    if has_name c.name seen then err duplicate_capability else rest

-- The fragments, and the capabilities in the map after them.
unfoldable pub normalize_fragments :
    List Fragment → List Capability → Result Error (List Fragment × List Capability)
normalize_fragments [] seen = ok ([], seen)
normalize_fragments (f ∷ fs) seen = elim (normalize_fragment f) [
  | err e ↦ err e
  | ok g ↦ elim (add_all g.capabilities seen) [
    | err e ↦ err e
    | ok more ↦ elim (normalize_fragments fs more) [
      | err e ↦ err e
      | ok (gs, all) ↦ ok (g ∷ gs, all)
    ]
  ]
]

abbrev pub fragment_before : Fragment → Fragment → Bool
fragment_before a b =
    if not (str_eq a.domain b.domain)
    then str_lt a.domain b.domain
    else str_lt a.source.module_name b.source.module_name

abbrev pub with_fragments : Snapshot → List Fragment × List Capability → Snapshot
with_fragments s (fs, cs) = record s {
  fragments = sort fragment_before fs;
  capabilities = sort capability_before cs;
}

unfoldable pub normalize_and_validate : Snapshot → Result Error Snapshot
normalize_and_validate s =
    if not (str_eq s.schema_version snapshot_schema)
      || str_eq s.host_identity ""
      || s.observation_generation == 0
    then err snapshot_incomplete
    else if not (str_eq s.collection_status "COMPLETE")
        && not (str_eq s.collection_status "DEGRADED")
    then err status_invalid
    else normalize_fragments s.fragments [] >>= (λ r. ok (with_fragments s r))

-- The JSON library, on the texts of snapshots.
pub record Json (Payload : Type 0) : Type 0 where
  -- The first JSON value, and whether nothing follows it.
  pub parse : Payload → Option (Snapshot × Bool)
  pub marshal_capabilities : List Capability → String
  pub marshal_snapshot : Snapshot → Payload

module _ {Payload : Type 0} (lib : Json Payload) where
  abbrev pub presented : String → Result Error Snapshot → Result Error Snapshot
  presented before (err e) = err e
  presented before (ok n) =
      if not (str_eq before (lib.marshal_capabilities n.capabilities))
      then err capabilities_differ
      else ok n

  unfoldable pub decode_snapshot : Payload → Result Error Snapshot
  decode_snapshot payload = elim (lib.parse payload) [
    | none ↦ err decode_failed
    | some (s, finished) ↦
        if not finished
        then err trailing_data
        else presented (lib.marshal_capabilities s.capabilities) (normalize_and_validate s)
  ]

  unfoldable pub marshal_canonical : Snapshot → Result Error Payload
  marshal_canonical s = normalize_and_validate s >>= (λ n. ok (lib.marshal_snapshot n))

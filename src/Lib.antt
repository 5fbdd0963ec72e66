-- ===== src/Lib.antt =====
-- The KVM infrastructure manager: the Agent's session with its Gateway, the bounded queue of its
-- messages, its durable state and its execution of commands, the admission at the Gateway, the
-- inventory of a host, the groups of hosts, and the placement of virtual machines. The program is a
-- control plane in Go: an Agent on each host keeps one session to a Gateway, over which commands come
-- in and results, heartbeats, inventory and evidence go out; workers and an HTTP API act on the
-- authority that a PostgreSQL database holds. A group of hosts is selected by the inventories of the
-- hosts; the placement finds the host of a new virtual machine from a snapshot of that authority.
--
-- The files:
--   - Base, with Base/*: the natural numbers with their Boolean tests, lists, results, the wrap-around
--     of 64-bit words, integers, the sort, the order on strings, and maps with string keys.
--   - Session/Error and Session/Envelope: internal/agent/session/envelope.go and the errors of
--     manager.go. `Stream` has one constructor for each known stream and one for any other text.
--   - Session/Authority: internal/agent/session/authority.go, `MemoryAuthorityView.Apply`.
--   - Session/Queue: internal/agent/session/queue.go. `lanes` is a function from streams to lists;
--     `pop_scan` is the loop of `popFirst`, `pop_bulk`, `pop_control` and `pop_authority` are its calls
--     in `Dequeue` with the counters that each writes, and `attempts` is their order. The proofs are in
--     Session/Queue/*.
--   - Session/Manager: internal/agent/session/manager.go. A connection and a module are what the
--     environment gives: `Send` and `Receive` are arguments, as functions to their results. `Open`
--     releases the lock while it dials and is two steps, `open_begin` and `open_finish`. `FlushOne`
--     holds no lock from `Dequeue` to `Enqueue`: what other calls do to the queue between them is an
--     argument of `flush_one`. The proofs are in Session/Manager/*, the interleavings of `Open`,
--     `Close` and `RegisterModule` in Session/Manager/Opening.
--   - Agent/Backoff: internal/agent/reconnect/backoff.go. The loop is a recursion on the attempts that
--     are left.
--   - Agent/Generation: internal/agent/sessiongeneration/ledger.go. The file current.json is an argument
--     and a result beside the ledger; Agent/Generation/Fresh has the runs over restarts.
--   - Agent/Journal: internal/agent/executionjournal/journal.go, with the files of its directory in
--     `Disk`. A call of the system that fails is an argument of type `Fault`.
--   - Agent/Spool and Agent/Spool/Load: internal/agent/spool/spool.go, with the files of the queue
--     directory in `Disk`.
--     `enqueue_validated`, `enqueue_found` and `store` are the parts of `Enqueue` behind its guards, and
--     `acknowledge_found`, `acknowledge_compared` and `release` those of `Acknowledge`.
--   - Execution/Contract, World and Module: internal/execution/contract/contract.go and
--     internal/agent/execution/module.go, on Agent/Journal. The world keeps the calls of `Execute` and
--     `Publish` so far, each with the disk at its time; `handle_lease` is the part of `Handle` behind the
--     schema guards, `handle_request` is `handleVerification`.
--   - Gateway/Registry: internal/agent/gateway/outbound_registry.go. `release` is a call of the function
--     that `Register` returns; Gateway/Registry/Calls has the specification by
--     the calls alone, and Gateway/Registry/History the runs.
--   - Gateway/Admission: internal/agent/gateway/admission.go and the limiter of preauth.go. `act` is the
--     next atomic action of one caller, `Step` interleaves the callers.
--   - HostGroup/Selector, Tables, Evaluation and Members:
--     internal/persistence/postgres/host_group_selector.go. `Selector` normalises a revision and
--     evaluates it on a snapshot; `Evaluation` is `EvaluateHostGroupSelector` as one step on the
--     tables that it reads and writes; `Members` has the set that is made of an evaluation and the
--     check of a set. Locks and failing queries are left out.
--   - HostGroup/Cardinality: internal/persistence/postgres/host_group.go, `propose` from
--     `publishHostGroupMembershipSetTx` and `validateHostGroupCardinalityTx`.
--   - HostGroup/Hierarchy: the checks of internal/persistence/postgres/host_group_hierarchy.go on a
--     hierarchy that is published; HostGroup/Hierarchy/Rooted follows the parents.
--   - Inventory/Model, Payloads and Normalize: internal/agent/inventory/model.go, its types, the switch of
--     `normalizeFragment` with the tests on texts, and the normalisation with `DecodeSnapshot`.
--   - Inventory/Registry: internal/agent/inventory/registry.go and envelope.go. The results of the modules
--     are an argument of `collect`.
--   - Placement/Types, Requirements, Capacity, Reasons and Evaluate: internal/placement/evaluator.go.
--     `ordered` and `check` are the copies, sorts and guards at the start of `Evaluate`; `reasons` is
--     its list of reason codes; `undigested` is the evaluation before its digest. The conditions that
--     the reasons deny are in Placement/Conditions, HostFits, PartFits and Eligible; what a request
--     that passes the guards has is in Placement/Accepted.
--
-- Numbers. A counter, a size or a generation is a natural number. Where the placement adds, subtracts
-- or multiplies 64-bit words, the wrap-around modulo 2^64 is written out; the counters of the queue are
-- bounded by the limits that `NewPriorityQueue` has checked. `ReservedPriorityMsgs` and
-- `ReservedPriorityBytes`, which the code tests for a sign, are integers. A Go map is a function, into
-- Option where the code tells a missing key apart, or a list with one entry for a key. A Go string is a
-- text whose characters stand for its bytes. SHA-256 digests, the JSON text and the transport
-- are parameters. The recursion is over lists, except for `pop_scan`, whose number of rounds is the
-- number of streams, as in the range loop, and `climb`, which a specification uses and which is given
-- as many steps as a group has levels above it.
--
-- Not modelled: the rest of the database layer (internal/persistence), the HTTP API (internal/northbound), the OVN
-- adapters (internal/network), the executors of libvirt, LVM and Open vSwitch (internal/agent/execution),
-- the transports' sockets, and the commands (cmd): they are queries, system calls and wiring.
pub mod Agent
pub mod Base
pub mod Execution
pub mod Gateway
pub mod HostGroup
pub mod Session
pub mod Inventory
pub mod Placement

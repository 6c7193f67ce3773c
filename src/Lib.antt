-- ===== src/Lib.antt =====
-- Remote Robot: a verification library for the server that runs programs on groups of robots. A run
-- takes exclusive leases on what it moves, its phases run on workers that are reached by framed
-- CBOR messages, and what happens is written to a journal that survives a restart.
--
-- Lease is remote_robot/lease.py. `LeaseManager` is the record of its two tables; `acquire`,
-- `release`, `owner_of`, `grant_for` and `active_grants` are functions from the manager to a result
-- and the manager after it. A method holds the manager's lock from end to end, so it is one step.
-- The clock is an argument. Frozen sets are lists of distinct keys. Lease/Request has the request
-- and its checks; Lease/Targets, Lease/Invariant, Lease/Acquire, Lease/Refused, Lease/Release and
-- Lease/History are the proofs.
--
-- Journal is remote_robot/journal.py. `Journal` is `_JournalBase` with the bytes of its file or
-- with no file. Journal/Data checks events, Journal/Frame writes and reads one record, Journal/Load
-- reads a file at a restart. The clock and what the write, flush and fsync come to are an argument
-- of `append`, `Moment`; a failure leaves some bytes of the record in the file, or in the buffer of
-- its handle, which is counted with the file. Journal/Outcome says what `append` can do, and
-- Journal/Sequence, Journal/Backed, Journal/Restart and Journal/Reopen are the proofs. The loop of
-- `_load` runs on fuel; a frame is never empty, so one more than the file's length is enough.
--
-- Ipc is remote_robot/ipc.py: `_validate_value`, `canonical_payload`, `encode_frame`,
-- `decode_payload`, `decode_frame` and `read_frame`, and `_data_copy` of remote_robot/worker.py.
-- Ipc/Wire is `validate_wire_message`. Ipc/Frames, Ipc/Depth and Ipc/Envelopes are the proofs.
-- Worker is the class `InMemoryWorker` of remote_robot/worker.py. The asyncio task of
-- `_execute_phase` is part of the state: the sleep at which it stands, and `run_task` runs it on.
-- The events are the dicts that the source queues. Worker/Data has the state and `_emit`;
-- Worker/Coherent, Worker/History, Worker/Stopping and Worker/Phases are the proofs.
--
-- Orchestrator is remote_robot/orchestrator.py. Orchestrator/Port has the workers, the clocks and
-- the cancellation of the task as a parameter, the state of a run and a step of it, which returns
-- or raises; a call to all workers takes their replies in the order of their names; if the run is
-- cancelled meanwhile, the first of the calls were begun, as many as the port says; and
-- `_wait_all_for_event` takes the events of one worker after another. Orchestrator/Plans has the
-- plans of the workers and the replies that the journal keeps; Orchestrator/Events the events;
-- Orchestrator/Leased `_execute_leased`, one definition for each stretch of its body;
-- Orchestrator/Preflight the checks and `lock_requirements`, over what they call of program.py and
-- registry.py; Orchestrator/Locks `_collect_role_branch_locks`; Orchestrator/Execute `execute`, as
-- a call that runs alone, whose leases are those of Lease and whose events are those of Journal.
-- Orchestrator/Trace says what a step adds to a run's events and requests; Orchestrator/Active has
-- several calls of `execute` at once, at its two locks; Orchestrator/Steps, Orchestrator/Ensures,
-- Orchestrator/Rounds, Orchestrator/Workers, Orchestrator/Protocol, Orchestrator/Course,
-- Orchestrator/Terminal, Orchestrator/Neutral, Orchestrator/Waits, Orchestrator/Skew,
-- Orchestrator/Replies and Orchestrator/Branches are the proofs.
--
-- Registry is remote_robot/registry.py and remote_robot/model.py. Registry/Model and Registry/Nodes
-- are the classes of model.py, each with the checks of its `__post_init__`; Registry/Graph has
-- `_validate_graph`, `_leaf_paths` and `resolve_group`, Registry/Scopes
-- `_validate_composite_aliases`, `_validate_identity_scopes` and `_validate`. `visit` and
-- `_leaf_paths` run on one step more than there are nodes: the ids that are being visited are
-- different nodes. Registry/Manifest and Registry/Describe are `_manifest`, without its cache and
-- with the digest as a parameter, `describe` and `list_robots`. Registry/Parse and
-- Registry/ParseNode are the functions that read a document, and Registry/Load `_parse_node`,
-- `_parse_identity` and `load`, over the documents that tomllib gives of the files; each error of a
-- constructor is a RegistryError there. Registry/Ends, Registry/Acyclic, Registry/Complete,
-- Registry/Paths, Registry/Aliases and Registry/Loaded are the proofs. Orchestrator/Authorizer is
-- `RegistryControlAuthorizer` over it; Orchestrator/Located and Orchestrator/Found prove that the
-- manifests hold what the orchestrator's locks look for.
--
-- Value is Python's plain data; Text the string methods that the checks call; Bytes big-endian
-- lengths; Dict an insertion-ordered dict; Prelude the helpers. CBOR, SHA-256 and case folding are
-- packages that are not in the repository: they are parameters (`Codec` of Journal/Data, `Cbor` of
-- Ipc), and a theorem that needs them says what it needs.
--
-- Not modelled: reading the registry's files from the disk, the program compiler, the projection
-- for operators, the version 1 server and client (robot_server.py, robot_protocol.py,
-- robot_client.py), the network layer, the subprocess worker, the dashboard and the command line.
mod Prelude
pub mod Dict
pub mod Text
pub mod Bytes
pub mod Value
pub mod Lease
pub mod Journal
pub mod Ipc
pub mod Worker
pub mod Registry
pub mod Orchestrator

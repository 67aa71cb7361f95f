-- ===== src/Lib.antt =====
-- The verification library of the underpass runtime's core: what decides whether a tool may run, what
-- one invocation of a tool does, who may ask for it, and how its events and records are kept.
--
-- The parts and the files that model them (paths from the root of the repository):
--
--   * internal/domain: Domain.antt and its children. Session, Principal, RuntimeRef, Capability,
--     PolicyMetadata, Invocation and their parts are records with the fields that the modelled code
--     reads or writes. A Message is the text of a reason, built from its parts.
--   * internal/adapters/policy/static_policy.go: Policy.antt. Policy/Authorize.antt has Authorize, the
--     chain of checks; Roles, Arguments, Allowlists and Profiles have the checks; Fields reads the
--     arguments; Patterns has the wildcards. A check returns `none` to go on, or the refusal.
--   * internal/app/service.go: Service.antt. Service/Quota.antt is invocationQuotaLimiter; Runtime is
--     capabilitySupportedByRuntime; Schema is validateOutputAgainstSchema; Ports has the interfaces of
--     internal/app/types.go as a record of functions, and the effects; Reports has denyInvocation,
--     finishWithError, the audit, the events and the telemetry; Invoke has authorizeToolInvocation and
--     persistRunArtifacts; Complete has completeToolInvocation, validateToolRequest and InvokeTool.
--     Service/Sessions.antt has CreateSession and CloseSession, Access the validation of access,
--     Listing ListTools, and Reading the reading of invocations, with outputs and logs that were
--     saved as artifacts; Sources and Given have the proofs on what a reading gives.
--   * internal/grpcapi: Grpc.antt. Grpc/Auth.antt is auth.go, the configuration and the interceptor;
--     Server.antt has the handlers of server.go for sessions, tools and invocations; Admission, Access
--     and Ownership have the proofs.
--   * internal/adapters/eventbus/outbox.go and outbox_relay.go: Eventbus/Outbox.antt and Relay.antt; the
--     goroutine of the relay is a series of rounds. Delivery, Progress and Stored have the proofs.
--   * internal/adapters/invocationstore/valkey_store.go and internal/adapters/storage/
--     local_artifacts.go: Storage/Records.antt and Storage/Artifacts.antt; Reload, Loads, Series and Names have
--     the proofs.
--   * internal/adapters/workspace/local_manager.go: Workspace/Local.antt.
--   * internal/remediation/agent.go and playbook.go: Remediation/Agent.antt.
--   * internal/app/errors.go: Service/Errors.antt. internal/app/invocation_store_memory.go:
--     Service/Invocations.antt, the index by correlation and the store; Index and Matching have the
--     proofs.
--   * internal/adapters/tools/path.go: Tools/Path.antt, resolvePath and pathAllowed. What makes them
--     agree with the policy engine, that cleaning a path twice changes nothing, is in
--     Text/FilePath/Normal.antt.
--   * internal/adapters/tools/insert_tools.go and undo_tools.go: Tools/Insert.antt is fsInsertAtLine,
--     Tools/Edit.antt the two handlers on a local workspace; Undo and Undone have the proofs.
--   * Text.antt, Text/FilePath.antt, Json.antt and TextMap.antt have what the program uses of Go's
--     strings, path/filepath, encoding/json, strconv and maps. Base.antt passes on the shared names.
--   * Examples.antt: concrete requests and calls.
--
-- How the parts interact: InvokeTool takes a request through validateToolRequest, stores a running
-- record, publishes the start, asks the limiter, the runtime check and the authoriser, takes a slot,
-- runs the tool, checks what it returned, stores the artifacts and the record, and reports. The state
-- of the service is a World: the limiter, the invocation store (of any type), the counters for
-- recommendations and the list of effects so far, the newest first. Every operation takes and returns
-- the World. The authoriser of the pipeline is any function; the static policy engine is one. A call
-- over gRPC passes the interceptor, which puts the principal into the context, and the check that the
-- session is the principal's, before the service is asked. In Grpc/Ownership.antt the sessions of the
-- service are those of the local manager.
--
-- Modelling choices. A text is a list of ASCII bytes; a time is a number of nanoseconds since the
-- zero time, which is 0; a duration is a truncated difference; a Go map is an association list, or
-- the list of its keys where it is used as a set. A float64 of decoded JSON is its integer part with
-- whether it is whole. All loops are structural recursion, so no fuel is used; the loop of the relay,
-- which does not end, is taken for any number of rounds. json.Marshal, json.Unmarshal, os.Getenv, the
-- stores, the tool engine, the catalog, the clients of servers and the file system are parameters, with
-- what their documentation promises as the laws of a record. An operation of a store that fails
-- leaves its state as it was. The mutex of the limiter makes each of its operations one step;
-- Service/Quota/Slots.antt interleaves them.
--
-- Not modelled: the spans and the quality observer, the metrics behind the observe calls, the
-- workspace digest and the times of audit records; the recommenders, discovery and their handlers; the
-- conversion of the messages of the protocol; the managers of containers and clusters, the clients of
-- S3, NATS and the remaining Valkey stores, and the other tool handlers, which do input and output; the
-- generated code and the tool-learning service.
pub mod Base
pub mod Text
pub mod Json
pub mod Domain
pub mod Policy
pub mod TextMap
pub mod Service
pub mod Eventbus
pub mod Grpc
pub mod Remediation
pub mod Workspace
pub mod Storage
pub mod Tools
pub mod Examples

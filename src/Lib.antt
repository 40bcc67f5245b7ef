-- ===== src/Lib.antt =====
-- Verification of VPSmith: a Go program that keeps the desired and the observed state of servers in a
-- local database, compiles a desired change into an immutable bundle, runs the bundle on a server over SSH
-- and records what the server proves.
--
-- How the parts interact. internal/deployment compiles a request into a plan and assembles the bundle with
-- internal/executionbundle. internal/execution verifies the bundle, uploads and starts it, polls the
-- server for proofs, delivers secrets when the server waits for them, and hands the outcome to
-- internal/executionstate, which writes it into internal/managementstate, where secrets come from too.
--
-- Which file models what:
-- - Base: texts as lists of bytes with the operations of the package strings (Base/Text), results of
--   fallible calls (Base/Result), Go maps as association lists (Base/Dict), tables of rows with a key
--   (Base/Table), stable insertion sort (Base/Sort), lists without a repetition (Base/Distinct),
--   big-endian numbers (Base/Bytes), integers that may be negative (Base/Int).
-- - Bundle: internal/executionbundle. Types (types.go), Paths (the path checks of normalize.go and
--   verify.go), Normalize (validateInput, normalizeFiles, normalizeManifest), Assemble (Assemble up to the
--   call of store), Store (store, Assemble as a whole, Open), Verify (Verify). Codec holds sha256, JSON
--   and tar.
-- - Execution: internal/execution. Types and Env (types.go: the interfaces Target, Secrets and History,
--   whose answers may depend on all calls before), Secrets (resolveSecrets), Executor (Execute and
--   Reconcile), Loop (the rule of the polling loop).
-- - State: internal/managementstate. Types (types.go, source_state.go), Db (the tables of the migrations),
--   Statements (the SQL statements), Guards (the checks before a write), Change and Sources (the methods
--   of Change), Store (Change and ResolveSecret, with the outcome of a transaction as tables and an error),
--   Connection (what is durable and what an open transaction holds, COMMIT and ROLLBACK), Transaction
--   (Change on a connection), Migrate (migrateWith). Observed (the observed state and
--   NormalizeObservedState of observed_facts.go). State/Invariant holds what every store satisfies,
--   State/Secrets the life of a secret, State/Atomic and State/Migrations how transactions end.
-- - Adapter: internal/executionstate/adapter.go, and in Adapter/Runs the executor with its history.
-- - Contract: internal/modulecontract. Types (types.go), Patterns (the tests on single texts), Errors,
--   Validate, Integration and Actions (validation*.go), Compile (validate, normalize, Compile).
--   Contract/Valid holds what a compiled contract satisfies.
-- - Deployment: internal/deployment. Types, Validation (validation.go, transitions.go, action_scope.go),
--   Graph (graph.go), Claims (claims.go), Plan (plan.go), Diff (state.go), Freeze (freeze.go, helpers.go),
--   Compile (compiler.go).
-- - Gateway: internal/targetgateway. Types (gateway.go, runtime_gateway.go), Session (target, resolveSeed,
--   strictSession), Trust (EnsureIdentity, ObserveHostKey, ConfirmHostKey, ResetTrust), Inspect (Inspect,
--   Logs, Enroll), Operate (execution_gateway.go, runtime_gateway.go), Storage (the StorageBackupTarget of
--   storage_backup.go), Stream (encodeSecretStream), Shell
--   (shellQuote and the command of Logs), Facts and HostKeys (sshFingerprint, selectHostKey, the host facts and the tests
--   on names of ssh_transport.go).
-- - Runner: internal/targetrunner/parts. Secrets (read_secrets).
-- - Registry: internal/registry. Reference (reference.go), Challenge (challenge.go), Oci (oci.go).
-- - Tests: concrete runs.
--
-- State and operations. A row type is a record, a table the list of its rows in the order of insertion. A
-- method that changes the store takes the tables and returns the new ones or an error; a transaction keeps
-- the old ones on an error, which is what Transaction leaves where the deferred ROLLBACK succeeds and no
-- COMMIT reports an error once it has committed. The executor is a function of an Env: a call is appended to a trace, the
-- latest first, and the answer is a function of the trace. So is the wire of the gateway; the store does
-- not change between the reads of one request to it.
--
-- Bounds. The polling loop runs for as many waits as the context outlives, an argument that the theorems
-- quantify over. chooseSubnet probes 4096 numbers, as the source does. parseBearerChallenge runs for as
-- many rounds as there are bytes, and read_secrets for one more; every round takes bytes. There is no
-- other fuel.
--
-- Not modelled: SQLite, JSON, tar and hashes are parameters, with what is needed of them as a
-- hypothesis; encryptSecret and decryptSecret of crypto.go are parameters too, with the law that the second
-- opens what the first has sealed; the column of a new target is the JSON of an empty desired document, where
-- the source writes {}; the reads of EnsureIdentity do not fail for a reason of the database; what a target
-- prints of a prepared storage copy; Unicode case mapping beyond ASCII; the wiping of secret buffers; the text of the generated
-- artifacts, which Prepare takes from a parameter; the scripts that run over SSH, but for read_secrets;
-- HTTP and URLs, which are parameters of Registry; and internal/sourcelibrary, internal/backuprestore,
-- internal/bootstrap, internal/deploymentinput, internal/application and the user interface, which mostly
-- move files, call git and other programs, or pass calls on. Numbers that the program only stores or
-- compares are natural numbers. Go leaves the order of a map and of equal elements under sort.Slice open;
-- the models take the order of entry.
pub mod Base
pub mod Bundle
pub mod Contract
pub mod Deployment
pub mod Gateway
pub mod Execution
pub mod State
pub mod Adapter
pub mod Tests
pub mod Runner
pub mod Registry

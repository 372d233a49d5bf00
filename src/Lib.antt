-- ===== src/Lib.antt =====
-- agents-coworkers drives agents of an external orchestrator, AO, through bounded tasks whose
-- durable record survives a crash of the driver. This library models its core.
--
-- internal/recovery/checkpoint.go, dispatcher.go (Recovery/Checkpoint, World, Endings, Dispatcher,
-- Cancellation): the record of a task and the transaction that moves it. `step` is Dispatcher.Step,
-- `cancel` is Dispatcher.Cancel, and each stage of their bodies is a function that is called with
-- the result of the call before it. A World is the record on disk and the trace of all calls, in
-- which a refusal of a send by AO is noted; an Environment answers each call as a function of that
-- trace, so it stands for any AO, clock, file system and lease. Each save may fail. Go's int is
-- Prelude/Int.ℤ, with the wrap of its increment at 2^63. Recovery/Protocol has the delivery
-- protocol as lives of a task: steps, cancellations and deaths of the process between any two
-- calls, in any order. Recovery/Outcomes has what a single step may conclude and when it leaves AO
-- alone. Recovery/Store is FileStore, as the list of changes that Save makes to files: a crash
-- leaves what a first part of the list has made. Recovery/Artifacts is GitArtifactReader.
--
-- internal/recovery/runner.go (Recovery/Runner): Runner.Run as a loop on fuel over Dispatcher.Step,
-- `none` if the fuel runs out; the context is asked at each of its uses. n + 1 rounds are enough
-- for a context that is done once it was asked n times. cmd/recovery/main.go (Recovery/Command):
-- the subcommand switch, the loop of runRecovery and its exit codes, in the same way;
-- Recovery/Command/Start has run, runStatus and what runRecovery does before its loop.
--
-- internal/recovery/lease.go (Recovery/Lease): the lease as a file of a directory, and the system
-- calls of several processes on it as a step relation (Recovery/Lease/Exclusion).
--
-- internal/recovery/ao_http.go (Recovery/Client): AOHTTPClient, which implements what the
-- dispatcher calls AO: Observe, liveTurnIDs and Stop in Conversation, Send and RecoverOnly in
-- Delivery, Preflight in Session, and NewAOHTTPClient in Recovery/Command/Start. The two loops over
-- the pages of a conversation are one function with the source's bound of 1000 pages as its fuel;
-- that they stop there with an error is the source's own behaviour. An HTTP exchange, the JSON
-- codec and the escaping of paths are parameters. Recovery/Linked puts the client in the place of
-- the dispatcher's AO, as runRecovery does.
--
-- internal/recovery/status.go (Recovery/Status): the scanner of redactJSONPayloads on bytes,
-- SanitizeError with its regular expressions as parameters, IsRetryableState and the report of
-- FormatStatusJSON.
--
-- internal/workforce/control (Control): the documents of a run. types.go is Control/Types; a
-- sequence of tests with early returns is a list of tests (Control/Checks). run_spec.go is
-- Control/RunSpec, with ParseAndValidateRunSpec as parse_and_validate_run_spec. manifest.go is
-- Control/Manifest: ReadManifest is read_manifest, IsExactBindingMatch is in Manifest/Matching,
-- WriteManifestAtomic is in Manifest/Writing, over a directory of files that others may change
-- before the rename. discovery.go is Control/Discovery (ResolveAOEndpoint, ResolveGatewayEndpoint)
-- and Control/Loopback (ValidateLoopbackURL). Of doctor.go, Control/Worktree has
-- filterExactLeaseArtifact and checkWorktreeDirtyPolicy, and Control/Doctor has RunDoctor, which
-- uses the models of the others. attach.go is Control/Attach: RunAttach with its steps 1 to 6 in
-- Attach/Reading and the manifest with its file in Attach/Publishing, listGitWorktrees in
-- Control/GitWorktrees, arePathsSameOrEquivalent in Control/Paths. status.go is Control/Status,
-- with RunStatus as run_status. A command that may return early with an exit code is an Attempt
-- (Control/Attempt). cmd/coworkers/main.go is Control/Coworkers, with runCLI as run_cli. The JSON
-- decoders, HTTP, SHA-256, time.Parse, url.Parse, path/filepath, the file system, processes, git
-- and the flag package are parameters.
--
-- Texts are sequences of code points, and a Go string that is compared, trimmed or lowered is one
-- without invalid UTF-8. Messages of errors are shortened; only the sentinel errors are told apart.
--
-- Not modelled: the layout of FormatStatus and all that the commands print, with printUsage, since
-- it is text for a reader and nothing reads it back; the two functions main, which only pass the
-- arguments and the exit code on; the insides of the parameters, among them the regular expressions
-- of status.go, the signals and the timeouts; the scripts, patches, documents and tests.
--
-- The tests and the theorems at concrete inputs stand in Examples.
pub mod Prelude
pub mod Recovery
pub mod Control
pub mod Examples

-- ===== src/Lib.antt =====
-- Anser (Castor), a local harness for autonomous coding tasks: what its core does, as definitions
-- that run, and the theorems that make it correct.
--
-- The program. An MCP server takes tasks and spawns a worker per task. A task has a record, in
-- memory and as a mirror `tasks/<id>.json` that all processes share; a worker first takes one of the
-- machine's slots, runs a session of an engine and its tools within a budget of turns, and writes
-- the outcome into the record. A status server answers from the records and waits for their end.
-- Lockfiles keep single processes apart. The engine's replies arrive as streams of events, read by its
-- client and, for other clients, passed on by a proxy that guards them; the tools work on files below
-- one root; an offline search keeps its commits in a lineage.
--
-- The files.
--   State.antt            src/state/mod.rs: Locks::acquire, Locks::release. State/Laws.antt has the
--                         laws of one call, State/Sequences.antt calls that follow each other,
--                         State/Races.antt two calls that overlap.
--   Task/Liveness.antt    src/task/semaphore.rs: pid_alive, is_linux_zombie.
--   Task/Records.antt     src/task/registry.rs: TaskRecord, the state of the registry, its pure parts.
--   Task/Registry.antt    src/task/registry.rs: TaskRegistry, one definition per method. Below it:
--                         Laws (what each part does to lookups), Named (each record under its own
--                         id), Final (terminal states stay), Effects (transition), Reap
--                         (reap_orphans), Defects.
--   Task/Worker.antt      src/mcp/worker.rs: the updates of the record by run_job_with_engine.
--   Task/Status.antt      src/task/wait.rs: status_handler, wait_handler, wait_for_terminal.
--   Task/Leases.antt      src/task/semaphore.rs: Lease, try_claim.
--   Task/Semaphore.antt   src/task/semaphore.rs: TaskSemaphore. Below it: Claims (one slot), Passes
--                         (one pass over the slots), Tenancy (one tenant at a time), Releases,
--                         Status (listing and clearing).
--   Engine.antt           src/engine/provider.rs: the types that runner and engine exchange.
--   Engine/Stream.antt    src/engine/provider.rs: consume_stream, assemble. Below it: Lines (how chunks
--                         are cut does not matter), Slots (the fragments of tool calls).
--   Engine/Response.antt  src/engine/provider.rs: parse_non_stream, against a stream of one frame.
--   Json.antt             the values of serde_json with the accessors that the code calls.
--   Proxy/Repetition.antt src/proxy/sanitize.rs: RepetitionDetector. Below it: Runs, Windows (the
--                         search), Patterns (what is reported), Panics.
--   Proxy/Sse.antt        src/proxy/sanitize.rs: SseSanitizer, and sse_stream of src/proxy/mod.rs.
--                         Below it: Chunks (chunk by chunk, against one scan), with the step Behind of
--                         its proof, and Streaming (what a client gets).
--   Proxy/Images.antt     src/proxy/sanitize.rs: sanitize_request_body. Below it: Clean (one value),
--                         Request (a whole request).
--   Tools/Paths.antt      src/tools/sandbox.rs: normalize_traversal and its parts; Tools/Paths/Lexical.antt
--                         where accepted paths lie. Tools/Symlinks.antt: resolve_workspace_root,
--                         verify_symlink_containment, and resolve of src/tools/fs.rs.
--   Tools/Binary.antt     src/tools/sandbox.rs: sniff_magic, check_binary.
--   Tools/Edits.antt      src/tools/fs.rs: the replacement of edit_file on texts;
--                         Tools/Edits/Parts.antt how a target cuts a text,
--                         Tools/Edits/Occurrences.antt what is replaced.
--   Tools/Files.antt      src/tools/fs.rs: read_file, write_file, edit_file, atomic_write;
--                         Tools/Files/Laws.antt what they write and show.
--   Tools/Search.antt     src/tools/fs.rs: list_dir with walk, walk_search; Tools/Search/Matches.antt
--                         what a search finds.
--   Tools/Shell/          src/tools/shell.rs: Words (tokenize, split_segments), Operands
--                         (normalize_operand), Roots (is_protected_root), Policy (validate). Below Policy:
--                         Blocks (what is refused), Unwraps (commands for a shell); below Words: Quoting.
--   Evo/Lineage.antt      src/evo/lineage.rs: Lineage. Below it: Appends, Walks, Ancestry, Files.
--   Evo/Optimizer.antt    src/evo/optimizer.rs: score_artifact, commit_artifact; below it: Commits.
--   Runner/Detector.antt  src/runner/loop_detector.rs: LoopDetector.
--   Runner/Session.antt   src/runner/mod.rs: its types; Runner/Steps.antt the parts of a turn with
--                         EventLogger::append of src/runner/events.rs; Runner/Loop.antt run_session.
--                         Below that: Metering, Budget, Ledger, Outcome, Results, Promises with what a
--                         caller may rely on, and Landing with what the last turns send.
--   Pruner.antt           src/pruner.rs: plan, gate by gate; Pruner/Apply.antt apply and the fingerprint.
--                         Pruner/Gates.antt and Pruner/Plans.antt have what plans select.
--   Prelude.antt          the shared names, tests, dictionaries and texts. Prelude/Lines.antt is the
--                         loop that cuts a buffer into lines, which client and sanitizer share.
--   Examples.antt         runs of the theorems on small inputs.
--
-- How the code is read. State is passed explicitly; a shared directory is a dictionary, and each
-- system call that may fail has a flag or a fault in an environment. What other processes do during
-- a call is a function on the state where the code leaves them a gap. A clock reading is the `now` of
-- an environment, one per call. Numbers are natural; `u32` wraps where the code adds or truncates.
-- Bounds and fuel: run_session gives its loop as much fuel as the budget has turns, which
-- turns_loop_enough shows to be enough. Waiting loops take the list of turns that there is time for.
-- The loop over a buffer has one step per character of it, since each line has its newline; so has
-- the search for occurrences of a target that is not empty. The walk to ancestors has one step for
-- the first id and one for each parent of a node, as each node is opened once.
-- The analysis of a shell command counts down the levels of shells that the code still unwraps.
-- Text is a list of character codes; where the code slices by bytes, the widths of the characters
-- are counted, and a slice inside of one is a panic of the model.
--
-- Parameters: the kernel's answers, serde_json on task records and lineage nodes with its round trip
-- and on other texts without one, the decoder of UTF-8 with what it gives for a stream in pieces, the
-- mapping to upper case, the matching of regular expressions, what the file system says of a path, the arithmetic of fitness, the hash of
-- the standard library, and the engine, the tools and the files of a session.
--
-- Not modelled: HTTP servers and clients, process control, the tools that start processes or parse
-- programs, the search by git, the watchdog, the evaluation harness, configuration and telemetry.
pub mod Prelude
pub mod Json
pub mod State
pub mod Task
pub mod Engine
pub mod Runner
pub mod Pruner
pub mod Proxy
pub mod Tools
pub mod Evo
mod Examples

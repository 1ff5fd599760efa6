-- ===== src/Lib.antt =====
-- pm3 is a process manager: a daemon that starts services, watches them, restarts those that exit
-- and keeps what it knows in a table. The crate `entities` holds the rules about one service, the
-- crate `usecases` the operations on the table, and `adapters` and `frameworks` connect these to
-- files, processes and the network. This library models the first two, the configuration, the
-- state file and the random schedules of `adapters`, and the actor in `frameworks` that drives the
-- use cases.
--
-- Base holds what all of it shares: lists and texts (a text is the list of its Unicode scalar
-- values), decimal numbers, saturating and checked arithmetic, integers, and `Result` with the
-- binds of the `?` operator.
--
-- Entities models entities/src. Status, Runtime, Restart, Depgraph, Env, Limits, Signal, Secret,
-- Priority, Ready and Spec are the files of these names in process/, SpecError is the error type
-- of process/spec.rs, Messages holds the texts of the errors, and Roots and Policy are the files
-- of sandbox/. A function keeps its name in the source; a method takes its `self` where the source
-- has it or last, and one that writes to `&mut self` returns the new value. Below each stand the
-- modules of its theorems.
--
-- Usecases models usecases/src. Selector, LogPaths, Fingerprint, Record, Query, TimerState, Alert,
-- Supervise and Handover are the files of these names, Alert with the effects of supervision.rs
-- and Supervision with the rest of it; Table is table.rs with persist.rs, and Stop is stop.rs with
-- reset.rs and signal.rs. Launch and Start are the two halves of start.rs: one service, and a
-- batch of services with its rollback. Restart and Delete are restart.rs and delete.rs. Ports
-- holds the data of ports/, the error type of lib.rs, and the record `Ports` of what the use cases
-- ask of the outside. Each port acts on a world, of which nothing is assumed: a theorem about an
-- operation holds whatever the outside answers. An operation takes the table and the world and
-- returns its result, the table that it leaves, also on an error, and the world. A write through
-- `find_mut` or `find_by_name_mut` replaces the first record that its test selects. `none` is an
-- `expect` of the source that fails. Messages holds the texts of the errors, Samples the inputs
-- that the examples share, and Lifecycle the theorems about several operations.
--
-- Resurrect is resurrect.rs, with its verdicts in Resurrect/Judge. Supervisor is the state of
-- supervisor.rs. Below it Timers, Launching, Events, Requests and Takeover are the methods of
-- supervisor.rs and supervisor_liveness.rs, Waiters and Readiness those of supervisor_ready.rs,
-- and Handlers and Batches those of supervisor_handlers.rs. Such a method takes a turn and returns
-- one: the supervisor, the effects asked for so far, and the world. Where the source lets futures
-- run at once (`join_all`), the model runs them in the order of the list.
--
-- Adapters/Config models config/schema.rs of adapters/src, Config/Validate validate.rs, and
-- Config/Messages the texts of its errors; Persistence is persistence/dto.rs, Persistence/Store is
-- persistence/yaml_store.rs with what it calls of fs_util.rs and private_file.rs, and Schedule is
-- schedule/random_expand.rs. Unit is spec.rs of unit/, and below it stand its files command.rs,
-- plan.rs, launchd.rs with escape.rs, systemd.rs and schtasks.rs. Presenter is
-- presenter/fields.rs. The file system, the YAML format, the resolver of declarations and the
-- random generator are parameters there. Frameworks/Daemon models daemon/actor.rs of
-- frameworks/src, and Daemon/Board the tasks of timers.rs and the events of events.rs. A task is
-- kept as what it was started for.
--
-- Numbers are natural numbers; where the source saturates or checks at 2^16, 2^32 or 2^64, the
-- model does so too. Loops are structural, but for those that run on fuel. In depgraph.rs the sort
-- has one round more than there are nodes, since each round places a name or ends the loop, and
-- the search for a cycle has one round more than there are names to push, since each name is
-- visited once. In supervisor_ready.rs the loops of `fail_downstream` and `launch_waiters` have a
-- round for each name that waits, and one or two more, since a round takes a name out of the
-- waiters. The loop of `wait_until_drained` has a round for each millisecond of the kill timeout,
-- and one more, since the poll interval is at least one. A hash map is an association list, and a
-- sorted map a sorted one.
--
-- Not modelled are log lines, with supervisor_log.rs; of `adapters`, the apps file, the tables
-- that are printed, the HTTP interface, the runner of the unit plans, and the other
-- implementations of ports, which call the operating system and third-party crates; what the
-- spawned tasks of the daemon do when they run; and the server, the client and the command line in
-- `frameworks`.
pub mod Base
pub mod Entities
pub mod Usecases
pub mod Adapters
pub mod Frameworks

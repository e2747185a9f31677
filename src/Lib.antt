-- ===== src/Lib.antt =====
-- Verification of desktop-remote: a daemon with an MCP server that runs operations on the local
-- machine, a supervisor for the process that the user configures, and a terminal interface.
--
-- The model follows src/ of the repository file by file. State is a record, a method is a function
-- to the new state, a thrown error or a refusal is a value, and whatever the code does not compute
-- itself (the clock, signals, promises that settle) is an argument or a step of a relation. Times
-- are whole milliseconds, counters do not wrap.
--
-- Scheduler (src/core/operation-scheduler.ts). `Scheduler` holds the fields of OperationScheduler,
--   with the promises in flight and a log of what became of each task; `run`, `drain`, `cancel` and
--   `finish` are its methods and callbacks, and `Scheduler.Steps` puts them together as a state
--   machine. The loop of `drain` is a recursion on the queue, so it needs no fuel.
-- Supervisor (src/daemon/supervisor.ts and src/daemon/restart-policy.ts). `Supervisor` holds the
--   fields of DaemonSupervisor; a managed runtime is known by a number and a sleeping restartAfter
--   by its delay and generation. `Supervisor.Restart` is the restart policy.
-- SelfHealing (src/daemon/self-healing.ts). `Executor` holds the tracker's map, the watchdog and
--   the closure variables of each call of execute.
-- Recovery (src/doctor/recovery-policy.ts). `evaluate_recovery` decides on one observation;
--   `restarts` chains the decisions of a run. An option of the policy is absent or a number.
-- Interaction (src/tui/interaction.ts). Keys, modes, clicks and the following of new calls.
-- Events (src/runtime/events.ts). The events of the managed process.
-- Bytes (src/session/bounds.ts, src/core/response-budget.ts, src/logging/rotating-log.ts). Strings as
--   UTF-16 code units with their length in UTF-8, and the three functions that cut them to a budget.
--   The binary search has the length of the string as fuel, which its proof shows to be enough.
-- Session (src/session/runtime-store.ts, src/session/bounds.ts, src/session/types.ts and
--   src/session/store.ts). `RuntimeSessionStore` holds the fields of the class, its Map as a list of
--   pairs; `consume` and `restore` change it. The loop of boundUnknown has its budget as fuel and gives
--   `none` without enough of it; each round cuts the budget, so it is enough. `JSON.stringify` and
--   `value ?? {}` are parameters. `Session.Selection` is `SessionStore`, with its query, its filter and
--   its selection; toLowerCase, trim and the text of a value that a query is matched with are parameters.
-- Search (src/search/manager.ts). `Search.Manager` holds the sessions; `Search.Run` and `Search.Content`
--   are run and matchFileContent, to which the walk, the times, stops and lines are arguments. Regular
--   expressions are parameters. All loops are recursions on a list. `Search.Paging` is a client that
--   reads pages by getMore, with the number of pages as fuel and `none` if it runs out.
-- Ipc (src/ipc/framing.ts and src/ipc/protocol.ts). `Ipc.Protocol` and `Ipc.ServerMessages` are the two
--   parsers of messages, on values as JSON.parse gives them. A buffer is the list of its bytes.
--   `push` and `finish_stream` are the methods of JsonLineDecoder, from the remainder to the new
--   remainder and what is returned or thrown, and `push_all` is the handler of data events, which hands
--   on what each push returns and destroys the socket at an error; JSON.parse and JSON.stringify are
--   parameters. All loops are recursions on the input.
-- Process (src/process/manager.ts). `Process.Buffer` is BoundedUtf8Buffer; its loops over bytes have
--   the distance to their bound as fuel, which they cannot exceed. `Process.Table` holds the fields of
--   ProcessManager, its maps as lists of pairs; an object is known by its id, and its changes are seen
--   through the map. `Process.Steps` puts the operations together as a state machine.
-- Client (src/client/ipc-client.ts). `Client` holds the fields of DesktopRemoteIpcClient; a socket is
--   known by a number, and a promise is a value that is settled once.
-- Common. Boolean tests, lists measured by native numbers, maps with numbers as keys, JavaScript
--   numbers.
--
-- Not modelled: the operations on files and documents, spawning and waiting for processes, the MCP
-- server, the IPC server and the other clients, installation and platform services, and the views of
-- the terminal interface; listeners are taken not to call back into the object that notifies them.
pub mod Common
pub mod Scheduler
pub mod Search
pub mod Events
pub mod Supervisor
pub mod Recovery
pub mod Interaction
pub mod SelfHealing
pub mod Bytes
pub mod Session
pub mod Ipc
pub mod Process
pub mod Client

-- ===== src/Lib.antt =====
-- gosshd-bastion: an SSH bastion whose server decides which commands, sessions and transfers a user
-- may run on a target, and reaches the targets through agents, over a relay or a direct path.
--
-- The parts modelled, each in a module, and how they interact:
--
-- * Shell (internal/bastion/service.go). The scanners of shell text: shellCommandParts is
--   `command_parts`, shellWords is `shell_words`, hasUnsafeOutputRedirection is
--   `has_unsafe_redirection`, shellRedirectionTarget is `redirection_target`, commandNameMatches is
--   `command_name_matches`. A Go loop over the bytes of a command is a recursion on the bytes left,
--   with one step function on a record of the loop's variables; an assignment to the loop's index is
--   a count of bytes to skip. Shell/Quoting is the description they are compared with.
-- * Policy (internal/bastion/service.go, llm.go, types.go, and the records of
--   internal/store/models.go). Policy/Source is evaluateSourceIP, Policy/Rules is
--   evaluatePolicyRules, Policy/Reviewer is ReviewCommand, Policy/Command is
--   evaluateCommandForSource, which EvaluateCommandForSource and EvaluateMCPCommandForSource call,
--   and Policy/Access is EvaluateAccess and EvaluateSFTPAccess. The rules call the scanners.
-- * Tunnel (internal/tunnel/wire.go, conn.go). Tunnel/Wire has packets and frames, Tunnel/Conn,
--   Tunnel/Receive and Tunnel/Session the methods of a connection as functions on its state, and
--   Tunnel/System two ends with a network that loses, repeats and reorders packets, as a step
--   relation. A receive that waits for room in the channel to the reader goes on as a step of its
--   own, and other packets may be received before, though the code holds a lock meanwhile.
-- * Datagram (internal/forward/datagram.go). UDP datagrams framed on such streams.
-- * FileTransfer (internal/filetransfer/records.go). Send is `send`, Receive is `receive`, each with
--   its loop; a writer is a function from the number of a write and its bytes to what it answers.
-- * Review (internal/server/manual_review.go). The hub where a denied command waits for a reviewer:
--   Create is `create`, DecideWithAutoAllow is `decide`, Expire is `withdraw`, expire is `expire`,
--   expireLocked is `expire_all`; Review/Account has the runs of the hub as a step relation.
--   A denial that Policy offers for a manual review becomes such a request.
-- * Update (internal/agent/update_state.go). reserveUpdateAttempt is `reserve_update_attempt`, on the
--   file that keeps the budget of update attempts.
-- * Forward (internal/forward/config.go, udp.go). Forward/Compile has the checks of Compile,
--   Forward/Router the tables it builds (`router_of`) and Match (`match_request`), and
--   Forward/Router/Reference a reading of the configuration without tables. Forward/Udp is the table
--   of UDP sessions that startUDP and udp share, where the additions to the atomic counter are steps of
--   their own. The payloads on its streams are framed by Datagram.
-- * Logs (internal/forward/logs.go, overflow.go, traffic.go, traffic_recorder.go, telemetry.go). The
--   access log of a forward. Record is `record_event`, the writer's loop is `take_job` and
--   `write_batch`, flushAccounting is `begin_flush` and `finish_flush`, since it leaves its lock in
--   between; Logs/Schedule has these steps in any order, with refused transactions. ImportTelemetry
--   is `import_telemetry`. Logs/Outbox is how an agent's rows reach the server's log: Pending and Ack
--   on the agent (internal/agent/forward.go), the import of a report and the number that it
--   acknowledges on the server (internal/server/forward_sync.go), in Logs/Outbox/Link as steps.
-- * Terminal (internal/server/terminal_session_manager.go). Terminal/Integration is
--   consumeTerminalIntegrationText, Terminal/Screen terminalScreenBuffer, Terminal/Session the
--   methods of a session, writeOutput among them, and Terminal/Routing
--   earliestOnlineForUserTargetWithDiagnostics. Terminal/Feed is the byte by byte description that
--   the search for marks is compared with.
-- * Limiter (internal/server/rate_limit.go). allow and allowAuthAttempt.
-- * Base. Bytes and the functions of the packages strings, strconv and encoding/binary that the
--   code calls, results with errors, and lists.
--
-- Numbers are natural numbers. A text is the list of its bytes. Sequence numbers and byte counters
-- of a connection are not wrapped at 2^64, which no run comes near. Fuel bounds five loops:
-- `drain` has as much as there are buffered packets, and each round takes one of them;
-- `flush_loop` has as much as there are bytes, and each round takes two or more; `send_loop` has
-- as much as there are bytes left to send, and each round takes one or more; `receive_loop` has
-- more than there are bytes on the stream, and each round takes five or more; `consume_loop` has
-- one more than there are bytes of input, and each round that goes on takes six or more. Counters
-- of events and bytes are not wrapped either, and a Go map is a list, in whose order a loop over
-- it runs. Hosts and names in lower case are so for the letters of ASCII only. An error that
-- prints a value or wraps another is its fixed text.
--
-- Parameters, since their code is not in the repository: net/netip (`Netip`), the HTTP exchange
-- with the reviewer with its JSON (`ask`), checksums, clocks, sockets, files, and whether a path
-- takes a packet; package net and regular expressions (`Net`); the decoding of UTF-8 (`Text`);
-- whether SQLite accepts a transaction, and the package uuid. The reads of the control database
-- are parameters too (`Services`).
--
-- Not modelled: the goroutines and locks of a connection (each method is one step), Close, the
-- set-up of direct paths, the HTTP, SSH and MCP front ends, SQL but for the updates of a forward's
-- log, that log's queries and its outbox of traffic, the recording of terminals, the agents'
-- processes and files, desktop automation, and the clients.
pub mod Base
pub mod Datagram
pub mod FileTransfer
pub mod Forward
pub mod Limiter
pub mod Logs
pub mod Policy
pub mod Review
pub mod Shell
pub mod Terminal
pub mod Tunnel
pub mod Update

-- ===== src/Lib.antt =====
-- A model of the core of nano-sensor, a host sensor that collects an inventory, finds known
-- vulnerabilities in it and reports to a server through a queue on disk.
--
-- Base has the names that the files share: numbers, lists with lengths and indices in the native
-- numbers, Boolean tests, signed results and bit fields. Text has strings as lists of bytes, and
-- the searches that the sources call.
--
-- Vercmp models src/vercmp.cpp: tokenize, the order of tokens, version_compare, version_in_range
-- and version_upstream_part, function by function. A token has the fields of the struct; an
-- unsigned long long that the source lets overflow is reduced modulo 2 ^ 64. Its children Order,
-- Transitive and Cycle are on the comparison, Range on ranges, Digits, Tokens and Words on the
-- scanner, Upstream on package versions.
--
-- Cve models src/cve.cpp and include/ns/cve.hpp: Names has the text helpers and normalize_name,
-- Index the tables, load_rules, load_aliases and resolve, Match match_package and Scan scan. It
-- calls Vercmp, as the source does, and reads the records of Inventory. A CVSS score is a number of
-- tenths of a point; std::strtod is an argument of load_rules. An unordered_map is an association
-- list, and the order of its entries, as that of equal elements behind std::sort, is open in the
-- source and fixed here. Report has findings_to_json, with the text of a score in the format %.1f as
-- an argument. Best, Prefixes and Totals are proofs.
--
-- Json models src/json.cpp: the members of the writer, one function each; a double is given by its
-- text. Document has the documents that the calls can build, the calls for each, and their text;
-- Escape and Writing are proofs.
--
-- Inventory models src/inventory.cpp: collect_inventory, from what the collectors of the platform and
-- the clock report, and to_json. Text has the document that it writes.
--
-- Transport models src/transport.cpp: parse_url, and the delay before a retry, with the draw of the
-- random distribution as an argument. std::atoi is not reduced to an int.
--
-- Spool models src/spool.cpp and include/ns/spool.hpp, the queue between the collectors and the
-- reporter. Frame has the record frames, StateFile the text of the state file, Queue the object
-- (State), peek and the bounds (Reads), append (Writes) and commit (Releases), and Opening has open
-- and close. The object is a record of the members of the class and the directory a record of
-- files; each operation takes both, with the outcome of each file system call as an argument, and
-- returns its error, if any, and both. A segment file is named by its id. The other children are
-- proofs: Codec and Reading on frames, Layout, Invariant and Whole on the directory that holds a
-- queue, Peek, Append, Evict, Bounds, Accept, Skip, Commit, Release, Crossing, Fresh and Wedge on the
-- operations.
--
-- Transport.Openssl models src/transport_openssl.cpp: the pin, the request, the write loop and the
-- reply. What dial, the calls of OpenSSL and the peer return is an argument; post gives its result
-- and the bytes that were written. Reply has Transport::Result, and Pinning is a proof.
--
-- Log models src/log.cpp; the split of the clock into a date is an argument. Line is a proof.
--
-- Report models src/main.cpp. Drain has the loop of Reporter::drain, from the variables that it
-- changes (the result, the spool and its directory, with the acknowledged payloads and the delays as
-- a record of what was done), and the sleep between attempts. Options has the options and the loop
-- over the arguments, Records the texts that are read and written, Reporter the opening of the
-- spool, the collection and cmd_report, and Commands the other commands and main. A command gives
-- its exit code and its standard output. Running has cmd_run: the inventories that the agent hands
-- over until the stop are an argument, and each is appended and followed by a drain; that
-- service::run calls its body is taken as it is. Drained, Delivery, Taken, Secured, Ending, Emptying,
-- Stuck, Quoting, Accounting and Telemetry are proofs; Secured is on Drain over the transports,
-- Telemetry on the appends and drains of cmd_run in turn.
--
-- Agent models src/agent.cpp. Locks has the mutexes, the calls on them of the worker and of each
-- request, and the steps of any number of such threads; the mutex of the logger, which guards one
-- write, is left out, and so is the condition variable of a waiter, whose wait counts as one section.
-- Results has the results and replies, Scan the scans and the state that they change, Requests the
-- requests, and Watchdog the table of running scopes. The database, the pipe and the clock are
-- arguments. Progress and Delivery are proofs.
--
-- Linux models src/platform/platform_linux.cpp: Files, Sockets, Processes, Packages and Interfaces
-- have the collectors, from the contents of the files and the results of the system calls. The order
-- of equal elements behind std::sort is open in the source and fixed here. Columns and Stat are
-- proofs. Numbers has the conversions of the C library that Report, Linux and Transport call.
--
-- Database models src/db_odbc.cpp. Session has the statements over the calls of ODBC, which are an
-- argument: the reply to a call may depend on all calls before it. Recording has record_scan, Queries
-- the queries, Connection connect and disconnect. Engine is what the calls do to the tables, as ODBC
-- documents it. Runs and Calls are rules for what a run of calls adds to a transaction, Statements,
-- Atomic and Partial proofs with them, Partial where the calls whose results are ignored may fail;
-- Agent.Recording is on the scans of Agent over this client.
--
-- Transport.Winhttp models src/transport_winhttp.cpp and Transport.Absent src/transport_none.cpp;
-- Guarding is a proof on the first. A POST over WinHTTP gives its result and the bytes of the body that
-- were written.
--
-- Windows models src/platform/platform_windows.cpp: Registry (the helpers and the host), Processes,
-- Sockets, Interfaces and Packages have the collectors. Order and Distinct are proofs, over the order
-- of strings in Text.Order.
--
-- Pipe models src/ipc_windows.cpp: Server has a request and the start, Accepting the acceptor and the
-- threads that serve clients, as steps, and Calling the call of a client, with what the calls of
-- Windows return as arguments. Instances is a proof on the steps.
--
-- Client models src/nsctl.cpp: the arguments, the time-out and the exit code; the call over the pipe
-- is an argument.
--
-- Fuel: the scanner of versions takes a byte in each round and has the length of the string; the
-- reading loops of the spool take a header in each round and have the length of the file; the loop
-- of commit moves to a later segment in each round and has one round more than there are segments;
-- the loop that drops words off a name shortens it and has its length; a number below 2 ^ 64 has 20
-- digits at most. The loop of drain has no bound of its own: its rounds are an argument, and Ending
-- has one that is enough where the spool has one segment. A sleep takes a slice in each round and has
-- its milliseconds; a write loop takes a byte in each round and has the length of the request.
--
-- Not modelled: fsync, the writing of log lines by the other parts, the formatting of segment names,
-- and the wrap of the 64-bit counters, ids and offsets of the spool, which count records and bytes on
-- disk. The services and the crash dumps are not in here: most of them are calls of the operating
-- system.
pub mod Agent
pub mod Base
pub mod Client
pub mod Database
pub mod Windows
pub mod Pipe
pub mod Cve
pub mod Inventory
pub mod Json
pub mod Text
pub mod Transport
pub mod Vercmp
pub mod Report
pub mod Log
pub mod Numbers
pub mod Linux
pub mod Spool

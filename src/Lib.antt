-- ===== src/Lib.antt =====
-- stream_gateway: a gateway of MPEG transport streams. Inputs (UDP, SRT, or one program of another
-- input) publish packets on a broadcast channel; outputs and analyses subscribe to it. A REST
-- interface creates, updates, starts and stops them, and tasks report changes of their state.
--
-- The parts, by file of the repository:
-- * Filter (src/mpegts_filter.rs): `ProgramFilter`, which reads the PAT and the PMT as they pass and
--   keeps the packets of one program. `filter_packets`, `process_pat` and `process_pmt` are the
--   functions of those names; an index out of bounds is the outcome `panic`.
-- * Models (src/models.rs): the configurations and requests, the accessors that read the new and the
--   legacy fields, statuses and analysis types with their texts.
-- * PortUtils (src/port_utils.rs, src/config.rs, `check_port_conflict` of src/database.rs): when a port
--   is assigned automatically, and the search for one.
-- * Interfaces (src/interfaces.rs): the bind addresses that the system has.
-- * Streams (src/models.rs, src/udp_stream.rs, src/srt_stream.rs, src/spts_input.rs): the entries of
--   `ACTIVE_STREAMS` and the functions that make them: `create_udp_output`, `create_srt_output`,
--   `spawn_udp_input_with_stats`, `spawn_spts_input`, `Forwarder::spawn_with_stats`.
-- * Control (src/stream_control.rs, src/analysis.rs): `start_input`, `stop_input`, `start_output`,
--   `stop_output`, `start_analysis`, `stop_analysis`, `stop_all_analysis`, `get_active_analyses`. An
--   operation takes the world and gives the world after it and its outcome. Starting or aborting a
--   task is an effect in the world. Where an operation gives the lock of `ACTIVE_STREAMS` up and takes
--   it again, the parameter `meanwhile` is what other tasks do to the world; where it waits for a lock
--   that it holds, the outcome is `deadlocked`: `start_analysis` is told whether its caller holds the
--   write guard. An overflow of `SystemTime`, which is that of Unix, is the outcome `panicked`.
-- * StateProcessor (src/state_processor.rs): the handlers of state changes, with the metrics calls.
-- * Database (src/database.rs, `InputRow` and `OutputRow` of src/models.rs, migrations/): the two tables
--   as maps from the key to the row, and every function as a function on them. An INSERT takes the next
--   key; the foreign key of an output is checked; the argument `answers` says which statements fail.
-- * Tasks (src/srt_stream.rs, src/udp_stream.rs, src/spts_input.rs): the loops of the tasks. What
--   `select!` gives is a list of events, and a task is a function of them to the messages that it sends:
--   state changes, packets, metrics. `reconnect_loop` is the loop that `spawn_with_stats` and
--   `spawn_srt_output` share, `read_loop` and `send_loop` are what they do on a socket, `udp_loop` and
--   `spts_loop` are those of the other two. The state changes are what StateProcessor handles.
-- * Api (src/api.rs): the validation of configurations, the merge of an update into a
--   configuration, the assignment of an automatic port, the names and destinations of requests, and
--   the handlers of the same names: `create_input`, `update_input`, `delete_input`,
--   `create_output`, `update_output`, `delete_output`, the endpoints that start and stop, and
--   `load_from_db`. A handler takes the gateway, which is the world and the tables, and gives the
--   gateway after it and its answer. `Requests` is the relation of the gateways that requests lead
--   to.
-- * Examples has the theorems at concrete values, Common the lists, texts, maps and outcomes.
--
-- Numbers are native naturals; an expression that wraps in the source has its `%`. A `HashMap` is an
-- association list, and a `HashSet` a list. Two loops of the filter and the loop over the packets run on
-- fuel, one more than there are bytes: each round moves on by at least one byte and stops at the end.
-- The loops of the tasks go through the list of events and need no fuel. A handler is taken to run
-- alone, but for the points where a start or an update has given the lock up.
--
-- Parameters, for code that is not in the repository: `lookup_host` (`Platform.resolve`), parsing
-- and printing of IP addresses and the enumeration of interfaces (`Net`, with the law that the
-- standard library parses what it prints), serde_json on requests (`Json`) and on configurations
-- (`Readers`, with the parsing of socket addresses), whether SQLite carries a statement out
-- (`answers`), whether a port can be bound (`is_port_available`), and what sockets give (the
-- events).
--
-- Not modelled: the HTTP server and the texts of its answers, the handlers that only read (lists,
-- statuses, statistics, analyses, interfaces, metrics), the options of sockets, the statistics of
-- the SRT library, the bodies of the analyses, and the metrics registry.
pub mod Common
pub mod Filter
pub mod Models
pub mod PortUtils
pub mod Interfaces
pub mod Streams
pub mod Database
pub mod Control
pub mod Tasks
pub mod Api
pub mod StateProcessor
pub mod Examples

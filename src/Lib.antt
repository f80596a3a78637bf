-- ===== src/Lib.antt =====
-- Coaly, a context aware logging and tracing system: a model of its core and its properties.
--
-- An application hands its log and trace records to a worker, which determines from the mode of
-- the calling thread whether a record is written at once, buffered, or dropped. Observers that are
-- created and dropped (functions, modules and objects) change the mode. Buffered records are kept
-- in a cyclic buffer that forgets the oldest ones. A client sends its records over the network to
-- a server. The configuration is read from a TOML file. Output files are archived when they reach
-- a size or when an interval has elapsed.
--
-- The files, and the code that they model (paths from the repository's root):
--   Prelude            numbers with their bounds, Boolean tests, lists, ordered maps, texts as
--                      bytes.
--   Collections        src/collections.rs: RecoverableStack with `push`, `pop` and `last`;
--                      Collections/Defaults has MapWithDefault and VecWithDefault.
--   Record             src/record/mod.rs: levels and triggers with their bits; Record/Data is
--                      src/record/recorddata.rs: the data of a record and its constructors.
--   Observer           src/observer.rs: ObserverData and its constructors.
--   ModeChange         src/modechange.rs: the descriptors, their lookup (`mode_for` and the
--                      functions that call it), and OverrideModeMap as a map ordered by observer
--                      IDs.
--   Agent              src/agent/threadstatus.rs and src/agent/worker.rs: ThreadStatus,
--                      `determine_mode` (its branches are `created_object`, `created_unit`,
--                      `dropped_object`, `dropped_unit`), and `handle_local_record_event` up to
--                      the decision to write.
--   RecordBuffer       src/output/recordbuffer.rs: the buffer, with `write`, `cache`, `chunk`,
--                      `records`, `create_free_space`, `remove_oldest_record`, the administrative
--                      data of a file (`update_admin_data`), and the functions that truncate and
--                      split a text at a character.
--   Net                src/net/serializable.rs (Net/Serializable), the messages of src/net/mod.rs
--                      with src/record/originator.rs and src/record/recorddata.rs (Net/Messages),
--                      and src/net/buffer.rs (Net/Buffers), and src/net/clientwhitelist.rs
--                      (Net/Whitelist). Net/Utf8 is what `from_utf8` accepts.
--   Scanner            src/config/toml/scanner: the states of basicstates.rs (Scanner/Basic),
--                      numberstates.rs (Scanner/Numbers), stringstates.rs (Scanner/Strings) and
--                      datetimestates.rs (Scanner/DateTimes), their table (Scanner/States), and
--                      `next_token` with its loop (Scanner/Loop).
--   Document           src/config/toml/document.rs: TomlValueItem and TomlTable, and
--                      `header_selected`, `insert` and the functions that they call
--                      (Document/Editing).
--   Parser             src/config/toml/parser.rs: the state of the parser, its errors and keys;
--                      Parser/Conversions is what the token values of the scanner convert to, and
--                      Parser/Values has values, arrays, inline tables and `parse`.
--   Datetime           src/datetime.rs: time spans, anchors and intervals, with `next_elapse`;
--                      Datetime/Names has the names and `for_unit`.
--   Policies           src/policies.rs: policies, and the conditions that a text describes; and
--                      `parse_size_str` of src/util.rs.
--   Rollover           src/output/resource/rollover.rs: `archive_resource` and the functions that it
--                      calls, on a directory of names and contents.
--   Formats            src/output/formatspec.rs and src/variables.rs: `from_str`, the
--                      optimizations, `apply_to_record` and `to_file_name`; Formats/Output
--                      is src/output/outputformat.rs and src/output/recordformat.rs.
--   Config             src/config/mod.rs: the functions for single values, with their warnings;
--                      Config/Buffers is `read_buffer_policies`, and Config/Resources is
--                      `read_resources` with src/config/resource.rs.
--   Tests              runs at concrete inputs.
--
-- How code becomes definitions: a structure is a record and an enumeration a data type with the
-- source's constructors; a method that changes its object takes and returns it. Where the code
-- panics or leaves its memory, the definition returns `none`, or says so with a constructor
-- (`panic` in Net and Document, `panicked` in Scanner). Integers are natural numbers, reduced by the
-- size of their type where the code can overflow; `usize` has 64 bits. A text is the list of its
-- UTF-8 bytes, in the record buffer also the list of its characters, and in the scanner the list of
-- its code points.
--
-- Loops: most follow a list. `evict` has two turns more than there are records, since each turn
-- removes one and the next sees the empty buffer. `ids_from` tests twelve bits, all that a level
-- can have. `scan` has four turns for each character and the end, since a character that is given
-- back goes to a state of a lower rank, and there are four ranks. The loops of the parser read a
-- token in each turn and have three turns more than the text has characters.
--
-- Not modelled: regular expressions, which are parameters of the mode changes, of the whitelist and
-- of the policies; the memory mapping of a file, which is a parameter of the record buffer, with
-- the closing and reopening of the file; sockets, files and the system's log; the crate chrono,
-- whose reading and writing of dates and whose local time are parameters;
-- the URLs, the files and the floats of a configuration, which are parameters as well;
-- the compression libraries and what the system refuses, which are parameters of the rollover;
-- the system properties, levels, formats, modes and rollover policies of a configuration and
-- the preparation of its paths; the pattern for names of output files; remote clients of the agent.
pub mod Prelude
pub mod Collections
pub mod Record
pub mod Observer
pub mod ModeChange
pub mod Agent
pub mod Parser
pub mod Policies
pub mod Rollover
pub mod Formats
pub mod Config
pub mod Datetime
pub mod RecordBuffer
pub mod Scanner
pub mod Net
pub mod Tests
pub mod Document

-- ===== src/Lib.antt =====
-- Verification of hwatu, a browser whose daemon (crates/hwatud) is driven by clients over a socket
-- protocol (crates/ipc): one JSON document per line, each request answered by one response, and
-- events pushed to subscribers. What is modelled is the logic that does not run inside GTK or WebKit.
--
-- Ipc: crates/ipc/src/lib.rs. Ipc/Frame has `encode_frame` and `read_frame`; a reader is the list of
--   what its `fill_buf` calls will give. Ipc/Requests has `Request` with all its fields, the policy
--   test `uses_eval` and the validations of batches and alternatives; Ipc/Values the small types that
--   requests carry and their parsers; Ipc/Endpoints the parser of endpoints and the token check.
-- Server: crates/hwatud/src/ipc_server.rs, connections. Server has `FrameBuffer::take` and
--   `read_bounded_frame`, whose fuel is the room in the buffer, since each round that goes on reads a
--   byte; Server/Connection the life of a connection from `handle_conn` on, with the callbacks as
--   continuations; Server/Permits the bound on TCP connections, as a step relation over the atomic
--   operations.
-- Security: the policy that a daemon starts with, `parse_security_args` of crates/hwatud/src/main.rs,
--   `load_token_file` of crates/ipc/src/lib.rs and `parse_tcp_listen` of crates/hwatud/src/ipc_server.rs.
-- Dispatch: crates/hwatud/src/ipc_server.rs, requests. Dispatch/Gate has `dispatch` up to the code of
--   a single request, which is a parameter that changes a world and gives a response; its fuel is the
--   depth of batches, and one is enough. Dispatch/Batch has `dispatch_batch`, `dispatch_batch_step`
--   and `finish_batch`.
-- Events: crates/hwatud/src/events.rs, the broker of push events. A subscriber is a record with the
--   fields of `Subscriber`; `emit`, `subscribe`, the completion of a write and a disconnect are
--   functions on the registry, and Events/Step makes them the steps of a relation.
-- Snapbudget: crates/hwatud/src/snapbudget.rs, `apply` with its rungs and `quarantine`; the fuel of the
--   loop that halves the text is the length of the text, which each round makes shorter.
-- Snapdiff: crates/hwatud/src/snapdiff.rs, `normalize` and `diff`. Where the source keeps indices
--   into its slices the model keeps the elements.
-- Verify: crates/hwatud/src/verify.rs. Verify/Resize is the correction loop of `resize`, Verify/Frames
--   the pixel diff `diff_frames`, Verify/Regions the clustering `mismatch_regions`; the fuel of its
--   flood fill is the number of cells, since each round takes off the stack a cell marked once.
-- Keys: crates/hwatud/src/keys.rs. Keys/Actions has the tables of `Action`, Keys/Chords `Chord` with
--   its parser and its test, Keys/Keymap `Keymap` with its defaults and its configuration. GDK's
--   keyvals and Unicode's tables are a record of functions, `Gdk`.
-- Net: crates/hwatud/src/net.rs, the bounded request log of a window: `Buffer`, `classify` and the
--   callback of `attach`; the clock's reading is an argument.
-- Abp: crates/hwatud/src/abp.rs, the conversion of filter lists. Abp/Patterns has `pattern_to_regex`,
--   Abp/Options `parse_options` and `resolve_types`, Abp/Network `parse_network`, Abp/Convert
--   `parse_cosmetic` and `convert`.
-- Coverage: crates/hwatud/src/coverage.rs, the crawl of `scout`. The window that crawls is a record of
--   functions on a world; the fuel of the loop is the number of pages allowed, and more changes nothing.
-- Search: crates/hwatud/src/search.rs, engines, keywords, quickmarks and the percent encoding; the
--   configuration files are their texts. Search/Input: `normalize_url` of crates/hwatud/src/ipc_server.rs,
--   which the URL bar and the requests share; the file system and GLib are parameters.
-- Downloads: crates/hwatud/src/downloads.rs, the registry of downloads and what their signals change
--   in it; Downloads/Names is the choice of a file name, `unique_path`. Its counter has 32 bits in the
--   source and is fuel here, for as many names as the fuel allows.
-- Json: the JSON values of serde_json, which is not code of this repository, are a record of
--   operations and laws; Json/Sample shows that the laws can hold.
-- Common: Boolean tests, lists, `Result`, `i32`, and Rust's `str` as code points.
--
-- Numbers are natural numbers; the widths of `u32`, `u64` and `usize` are written out where the
-- source adds. Loops are structural recursion on what is left to read, or on the number of
-- rounds that the source allows, which is a bound of the source itself. Errors are values that say
-- which failure it is; their texts are not modelled.
--
-- Not modelled: windows, pages, the scripts that run in them, the code of the single requests, files and
-- processes, the clients, and computations with floating-point numbers other than the rounding in
-- `corrected_allocation`.
pub mod Common
pub mod Ipc
pub mod Json
pub mod Abp
pub mod Coverage
pub mod Dispatch
pub mod Downloads
pub mod Events
pub mod Keys
pub mod Net
pub mod Search
pub mod Security
pub mod Server
pub mod Snapbudget
pub mod Snapdiff
pub mod Verify

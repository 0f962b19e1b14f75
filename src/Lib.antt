-- ===== src/Lib.antt =====
-- local-proxy: a local HTTP proxy that translates between AI APIs (the Anthropic Messages API, the
-- OpenAI Chat Completions API and the OpenAI Responses API). A client's request names a model; the
-- router finds the provider and the upstream model for it; the request is prepared and sent; the
-- body that comes back is cut into server-sent events, and translated from the upstream's format to
-- the client's by way of a format-neutral representation. Usage and cache behaviour are read from
-- the events on the way. Paths below are from the repository's root.
--
-- The parts, and where they are modelled:
-- - Sse: src/domain/sse.rs and the scanner's loop in src/application/streams.rs. `feed_frames`,
--   `take_frame`, `parse_frame` and `flush_frames` have the source's names; `sse_frames` is the
--   polled stream with its state, `feed_all` and `scan` are the scanner. `from_utf8_lossy` is
--   written out on bytes.
-- - Config: the records of src/domain/config.rs; their JSON and YAML parsers are third-party.
-- - Router: src/domain/router.rs. Router.Build makes the tables (`Router::new`), Router.Resolve is
--   `resolve_model_impl` stage by stage, Router.Spec states the resolution on the configuration
--   alone. Every index and lookup that could panic in the source gives the outcome `panicked`.
-- - Json: the JSON values of the third-party library with the accessors that the source calls. An
--   object keeps its keys in order. A float is its bit pattern.
-- - Usage: token usage, of src/domain/translate.rs, and Usage.Energy the energy and cost that some
--   upstreams report. Operations on floats are the parameter `Floats`.
-- - Ir: src/domain/ir. Ir.Types has the data of mod.rs, Ir.Turns is `push_message`, Ir.Emitter is
--   the bookkeeping that the stream decoders share, Ir.Formats the choice of codec. Ir.Openai,
--   Ir.Anthropic and Ir.Responses are the stream decoders of openai.rs, anthropic.rs and
--   responses.rs; Ir.OpenaiEncoder, Ir.AnthropicEncoder, and Ir.ResponsesEncoder with
--   Ir.ResponsesEvents are the stream encoders. Ir.Protocol describes a well-formed stream of
--   events by a checker of its own; with `strict`, text goes to open blocks only, without it also
--   to a block that was closed. Ir.Late is a checker that tells calls from other blocks, and
--   Ir.AnthropicHeard the same on an Anthropic client's payloads; Ir.ResponsesWords describes
--   the words that a Responses upstream's payloads carry. Ir.OpenaiClient, Ir.AnthropicClient
--   and Ir.ResponsesClient describe what a client of each format expects, as machines that read
--   the payloads alone. A method that pushes to `out` returns the events it pushes. Ir.Media is
--   the URL of an image, Ir.Fold is `fold`, Ir.ResponsesBody `decode_response` and
--   `encode_response` of responses.rs, and Ir.Aggregate `aggregate`, with the loops of
--   src/application/streams.rs that read a whole body for it. The JSON parser, the clock and the
--   identifiers that a library draws are parameters.
-- - Streams: src/application/streams.rs. `Driver` is the driver with its state, polled by `drive`; a
--   `Machine` is the methods of a machine over its state, and `ir_machine` is `IrMachine`. A poll of
--   the body is a value of Sse.Stream. A capture is the list of the reports it was given.
--   Streams.Scanned is the passthrough that only reads usage off a body. Streams.Whole and
--   Streams.Served put the parts together.
-- - Recording: src/application/usage.rs, the sessions that are remembered and the rows that are
--   recorded, with `StatLine` of src/domain/stats.rs.
-- - Cache: src/domain/cache.rs. A mutation in place is a function into Option, none where the
--   source finds nothing to change. Digests are texts.
-- - Exec, Account, Error: src/domain/exec.rs, src/domain/account.rs and src/domain/error.rs. The JSON
--   printer is a parameter of Error.
-- - Request: src/domain/request.rs, but for the translation between formats.
-- - Proxy: the choices of src/application/proxy.rs before a request is sent: `authenticate`,
--   `resolve_model` (`resolve_request` here) and `account_for`. An upstream account is known by its
--   aliases and whether it has credentials; a panic is an outcome.
-- - Runtime: the instance's state and its sessions, of src/application/runtime.rs, as steps; what the
--   ports give comes with the step that takes it in.
-- - Base: names from the libraries, texts, lists, maps and decimal numbers. A text is the list of
--   its code points. Tests: the theorems at concrete inputs.
--
-- Bounds and fuel: block indices are of 32 bits and wrap, token counts of 64 bits. A frame takes at
-- least two characters from the buffer, so the loop of `feed_frames` has fuel for the buffer's
-- length and one; `show_nat` has fuel for more digits than the number has; the polled stream is
-- driven by a number of polls, and so is the driver; their number of polls has to exceed that of the
-- frames or payloads. An upstream that opens 2 ^ 32 blocks is outside what is shown.
--
-- Not modelled: the HTTP server, the command line, the stores and the upstream clients, which do
-- input and output; the catalog and the rest of src/application; the request codecs of the three
-- formats, and the response codecs of the OpenAI and Anthropic formats. The log lines of a driver are
-- left out, and so is a lock that is poisoned.
pub mod Base
pub mod Sse
pub mod Config
pub mod Json
pub mod Usage
pub mod Ir
pub mod Cache
pub mod Exec
pub mod Account
pub mod Error
pub mod Request
pub mod Streams
pub mod Recording
pub mod Proxy
pub mod Runtime
pub mod Router
mod Tests

-- ===== src/Lib.antt =====
-- The plugin that offers the models of OpenCode Go through the CLIProxyAPI host: a verification
-- library of its Go sources. Every definition is translated from the code and can be run; the
-- theorems are about those definitions.
--
-- The program. The host loads the plugin and hands it a YAML configuration (internal/config). The
-- plugin fetches the catalog of upstream models and keeps a snapshot of the routable ones
-- (internal/catalog), which it rebuilds when the configuration changes. For a request it looks the
-- model up, translates the request to the protocol of the model's route (internal/adapter),
-- converting the client's reasoning effort or budget to what the model supports
-- (internal/thinking), sends it through the host (internal/plugin) and translates the answer back.
-- Every failure becomes a classified error whose message is redacted (internal/errclass).
--
-- The files.
--   Prelude: shared helpers. A Go string is a Text, the list of its bytes; an int is a native
--     natural or, where it may be negative, the integer ℤ over the native naturals; a map is an
--     association list; a pointer is an option; a returned error is the case err of Outcome. A sum
--     of token counts wraps around at 64 bits (wrap_int64); other integers are not bounded, since
--     the code modelled compares them or adds small constants. A float64 of a payload is its
--     conversion to int64, with whether it is zero.
--   Redact: `Redact` with its three regular expressions, each written out as a scan.
--   ErrorClass: the rest of internal/errclass/errclass.go, and `requestErrorEnvelope` of
--     internal/plugin/executor.go.
--   Config: internal/config/config.go. `Load` is load, for a decoded YAML document; `validate` is
--   validate.
--   Thinking: internal/thinking/thinking.go, with an index out of range as a value of its own.
--   Catalog: internal/catalog/catalog.go. Catalog/Build is the loop of `swap`, Catalog/Manager the
--     methods of the manager as functions from a manager to a manager, Catalog/Route the choice of
--     a route.
--   Sse: SSEFramer of internal/adapter/shared/shared.go, with the loop of a converter's Feed that
--     drains it (internal/adapter/messages/stream.go). Sse/Lines has an automaton that reads byte
--     by byte.
--   HostBridge: callWithTimeoutResult and WaitForInFlight of internal/plugin/hostbridge.go, as a
--     step relation on one call and on all calls and pumps of the bridge, for any order of the
--     goroutines.
--   ResponseTools: internal/adapter/shared/responses_tools.go. add_tool is the function `add` of
--     `Normalize` and restore_call is `RestoreCall`; the records of the JSON items hold the fields
--     that these read.
--   Pump: pumpStream and emitAll of internal/plugin/executor.go, over the host's answers to the
--     reads; what is called on the host, by the pump and by its watchdog, is a trace.
--   Protocol: the tables, tool choice and status errors of internal/adapter/shared/shared.go, and
--     resolveExecution and resolveOpenCodeSessionID of internal/plugin/executor.go.
--     Protocol/Images is ImageSource and ClaudeImageURL.
--   Assembly: OutputAssembler of internal/adapter/shared/shared.go. Its methods return the changed
--   assembler.
--   Frames: what the stream synthesizers emit (ChatChunkBuilder, ClaudeEventEmitter,
--     ResponsesEventEmitter of internal/adapter/shared/shared.go) as data types with a constructor
--     for each method, and the JSON that each renders; Frames/Usage has the usage blocks and the
--     result envelopes.
--   Messages: StreamConverter of internal/adapter/messages/stream.go. Messages/ChatTarget is
--     dispatchOpenAI, Messages/ResponsesTarget dispatchResponses, Messages/Feed dispatch, Feed and
--     Flush. A converter is its framer and a record of the other fields; -1 as an index is none.
--   ChatStream: StreamConverter of internal/adapter/chatcompletions/stream.go.
--     ChatStream/ClaudeTarget is claudeLine, ChatStream/ResponsesRoute responsesLine,
--     ChatStream/Feeding Feed, handleLine and Flush. A method that appends events returns the
--     converter with them, and then_write puts two in sequence.
--   Plugin: Manager of internal/plugin/plugin.go. The catalog managers stand in a store, since the
--     plugin and a refresh loop share one; the channels stop and done of a loop are the loop's
--     place in a list. Plugin/Auth is materializeAuthRecords.
--   The child modules of each hold the proofs, and the modules Samples concrete runs.
--
-- Parameters: the YAML and JSON decoders, json.Marshal, the clock, os.ExpandEnv,
-- time.ParseDuration, url.Parse, url.PathEscape, strings.EqualFold on hosts, the verb %q and the
-- host client. They are fields of the records Environment, Library, ResponsesLibrary, Decoder and
-- ChunkDecoder, or arguments, and so are the SHA-256 digest and strconv.Atoi. No theorem assumes
-- anything about them but two: Plugin.Records.materialize-again assumes that a digest has 64
-- digits and that the host lists what was saved, ResponseTools.Restore.qualified_name-le that the
-- digest of a name is cut to 12 digits.
--
-- Loops over a list are structural recursion. The loops of the SSE framer and of each Feed run on
-- fuel, one more than the length of the buffer: each round of `Next` takes a byte of it at least,
-- and so does each frame. The pump recurs on the list of the host's answers, and gives none while
-- it still waits for one.
--
-- Not modelled: the request and result converters of the adapters, the stream converter of
-- internal/adapter/responses, the table of HandleCall, the executor's handlers, the wrappers of
-- the host bridge, quota and auth; main.go (cgo glue) and the packaging script.
mod Prelude
pub mod Redact
pub mod ErrorClass
pub mod Config
pub mod Thinking
pub mod Catalog
pub mod Sse
pub mod HostBridge
pub mod ResponseTools
pub mod Pump
pub mod Protocol
pub mod Assembly
pub mod Frames
pub mod Messages
pub mod Plugin
pub mod ChatStream

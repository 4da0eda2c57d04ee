-- ===== src/Lib.antt =====
-- ngx-inference: an nginx module, in Rust, that routes inference requests.
--
-- A request passes the access phase, where two stages may handle it. Body-based routing (BBR) reads
-- the body, takes the name of the model from its JSON and puts it in a header. The endpoint picker
-- (EPP) sends the request's headers to an ext-proc gRPC service and puts the upstream that the
-- service selects in another header, which the variable $inference_upstream then evaluates to. Both
-- stages wait for something, so the handler returns NGX_DONE, a callback or a timer resumes the
-- phases, and nginx calls the handler again: the headers tell it what has been done.
--
-- Which file models which part:
--   Prelude, Text, Utf8   numbers, lists, bytes: Rust's integers, str and the UTF-8 functions
--   Config                src/modules/config.rs: ModuleConfig, Default, Merge, set_on_off,
--                         set_string_opt, set_usize, set_u64
--   Config/Directives     src/lib.rs: ngx_conf_handler!, NGX_HTTP_INFERENCE_COMMANDS
--   Nginx, Nginx/Headers  nginx's request and buffers; get_header_in of src/modules/bbr.rs
--   Body, Body/Chunks     the walk over nginx's buffers and the pread loop, which
--                         src/modules/bbr.rs and src/epp/callbacks.rs write out alike
--   Bbr, Bbr/Body         src/modules/bbr.rs: process_request, start_body_reading,
--                         bbr_body_read_handler, read_request_body, set_413_error
--   Model                 src/model_extractor.rs: extract_model_from_body
--   Grpc                  src/grpc.rs: the channel (Channel), the response parsers (Mutation,
--                         Logged), the stream (Stream), the three entry points (Client, Blocking,
--                         Async) and the text of transport errors (Details)
--   Epp/Context           src/epp/context.rs: AsyncEppContext, ResultWatcher, create_eventfd
--   Epp/Body, Epp/Start   src/epp/callbacks.rs: extract_request_body, process_with_existing_body,
--                         read_body_async, body_read_done, setup_result_timer
--   Epp/Failure           src/epp/callbacks.rs: process_epp_result, handle_epp_failure,
--                         set_upstream_header
--   Epp/Timer, Epp/Task   src/epp/callbacks.rs: check_epp_result; src/epp/async_processor.rs:
--                         spawn_epp_task, process_epp_async
--   Epp/Processor         src/epp/mod.rs: EppProcessor::process_request
--   Variable              src/lib.rs: set_variable_from_bytes, inference_upstream_var_get
--   Access                src/lib.rs: inference_access_handler
--   Log, Log/Failure      the logging macros of src/epp/callbacks.rs, src/grpc.rs and
--                         src/modules/bbr.rs, as calls of nginx's logger; those
--                         of process_epp_result and handle_epp_failure
--   Registration          src/lib.rs: Module::preconfiguration, Module::postconfiguration
--   Mock                  bin/extproc_mock.rs: the server of the integration tests
-- The other files below these hold the proofs (Epp/Race also the steps of one call, Epp/Delivery
-- the end of the task, Epp/Deadline the rounds of the timer, Epp/System the steps with the task's
-- own result), and the files with Tests in their names and Fixtures hold concrete runs.
--
-- Epp/Outcome is the contract of one call as its caller sees it: out, or ended in one of the
-- ways that its configuration allows. Epp/Ends, Epp/Firing, Epp/Refine and Epp/System relate the
-- timer, the channel and the task to it. Epp/Begun and Access/Served follow a call from the pass
-- that starts it, Epp/Served and Epp/Liveness to its end; Access/FirstPass and Access/Pipeline
-- are the passes that start a call, and Access/EndToEnd and Access/Whole go on from them to the
-- next pass and the variable. There the timer finds the request as the pass left it, since the
-- two share it. Access/Repeat is the pass over a request whose body is there, Access/Failing the
-- ways in which its call fails, and Access/Fallback, Access/Settled and Access/Retry what
-- becomes of the request then; Access/BothStages begins with the first stage, and
-- Access/Integration puts the mock behind the call. Access/Shared is about all the calls of one
-- request: their list over the request that they share, with the steps of the handler, of the
-- callbacks and of each call, where each call has a clock of its own. Config/Block is about a
-- whole block of directives. Utf8/Repair, Grpc/Typed and Epp/Typed follow the texts that Rust
-- types as `String` from the messages to the header.
--
-- State is passed explicitly: a handler takes a Request and returns the one it leaves. The calls
-- into nginx whose result the code does not read are a list in the request, the latest last. One
-- EPP call is a World: the request, the timer event, the watcher that the event points to, the
-- channel, the eventfd and the task. Epp/Race has the steps of the worker, of nginx and of the task
-- as a relation, in any order.
--
-- Parameters, for code that is not the module's: nginx's functions and pread (Nginx, Host), the
-- request's pool (Pool), what nginx registers (Registry), serde_json (Json), tonic with its URI
-- parser and the file system (Tonic). What the proofs take for granted of them are the records
-- AddsHeader, ReadsBody, ReadsFile, RespectsCount, TextIsUtf8, DecodesText, Registers and
-- ReadsSlices, each of documented behaviour. The mock has its environment as a record (Env), and
-- the number of replies that its client takes as an argument.
--
-- Integers: usize and u64 have 64 bits and wrap where the code does not check. The pread loop runs on
-- fuel, the size of the range; every round reads at least one byte, so that is enough. The UTF-8
-- functions run on the number of bytes.
--
-- Not modelled: the tables of the module, the tokio runtimes, the other log lines and what nginx
-- makes of a line's format, the details in an error's text, the generated protobuf types (their
-- fields are in Grpc/Proto), tonic's server and the signals around the mock, and its streams that
-- the client leaves open. A request's memory is taken to outlive its EPP call, and a connection
-- attempt and the gRPC call itself are taken to end. The task of a call whose timer could not be
-- set up is not followed. A panic inside a C callback is a call that ends the process.
pub mod Prelude
pub mod Text
pub mod Utf8
pub mod Config
pub mod Nginx
pub mod Body
pub mod Mock
pub mod Model
pub mod Bbr
pub mod Grpc
pub mod Epp
pub mod Variable
pub mod Registration
pub mod Log
pub mod Access
pub mod Fixtures

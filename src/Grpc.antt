-- ===== src/Grpc.antt =====
-- The ext-proc client (src/grpc.rs): the endpoint, the request message, the search for the
-- header in the responses, and the exchange over one gRPC stream.
pub mod Proto
pub mod Mutation
pub mod Logged
pub mod Channel
pub mod Stream
pub mod Client
pub mod Blocking
pub mod Async
pub mod Entries
pub mod Details
pub mod Typed
mod Tests

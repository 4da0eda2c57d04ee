-- ===== src/Epp.antt =====
-- The endpoint picker (src/epp): the context and the watcher of one call, the body reader, the
-- failure modes, the task, and the timer that polls for its result.
pub mod Context
pub mod Body
pub mod Limit
pub mod Failure
pub mod Task
pub mod Timer
pub mod Race
pub mod Poll
pub mod Deadline
pub mod Start
pub mod Processor
pub mod Delivery
pub mod Again
pub mod Outcome
pub mod Ends
pub mod Firing
pub mod Refine
pub mod Served
pub mod Liveness
pub mod Begun
pub mod System
pub mod Callback
pub mod Typed
mod Tests
mod DeliveryTests

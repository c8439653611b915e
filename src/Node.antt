-- ===== src/Node.antt =====
-- The node's actors: rosrust-async/src/node/actors.
pub mod Port
pub mod Guards
pub mod Parameter
pub mod Publisher
pub mod Service
pub mod Subscriber
pub mod Api
pub mod Shutdown
pub mod Handle
pub mod Builder
pub mod Typed
pub mod Dynamic

-- ===== src/Xmlrpc.antt =====
-- The XML-RPC layer: rosrust-async/src/xmlrpc.
pub mod Dxr
pub mod Protocol
pub mod Client
pub mod Master
pub mod Slave
pub mod SystemState
pub mod Samples
mod Tests

-- ===== src/Tcpros.antt =====
-- The TCPROS wire protocol: rosrust-async/src/tcpros.
pub mod Utf8
pub mod Bytes
pub mod Spec
pub mod Net
pub mod Header
pub mod SampleNet
pub mod Service
pub mod ServiceClient
pub mod Subscription
pub mod Publication
mod Tests

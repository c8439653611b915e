-- ===== src/Tcpros/Header.antt =====
-- TCPROS connection headers: rosrust-async/src/tcpros/header.
pub mod Defs
pub mod Ser
pub mod De
pub mod Visit
pub mod Wire
pub mod Derive
pub mod Compat
pub mod Parse
pub mod RoundTrip
pub mod Rejects
pub mod Ends
pub mod Samples

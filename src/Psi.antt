-- ===== src/Psi.antt =====
-- The private set intersection (src/PSI/psi/interconnection_psi).
pub mod Session
pub mod Curve
pub mod Cipher
pub mod Flow
pub mod Transport
pub mod Streams
pub mod Received
pub mod Checked
pub mod Exchange
pub mod Messages
pub mod Base
pub mod Handshake
pub mod Accepted
pub mod Negotiation
pub mod Api
pub mod Joint
pub mod Toy
mod Tests

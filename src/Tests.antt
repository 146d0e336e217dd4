-- ===== src/Tests.antt =====
-- Runs of the definitions on concrete inputs, and the theorems at such inputs.
pub mod Receive
pub mod Codec
pub mod Components
pub mod Connection
pub mod Handshake
pub mod Objects
pub mod Loop
pub mod Examples

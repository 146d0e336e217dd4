-- ===== src/Dbus.antt =====
-- dbus/: the client side of the D-Bus protocol.
pub mod Wire
pub mod Message
pub mod Connection

-- ===== src/Examples.antt =====
-- The example programs: examples/dbus, a client of its own with its own codec, and examples/dbus.cpp.
pub mod Reader
pub mod Writer
pub mod Message
pub mod Client
pub mod Handler

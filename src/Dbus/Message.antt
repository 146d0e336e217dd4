-- ===== src/Dbus/Message.antt =====
-- dbus/message.cpp: messages.
pub mod Layout
pub mod Reader
pub mod Writer
pub mod Header
pub mod Private
pub mod Api
pub mod Printing

-- ===== src/Core.antt =====
-- core/: values, timers and logging.
pub mod Types
pub mod Timer
pub mod Object
pub mod EventLoop
pub mod Logging

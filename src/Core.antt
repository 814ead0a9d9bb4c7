-- ===== src/Core.antt =====
-- include/nitrocoro/core: what coroutines synchronise by.
pub mod Mutex

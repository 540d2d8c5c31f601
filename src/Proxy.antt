-- ===== src/Proxy.antt =====
-- src/proxy/sanitize.rs: the proxy between a client and an engine rewrites both ways.
pub mod Repetition
pub mod Sse
pub mod Images

-- ===== src/Realtime.antt =====
-- lib/realtime: what is sent to the browsers that watch the chain.
pub mod Hub

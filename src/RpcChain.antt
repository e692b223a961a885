-- ===== src/RpcChain.antt =====
-- The package lib/rpcchain: errors, endpoint pool, retries and the request throttle.
pub mod Errors
pub mod Pool
pub mod Retry
pub mod Throttle

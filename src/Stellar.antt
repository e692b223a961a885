-- ===== src/Stellar.antt =====
-- The package internal/client/stellar: the client of the RPC servers.
pub mod Model
pub mod Batches
pub mod Client
pub mod Fetch
pub mod RpcClient

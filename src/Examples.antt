-- ===== src/Examples.antt =====
-- Concrete runs of the code: the theorems at small inputs.
mod Rpc
mod Fetch
mod Worker
mod Lists
mod Registry
mod Realtime
mod Auth
mod Accounts
mod Verify

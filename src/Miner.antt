-- ===== src/Miner.antt =====
-- src/miner.cpp: the choice of transactions for a block, nonces, and the search for them.
pub mod Mempool
pub mod Nonce
pub mod Worker
pub mod Share
pub mod Pool

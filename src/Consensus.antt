-- ===== src/Consensus.antt =====
-- What src/crypto.cpp and src/types.cpp compute of a block's transactions: the Merkle root, the
-- address filter, the removal of expired transactions, and the reward.
pub mod Merkle
pub mod Filter
pub mod Trim
pub mod Reward

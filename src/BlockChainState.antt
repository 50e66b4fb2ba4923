-- ===== src/BlockChainState.antt =====
-- Core/BlockChainState.cpp: what a transaction and a block do to the state of the chain.
pub mod Errors
pub mod Validation
pub mod Interface
pub mod Delta
pub mod Ledger
pub mod Stacks
pub mod Redo
pub mod RingChecker
pub mod Chain
pub mod Undo
pub mod Pool
pub mod Effects

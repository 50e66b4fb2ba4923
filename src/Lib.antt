-- ===== src/Lib.antt =====
-- A model of the core of CryoNero, a CryptoNote currency: the rules by which a node accepts
-- transactions and blocks, the state that they change, and the formats underneath.
--
-- Parts, and the files of the repository that they translate:
--   Varint.Sqlite4 (src/common/Varint.cpp) are the numbers in database keys, Varint.Leb128
--     (src/common/Varint.hpp) those of the binary format.
--   IntUtil (src/crypto/int-util.h) and Int128 (src/common/Int128.hpp) are arithmetic on 128 bits,
--     Difficulty (src/Core/Difficulty.cpp) is the test of a proof of work that uses it.
--   CryptoNote (src/CryptoNote.hpp) are transactions and blocks.
--   Currency (src/Core/Currency.cpp) are the rules with their constants; Currency.Reward is the
--     reward of a block, with the 128-bit products and quotients of IntUtil, Currency.NextDifficulty
--     the difficulty that the next block must have.
--   BlockChain (src/Core/BlockChain.cpp) is the tree of blocks with its main chain. Children are the
--     counters of children and the index of the tips, Common is get_common_block, Reorganize is
--     reorganize_blocks, AddBlock is add_block. Client is what the class leaves to the one derived
--     from it. MainChain and Valid are the invariant, Ancestors the paths of the tree.
--   BlockChainState (src/Core/BlockChainState.cpp) is the state of the chain. Validation is
--     validate_semantic and get_tx_fee (src/Core/CryptoNoteTools.cpp). Interface is
--     IBlockChainState, which Delta (DeltaState) and Ledger (the tables of BlockChainState)
--     implement. Redo is redo_transaction_get_error and redo_block on a delta, RingChecker
--     (src/Core/RingCheckerMulticore.cpp) are the checks of a block against the chain, and Chain is
--     redo_block on the chain, which uses the others in the order of the source. Undo is undo_block.
--     Stacks is the abstract state: for each amount a stack of outputs that global indices count;
--     Effects are what the inputs and outputs of a block do to it. Pool are the tables of the
--     transactions that wait, with remove_from_pool and, in Pool.Add, add_transaction.
--   Http (src/http) are the two incremental parsers, one state and one clause for each of the
--     source's.
--
-- Conventions. Numbers are natural; a word wraps around where it is written, `% 2 ^ w`. A function
-- that throws, fails an assert or violates an `invariant` yields `none`, `err` or `violated`, and
-- an error text is a constructor. A `char` is the number of its byte. A key, a key image and a hash
-- are numbers. The database is a map of maps, for its keys stand in the order of the numbers that
-- they encode (Varint.Sqlite4.KeyOrder). Loops recurse on the list that they walk. The writer of
-- Varint.Leb128 recurses on fuel, one more than the number, which each round divides; the loops of
-- BlockChain that go down the tree take the height of the block for fuel, since a parent is lower;
-- the loop that cuts the pool takes one more than the number of its transactions.
--
-- Parameters: the test of a public key, the hash of a transaction's prefix and the check of a ring
-- signature (cryptography), boost::lexical_cast (a library), and the heights of the checkpoints (a
-- table). The threads of the ring checker are one pass over its work, for their order is not seen.
--
-- Not modelled: the database commit, the internal import and the printing of BlockChain, the
-- templates of blocks and the pool after a reorganization of BlockChainState, the peer database, the
-- wallet and the serialization, which are parts of the same kind; sockets, files, logging and the
-- command line (src/platform, src/logging, src/http/Agent.cpp, src/p2p), which are input and output;
-- and the curves and hash functions of src/crypto.
pub mod Prelude
pub mod Varint
pub mod IntUtil
pub mod Int128
pub mod Difficulty
pub mod CryptoNote
pub mod BlockChain
pub mod BlockChainState
pub mod Currency
pub mod Http

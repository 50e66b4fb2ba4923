-- ===== src/Varint.antt =====
-- The variable-length integers of common/Varint.cpp and common/Varint.hpp.
pub mod Sqlite4
pub mod Leb128

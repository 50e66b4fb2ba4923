-- ===== src/Http.antt =====
-- http/: the incremental parsers of requests and responses.
pub mod Types
pub mod RequestParser
pub mod ResponseParser

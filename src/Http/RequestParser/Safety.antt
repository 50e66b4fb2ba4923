-- ===== src/Http/RequestParser/Safety.antt =====
-- http/RequestParser.cpp never asks for the last of no headers.
use cryo_nero.Prelude.{◌<◌, ◌≡◌, Bool, true, false, Option, some, length}
use cryo_nero.Http.RequestParser.{
  State, header_lws, header_name, space_before_header_value, header_value, RequestParser,
}

-- The states in which characters go to the last header.
abbrev pub needs_header : State → Bool
needs_header header_lws = true
needs_header header_name = true
needs_header space_before_header_value = true
needs_header header_value = true
needs_header _ = false

abbrev pub IsSafe : RequestParser → Type 0
IsSafe p = needs_header p.state ≡ true → 0 < length p.req.headers

-- Defined, with a parser that is safe.
abbrev Safely : Option RequestParser → Type 0
Safely m = (p : RequestParser) × (m ≡ some p) × IsSafe p

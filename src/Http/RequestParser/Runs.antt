-- ===== src/Http/RequestParser/Runs.antt =====
-- Runs of http/RequestParser.cpp, and the theorems at concrete inputs.
use cryo_nero.Prelude.{ℕ, ◌≡◌, refl, Option, none, some, List, [], ◌∷◌}
use cryo_nero.Http.Types.{
  Request, new_request, new_header, is_char, is_ctl, is_tspecial, no_token, is_digit,
}
use cryo_nero.Http.RequestParser.{
  RequestParser, header_line_start, good, new_parser, process_ready_header, consume, parse,
}
use cryo_nero.Http.RequestParser.Lines.{at, with_header, parse-header_line}

-- Reads no number.
abbrev no_number : List ℕ → Option ℕ
no_number digits = none

-- The line "Ab: c".
abbrev one_header : Request
one_header = with_header new_request (record { name = 65 ∷ 98 ∷ []; value = 99 ∷ [] })

parse-header_line_example :
    parse no_number
      (65 ∷ 98 ∷ 58 ∷ 32 ∷ 99 ∷ 13 ∷ 10 ∷ 13 ∷ [])
      (at header_line_start new_header new_request)
    ≡ parse no_number (13 ∷ []) (at header_line_start new_header one_header)
unfolding process_ready_header no_token is_char is_ctl is_tspecial
parse-header_line_example =
    parse-header_line no_number 65 (98 ∷ []) (99 ∷ []) (13 ∷ []) new_request one_header
      (refl, (refl, tt)) (refl, tt) refl

-- "GET /a HTTP/1.1", the header "Host: B" and the end of the headers; the body is not read.
abbrev whole : List ℕ
whole =
    71 ∷ 69 ∷ 84 ∷ 32 ∷ 47 ∷ 97 ∷ 32 ∷ 72 ∷ 84 ∷ 84 ∷ 80 ∷ 47 ∷ 49 ∷ 46 ∷ 49 ∷ 13 ∷ 10 ∷ 72 ∷ 111
    ∷ 115 ∷ 116 ∷ 58 ∷ 32 ∷ 66 ∷ 13 ∷ 10 ∷ 13 ∷ 10 ∷ 120 ∷ []

abbrev got : Request
got = record new_request {
  method = 71 ∷ 69 ∷ 84 ∷ [];
  uri = 47 ∷ 97 ∷ [];
  http_version_major = 1;
  http_version_minor = 1;
  host = 98 ∷ [];
}

whole_run :
    parse no_number whole (new_parser new_request)
    ≡ some (record { state = good; lowcase = new_header; req = got }, 120 ∷ [])
unfolding parse consume process_ready_header no_token is_char is_ctl is_tspecial is_digit
whole_run = refl

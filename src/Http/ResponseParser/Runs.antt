-- ===== src/Http/ResponseParser/Runs.antt =====
-- Runs of http/ResponseParser.cpp, and the theorems at concrete inputs.
use cryo_nero.Prelude.{ℕ, ◌≡◌, refl, Option, none, some, List, [], ◌∷◌}
use cryo_nero.Http.Types.{
  Response, new_response, new_header, is_char, is_ctl, is_tspecial, no_token,
}
use cryo_nero.Http.ResponseParser.{
  ResponseParser, header_line_start, new_parser, process_ready_header, parse,
}
use cryo_nero.Http.ResponseParser.Safety.{IsSafe, ResponseParser-IsSafe}
use cryo_nero.Http.ResponseParser.Lines.{at, with_header, ResponseParser-header_line}

-- Reads no number.
abbrev no_number : List ℕ → Option ℕ
no_number digits = none

ResponseParser-IsSafe_example :
    (p' : ResponseParser) × (rest : List ℕ) × (parse no_number
        (72 ∷ 84 ∷ 84 ∷ 80 ∷ [])
        (new_parser new_response)
      ≡ some (p', rest))
    × IsSafe p'
ResponseParser-IsSafe_example =
    ResponseParser-IsSafe no_number (72 ∷ 84 ∷ 84 ∷ 80 ∷ []) (new_parser new_response)
      (λ t. absurd cc)

-- The line "Ab: c".
abbrev one_header : Response
one_header = with_header new_response (record { name = 65 ∷ 98 ∷ []; value = 99 ∷ [] })

ResponseParser-header_line_example :
    parse no_number
      (65 ∷ 98 ∷ 58 ∷ 32 ∷ 99 ∷ 13 ∷ 10 ∷ 13 ∷ [])
      (at header_line_start new_header new_response)
    ≡ parse no_number (13 ∷ []) (at header_line_start new_header one_header)
unfolding process_ready_header no_token is_char is_ctl is_tspecial
ResponseParser-header_line_example =
    ResponseParser-header_line no_number 65 (98 ∷ []) (99 ∷ []) (13 ∷ []) new_response one_header
      (refl, (refl, tt)) (refl, tt) refl

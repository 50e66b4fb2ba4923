-- ===== src/Http/ResponseParser.antt =====
-- http/ResponseParser.cpp: a machine that reads one character at a time. The words of the headers that it
-- looks for are spelled in bytes.
pub mod Safety
pub mod Lines
mod Runs
use cryo_nero.Prelude.{
  ℕ, ◌+◌, ◌-◌, Bool, true, false, not, ◌&&◌, ◌||◌, Option, none, some, List, [], ◌∷◌, ◌++◌, ltb,
  ◌==◌, if◌then◌else◌, length, drop, take, map,
}
use cryo_nero.Http.Types.{
  Header, Response, new_header, is_ctl, is_digit, no_token, tolower, next_digit, change_back,
  pop_back, push_name, push_value, same,
}

pub data State : Type 0 where
  http_version_h http_version_t_1 http_version_t_2 http_version_p http_version_slash : State
  http_version_major_start http_version_major http_version_minor_start http_version_minor : State
  status_code_1 status_code_2 status_code_3 status_code_space status_text : State
  expecting_newline_1 header_line_start header_lws header_name : State
  space_before_header_value header_value expecting_newline_2 expecting_newline_3 good bad : State

-- The parser and the response that it fills.
pub record ResponseParser : Type 0 where
  pub state : State
  pub lowcase : Header
  pub req : Response

-- The constructor, with the given response.
abbrev pub new_parser : Response → ResponseParser
new_parser r = record { state = http_version_h; lowcase = new_header; req = r }

abbrev go : State → ResponseParser → Option ResponseParser
go state p = some (record p { state = state })

abbrev set_req : State → Response → ResponseParser → Option ResponseParser
set_req state req p = some (record p { state = state; req = req })

-- `req.headers.back()` gets the character, as does `lowcase`.
abbrev add_to_name : ℕ → ResponseParser → Option ResponseParser
add_to_name c p = elim (change_back (push_name c) p.req.headers) [
  | none ↦ none
  | some headers ↦ some (record p {
    state = header_name;
    lowcase = push_name (tolower c) p.lowcase;
    req = record p.req { headers = headers };
  })
]

abbrev add_to_value : ℕ → ResponseParser → Option ResponseParser
add_to_value c p = elim (change_back (push_value c) p.req.headers) [
  | none ↦ none
  | some headers ↦ some (record p {
    state = header_value;
    lowcase = push_value (tolower c) p.lowcase;
    req = record p.req { headers = headers };
  })
]

-- Pops the header and keeps what it said.
abbrev taken : Response → Option (Response × Bool)
taken req = elim (pop_back req.headers) [
  | none ↦ none
  | some headers ↦ some (record req { headers = headers }, true)
]

abbrev pub word_content_length : List ℕ
word_content_length =
    99 ∷ 111 ∷ 110 ∷ 116 ∷ 101 ∷ 110 ∷ 116 ∷ 45 ∷ 108 ∷ 101 ∷ 110 ∷ 103 ∷ 116 ∷ 104 ∷ []

abbrev pub word_connection : List ℕ
word_connection = 99 ∷ 111 ∷ 110 ∷ 110 ∷ 101 ∷ 99 ∷ 116 ∷ 105 ∷ 111 ∷ 110 ∷ []

abbrev pub word_close : List ℕ
word_close = 99 ∷ 108 ∷ 111 ∷ 115 ∷ 101 ∷ []

abbrev pub word_keep_alive : List ℕ
word_keep_alive = 107 ∷ 101 ∷ 101 ∷ 112 ∷ 45 ∷ 97 ∷ 108 ∷ 105 ∷ 118 ∷ 101 ∷ []

-- `boost::lexical_cast<size_t>` is a parameter: `none` when it throws.
module _ (lexical_cast : List ℕ → Option ℕ) where
  -- The response and whether the header is one that the parser can read.
  unfoldable pub process_ready_header : Header → Response → Option (Response × Bool)
  process_ready_header lowcase req =
      if same lowcase.name word_content_length
      then elim (lexical_cast lowcase.value) [
        | none ↦ some (req, false)
        | some number ↦ taken (record req { content_length = number })
      ]
      else if same lowcase.name word_connection
      then (if same lowcase.value word_close
          then taken (record req { keep_alive = false })
          else if same lowcase.value word_keep_alive
          then taken (record req { keep_alive = true })
          else some (req, false))
      else some (req, true)

  -- The end of a header's line.
  abbrev finish_header : ResponseParser → Option ResponseParser
  finish_header p = elim (process_ready_header p.lowcase p.req) [
    | none ↦ none
    | some (req, false) ↦ set_req bad req p
    | some (req, true) ↦
        some (record p { state = expecting_newline_2; lowcase = new_header; req = req })
  ]

  -- One character; `none` is an access to the last of no headers.
  pub consume : ℕ → ResponseParser → Option ResponseParser
  unfolding no_token is_ctl is_digit
  consume c p = elim p.state [
    | http_version_h ↦ if c == 72 then go http_version_t_1 p else go bad p
    | http_version_t_1 ↦ if c == 84 then go http_version_t_2 p else go bad p
    | http_version_t_2 ↦ if c == 84 then go http_version_p p else go bad p
    | http_version_p ↦ if c == 80 then go http_version_slash p else go bad p
    | http_version_slash ↦ if c == 47 then go http_version_major_start p else go bad p
    | http_version_major_start ↦
        if is_digit c
        then set_req http_version_major
            (record p.req { http_version_major = next_digit p.req.http_version_major c }) p
        else go bad p
    | http_version_major ↦
        if c == 46
        then go http_version_minor_start p
        else if is_digit c
        then set_req http_version_major
            (record p.req { http_version_major = next_digit p.req.http_version_major c }) p
        else go bad p
    | http_version_minor_start ↦
        if is_digit c
        then set_req http_version_minor
            (record p.req { http_version_minor = next_digit p.req.http_version_minor c }) p
        else go bad p
    | http_version_minor ↦
        if c == 32
        then set_req status_code_1
            (record p.req {
              keep_alive = p.req.http_version_major == 1 && p.req.http_version_minor == 1;
            })
            p
        else if is_digit c
        then set_req http_version_minor
            (record p.req { http_version_minor = next_digit p.req.http_version_minor c }) p
        else go bad p
    | status_code_1 ↦
        if is_digit c
        then set_req status_code_2 (record p.req { status = next_digit p.req.status c }) p
        else go bad p
    | status_code_2 ↦
        if is_digit c
        then set_req status_code_3 (record p.req { status = next_digit p.req.status c }) p
        else go bad p
    | status_code_3 ↦
        if is_digit c
        then set_req status_code_space (record p.req { status = next_digit p.req.status c }) p
        else go bad p
    | status_code_space ↦ if c == 32 then go status_text p else go bad p
    | status_text ↦
        if c == 13
        then go expecting_newline_1 p
        else if is_ctl c
        then go bad p
        else set_req status_text (record p.req { status_text = p.req.status_text ++ c ∷ [] }) p
    | expecting_newline_1 ↦ if c == 10 then go header_line_start p else go bad p
    | header_line_start ↦
        if c == 13
        then go expecting_newline_3 p
        else if not (ltb (length p.req.headers) 1) && (c == 32 || c == 9)
        then go header_lws p
        else if no_token c
        then go bad p
        else add_to_name c
            (record p { req = record p.req { headers = p.req.headers ++ new_header ∷ [] } })
    | header_lws ↦
        if c == 13
        then go expecting_newline_2 p
        else if c == 32 || c == 9
        then go header_lws p
        else if is_ctl c
        then go bad p
        else add_to_value c p
    | header_name ↦
        if c == 58
        then go space_before_header_value p
        else if no_token c
        then go bad p
        else add_to_name c p
    | space_before_header_value ↦ if c == 32 then go header_value p else go bad p
    | header_value ↦
        if c == 13 then finish_header p else if is_ctl c then go bad p else add_to_value c p
    | expecting_newline_2 ↦ if c == 10 then go header_line_start p else go bad p
    | expecting_newline_3 ↦ if c == 10 then go good p else go bad p
    | _ ↦ go bad p
  ]

  -- `state_ == good || state_ == bad`, where the loop ends.
  abbrev is_over : State → Bool
  is_over good = true
  is_over bad = true
  is_over _ = false

  -- `parse`: the parser after the input, and what was not read of it.
  pub parse : List ℕ → ResponseParser → Option (ResponseParser × List ℕ)
  unfolding consume
  parse [] p = some (p, [])
  parse (c ∷ cs) p = elim (is_over p.state) [
    | true ↦ some (p, c ∷ cs)
    | false ↦ elim (consume c p) [ none ↦ none | some p' ↦ parse cs p' ]
  ]

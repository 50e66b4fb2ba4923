-- ===== src/Http/RequestParser.antt =====
-- http/RequestParser.cpp: a machine that reads one character at a time. The words of the headers that it
-- looks for are spelled in bytes.
pub mod Safety
pub mod Lines
mod Runs
use cryo_nero.Prelude.{
  ℕ, ◌+◌, ◌-◌, Bool, true, false, not, ◌&&◌, ◌||◌, Option, none, some, List, [], ◌∷◌, ◌++◌, ltb,
  ◌==◌, if◌then◌else◌, length, drop, take, map,
}
use cryo_nero.Http.Types.{
  Header, Request, new_header, is_ctl, is_digit, no_token, tolower, next_digit, change_back,
  pop_back, push_name, push_value, same,
}

pub data State : Type 0 where
  method_start method uri : State
  http_version_h http_version_t_1 http_version_t_2 http_version_p http_version_slash : State
  http_version_major_start http_version_major http_version_minor_start http_version_minor : State
  expecting_newline_1 header_line_start header_lws header_name : State
  space_before_header_value header_value expecting_newline_2 expecting_newline_3 good bad : State

-- The parser and the request that it fills.
pub record RequestParser : Type 0 where
  pub state : State
  pub lowcase : Header
  pub req : Request

-- The constructor, with the given request.
abbrev pub new_parser : Request → RequestParser
new_parser r = record { state = method_start; lowcase = new_header; req = r }

abbrev go : State → RequestParser → Option RequestParser
go state p = some (record p { state = state })

abbrev set_req : State → Request → RequestParser → Option RequestParser
set_req state req p = some (record p { state = state; req = req })

-- `req.headers.back()` gets the character, as does `lowcase`.
abbrev add_to_name : ℕ → RequestParser → Option RequestParser
add_to_name c p = elim (change_back (push_name c) p.req.headers) [
  | none ↦ none
  | some headers ↦ some (record p {
    state = header_name;
    lowcase = push_name (tolower c) p.lowcase;
    req = record p.req { headers = headers };
  })
]

abbrev add_to_value : ℕ → RequestParser → Option RequestParser
add_to_value c p = elim (change_back (push_value c) p.req.headers) [
  | none ↦ none
  | some headers ↦ some (record p {
    state = header_value;
    lowcase = push_value (tolower c) p.lowcase;
    req = record p.req { headers = headers };
  })
]

-- Pops the header and keeps what it said.
abbrev taken : Request → Option (Request × Bool)
taken req = elim (pop_back req.headers) [
  | none ↦ none
  | some headers ↦ some (record req { headers = headers }, true)
]

abbrev pub word_content_length : List ℕ
word_content_length =
    99 ∷ 111 ∷ 110 ∷ 116 ∷ 101 ∷ 110 ∷ 116 ∷ 45 ∷ 108 ∷ 101 ∷ 110 ∷ 103 ∷ 116 ∷ 104 ∷ []

abbrev pub word_connection : List ℕ
word_connection = 99 ∷ 111 ∷ 110 ∷ 110 ∷ 101 ∷ 99 ∷ 116 ∷ 105 ∷ 111 ∷ 110 ∷ []

abbrev pub word_close : List ℕ
word_close = 99 ∷ 108 ∷ 111 ∷ 115 ∷ 101 ∷ []

abbrev pub word_keep_alive : List ℕ
word_keep_alive = 107 ∷ 101 ∷ 101 ∷ 112 ∷ 45 ∷ 97 ∷ 108 ∷ 105 ∷ 118 ∷ 101 ∷ []

abbrev pub word_host : List ℕ
word_host = 104 ∷ 111 ∷ 115 ∷ 116 ∷ []

abbrev pub word_authorization : List ℕ
word_authorization = 97 ∷ 117 ∷ 116 ∷ 104 ∷ 111 ∷ 114 ∷ 105 ∷ 122 ∷ 97 ∷ 116 ∷ 105 ∷ 111 ∷ 110 ∷ []

abbrev pub word_basic : List ℕ
word_basic = 98 ∷ 97 ∷ 115 ∷ 105 ∷ 99 ∷ []

-- `find(prefix) != 0` is false
abbrev starts_with : List ℕ → List ℕ → Bool
starts_with [] cs = true
starts_with (d ∷ ds) [] = false
starts_with (d ∷ ds) (c ∷ cs) = c == d && starts_with ds cs

-- The two loops over spaces and tabs.
abbrev trim_left : List ℕ → List ℕ
trim_left [] = []
trim_left (c ∷ cs) = let rest = trim_left cs in if c == 32 || c == 9 then rest else c ∷ cs

abbrev trim_right : List ℕ → List ℕ
trim_right [] = []
trim_right (c ∷ cs) = elim (trim_right cs) [
  | [] ↦ if c == 32 || c == 9 then [] else c ∷ []
  | d ∷ ds ↦ c ∷ d ∷ ds
]

-- `req.headers.back().value`
abbrev last_value : List Header → Option (List ℕ)
last_value [] = none
last_value (h ∷ []) = some h.value
last_value (h ∷ i ∷ hs) = last_value (i ∷ hs)

-- `boost::lexical_cast<size_t>` is a parameter: `none` when it throws.
module _ (lexical_cast : List ℕ → Option ℕ) where
  -- The request and whether the header is one that the parser can read.
  unfoldable pub process_ready_header : Header → Request → Option (Request × Bool)
  process_ready_header lowcase req =
      if same lowcase.name word_content_length
      then elim (lexical_cast lowcase.value) [
        | none ↦ some (req, false)
        | some number ↦ taken (record req { content_length = number })
      ]
      else if same lowcase.name word_host
      then taken (record req { host = lowcase.value })
      else if same lowcase.name word_connection
      then (if same lowcase.value word_close
          then taken (record req { keep_alive = false })
          else if same lowcase.value word_keep_alive
          then taken (record req { keep_alive = true })
          else some (req, false))
      else if same lowcase.name word_authorization
      then (if starts_with word_basic lowcase.value
          then elim (last_value req.headers) [
            | none ↦ none
            | some value ↦
                taken (record req { basic_authorization = trim_right (trim_left (drop 5 value)) })
          ]
          else some (req, true))
      else some (req, true)

  -- The end of a header's line.
  abbrev finish_header : RequestParser → Option RequestParser
  finish_header p = elim (process_ready_header p.lowcase p.req) [
    | none ↦ none
    | some (req, false) ↦ set_req bad req p
    | some (req, true) ↦
        some (record p { state = expecting_newline_2; lowcase = new_header; req = req })
  ]

  -- One character; `none` is an access to the last of no headers.
  pub consume : ℕ → RequestParser → Option RequestParser
  unfolding no_token is_ctl is_digit
  consume c p = elim p.state [
    | method_start ↦
        if no_token c
        then go bad p
        else set_req method (record p.req { method = p.req.method ++ c ∷ [] }) p
    | method ↦
        if c == 32
        then go uri p
        else if no_token c
        then go bad p
        else set_req method (record p.req { method = p.req.method ++ c ∷ [] }) p
    | uri ↦
        if c == 32
        then go http_version_h p
        else if is_ctl c
        then go bad p
        else set_req uri (record p.req { uri = p.req.uri ++ c ∷ [] }) p
    | http_version_h ↦ if c == 72 then go http_version_t_1 p else go bad p
    | http_version_t_1 ↦ if c == 84 then go http_version_t_2 p else go bad p
    | http_version_t_2 ↦ if c == 84 then go http_version_p p else go bad p
    | http_version_p ↦ if c == 80 then go http_version_slash p else go bad p
    | http_version_slash ↦ if c == 47 then go http_version_major_start p else go bad p
    | http_version_major_start ↦
        if is_digit c
        then set_req http_version_major
            (record p.req { http_version_major = next_digit p.req.http_version_major c }) p
        else go bad p
    | http_version_major ↦
        if c == 46
        then go http_version_minor_start p
        else if is_digit c
        then set_req http_version_major
            (record p.req { http_version_major = next_digit p.req.http_version_major c }) p
        else go bad p
    | http_version_minor_start ↦
        if is_digit c
        then set_req http_version_minor
            (record p.req { http_version_minor = next_digit p.req.http_version_minor c }) p
        else go bad p
    | http_version_minor ↦
        if c == 13
        then set_req expecting_newline_1
            (record p.req {
              keep_alive = p.req.http_version_major == 1 && p.req.http_version_minor == 1;
            })
            p
        else if is_digit c
        then set_req http_version_minor
            (record p.req { http_version_minor = next_digit p.req.http_version_minor c }) p
        else go bad p
    | expecting_newline_1 ↦ if c == 10 then go header_line_start p else go bad p
    | header_line_start ↦
        if c == 13
        then go expecting_newline_3 p
        else if not (ltb (length p.req.headers) 1) && (c == 32 || c == 9)
        then go header_lws p
        else if no_token c
        then go bad p
        else add_to_name c
            (record p { req = record p.req { headers = p.req.headers ++ new_header ∷ [] } })
    | header_lws ↦
        if c == 13
        then go expecting_newline_2 p
        else if c == 32 || c == 9
        then go header_lws p
        else if is_ctl c
        then go bad p
        else add_to_value c p
    | header_name ↦
        if c == 58
        then go space_before_header_value p
        else if no_token c
        then go bad p
        else add_to_name c p
    | space_before_header_value ↦ if c == 32 then go header_value p else go bad p
    | header_value ↦
        if c == 13 then finish_header p else if is_ctl c then go bad p else add_to_value c p
    | expecting_newline_2 ↦ if c == 10 then go header_line_start p else go bad p
    | expecting_newline_3 ↦ if c == 10 then go good p else go bad p
    | _ ↦ go bad p
  ]

  -- `state_ == good || state_ == bad`, where the loop ends.
  abbrev is_over : State → Bool
  is_over good = true
  is_over bad = true
  is_over _ = false

  -- `parse`: the parser after the input, and what was not read of it.
  pub parse : List ℕ → RequestParser → Option (RequestParser × List ℕ)
  unfolding consume
  parse [] p = some (p, [])
  parse (c ∷ cs) p = elim (is_over p.state) [
    | true ↦ some (p, c ∷ cs)
    | false ↦ elim (consume c p) [ none ↦ none | some p' ↦ parse cs p' ]
  ]

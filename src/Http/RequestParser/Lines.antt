-- ===== src/Http/RequestParser/Lines.antt =====
-- http/RequestParser.cpp reads a line `name: value` as the header of that name and value.
use mathlib.Core.List.{append_assoc, append-nil}
use cryo_nero.Prelude.{
  ℕ, ◌≡◌, refl, ◌∙◌, arith, true, false, Option, some, List, [], ◌∷◌, ◌++◌, map, All,
}
use cryo_nero.Http.Types.{
  Header, Request, new_header, is_ctl, no_token, tolower, push_name, push_value,
}
use cryo_nero.Http.Types.Back.{change_back-append}
use cryo_nero.Http.Types.Tokens.{token_apart, value_apart}
use cryo_nero.Http.RequestParser.{
  State, header_line_start, header_name, space_before_header_value, header_value,
  expecting_newline_2, RequestParser, process_ready_header, consume, parse, is_over,
}

-- The request with one more header.
abbrev pub with_header : Request → Header → Request
with_header r h = record r { headers = r.headers ++ h ∷ [] }

abbrev pub at : State → Header → Request → RequestParser
at s l r = record { state = s; lowcase = l; req = r }

abbrev pub Tokens : List ℕ → Type 0
Tokens cs = All (λ c. no_token c ≡ false) cs

abbrev pub Visible : List ℕ → Type 0
Visible cs = All (λ c. is_ctl c ≡ false) cs

abbrev header_of : List ℕ → List ℕ → Header
header_of n v = record { name = n; value = v }

module _ (lexical_cast : List ℕ → Option ℕ) where
  parse-step :
      (c : ℕ) (cs : List ℕ) (p p' : RequestParser)
      → is_over lexical_cast p.state ≡ false
      → consume lexical_cast c p ≡ some p'
      → parse lexical_cast (c ∷ cs) p ≡ parse lexical_cast cs p'
  unfolding parse
  parse-step c cs p p' e f = ground (arith, e, f)

  start_name :
      (c : ℕ) (r : Request)
      → no_token c ≡ false
      → consume lexical_cast c (at header_line_start new_header r)
        ≡ some
            (at header_name (header_of (tolower c ∷ []) []) (with_header r (header_of (c ∷ []) [])))
  unfolding consume
  start_name c r e =
      ground (arith, e, token_apart c e, change_back-append (push_name c) r.headers new_header)

  more_name :
      (c : ℕ) (r : Request) (l : Header) (n v : List ℕ)
      → no_token c ≡ false
      → consume lexical_cast c (at header_name l (with_header r (header_of n v)))
        ≡ some
            (at header_name (push_name (tolower c) l) (with_header r (header_of (n ++ c ∷ []) v)))
  unfolding consume
  more_name c r l n v e =
      ground (arith, e, token_apart c e, change_back-append (push_name c) r.headers (header_of n v))

  more_value :
      (c : ℕ) (r : Request) (l : Header) (n v : List ℕ)
      → is_ctl c ≡ false
      → consume lexical_cast c (at header_value l (with_header r (header_of n v)))
        ≡ some
            (at header_value (push_value (tolower c) l) (with_header r (header_of n (v ++ c ∷ []))))
  unfolding consume
  more_value c r l n v e =
      ground
        (arith, e, value_apart c e, change_back-append (push_value c) r.headers (header_of n v))

  name_loop :
      (ns rest : List ℕ) (r : Request) (l n v : List ℕ)
      → Tokens ns
      → parse lexical_cast
          (ns ++ rest)
          (at header_name (header_of l []) (with_header r (header_of n v)))
        ≡ parse lexical_cast rest (
            at header_name
              (header_of (l ++ map tolower ns) [])
              (with_header r (header_of (n ++ ns) v)))
  name_loop [] rest r l n v h = ground (arith, append-nil l, append-nil n)
  name_loop (c ∷ ns) rest r l n v (e, h) =
      parse-step c (ns ++ rest) _ _ refl (more_name c r (header_of l []) n v e)
      ∙ name_loop ns rest r (l ++ tolower c ∷ []) (n ++ c ∷ []) v h
      ∙ ground (arith, append_assoc l (tolower c ∷ []) (map tolower ns), append_assoc n (c ∷ []) ns)

  value_loop :
      (vs rest : List ℕ) (r : Request) (k l n v : List ℕ)
      → Visible vs
      → parse lexical_cast
          (vs ++ rest)
          (at header_value (header_of k l) (with_header r (header_of n v)))
        ≡ parse lexical_cast rest (
            at header_value
              (header_of k (l ++ map tolower vs))
              (with_header r (header_of n (v ++ vs))))
  value_loop [] rest r k l n v h = ground (arith, append-nil l, append-nil v)
  value_loop (c ∷ vs) rest r k l n v (e, h) =
      parse-step c (vs ++ rest) _ _ refl (more_value c r (header_of k l) n v e)
      ∙ value_loop vs rest r k (l ++ tolower c ∷ []) n (v ++ c ∷ []) h
      ∙ ground (arith, append_assoc l (tolower c ∷ []) (map tolower vs), append_assoc v (c ∷ []) vs)

  line_end :
      (rest : List ℕ) (l : Header) (r q : Request)
      → process_ready_header lexical_cast l r ≡ some (q, true)
      → parse lexical_cast (13 ∷ 10 ∷ rest) (at header_value l r)
        ≡ parse lexical_cast rest (at header_line_start new_header q)
  unfolding consume
  line_end rest l r q e =
      parse-step 13 (10 ∷ rest) (at header_value l r) (at expecting_newline_2 new_header q) refl
        (ground (arith, e))
      ∙ parse-step 10 rest (at expecting_newline_2 new_header q) (at header_line_start new_header q)
          refl refl

  -- At the start of a line, a name of token characters, a colon, a space, a value without control
  -- characters and CR LF are read as one header. The parser is then at the start of the next line,
  -- with what `process_ready_header` makes of that header, given in lower case; it must accept it.
  pub parse-header_line :
      (c : ℕ) (ns vs rest : List ℕ) (r q : Request)
      → Tokens (c ∷ ns)
      → Visible vs
      → process_ready_header lexical_cast
          (header_of (map tolower (c ∷ ns)) (map tolower vs))
          (with_header r (header_of (c ∷ ns) vs))
        ≡ some (q, true)
      → parse lexical_cast
          ((c ∷ ns) ++ (58 ∷ 32 ∷ (vs ++ 13 ∷ 10 ∷ rest)))
          (at header_line_start new_header r)
        ≡ parse lexical_cast rest (at header_line_start new_header q)
  unfolding consume
  parse-header_line c ns vs rest r q (e, tokens) visible ready =
      parse-step c (ns ++ (58 ∷ 32 ∷ (vs ++ 13 ∷ 10 ∷ rest))) _ _ refl (start_name c r e)
      ∙ name_loop ns (58 ∷ 32 ∷ (vs ++ 13 ∷ 10 ∷ rest)) r (tolower c ∷ []) (c ∷ []) [] tokens
      ∙ parse-step 58 (32 ∷ (vs ++ 13 ∷ 10 ∷ rest))
          (at header_name (header_of (tolower c ∷ map tolower ns) [])
            (with_header r (header_of (c ∷ ns) [])))
          (at space_before_header_value (header_of (tolower c ∷ map tolower ns) [])
            (with_header r (header_of (c ∷ ns) [])))
          refl refl
      ∙ parse-step 32 (vs ++ 13 ∷ 10 ∷ rest)
          (at space_before_header_value (header_of (tolower c ∷ map tolower ns) [])
            (with_header r (header_of (c ∷ ns) [])))
          (at header_value (header_of (tolower c ∷ map tolower ns) [])
            (with_header r (header_of (c ∷ ns) [])))
          refl refl
      ∙ value_loop vs (13 ∷ 10 ∷ rest) r (map tolower (c ∷ ns)) [] (c ∷ ns) [] visible
      ∙ line_end rest _ (with_header r (header_of (c ∷ ns) vs)) q ready

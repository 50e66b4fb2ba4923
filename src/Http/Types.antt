-- ===== src/Http/Types.antt =====
-- http/types.hpp and the character tests of http/types.cpp. A `char` is the number of its byte; a
-- byte from 128 on is negative in the source, and passes none of the tests.
pub mod Back
pub mod Tokens
use cryo_nero.Prelude.{
  ℕ, ◌+◌, ◌-◌, ◌*◌, ◌%◌, ◌^◌, Bool, not, true, false, ◌&&◌, ◌||◌, Option, none, some, List, [], ◌∷◌,
  ◌++◌, ltb, leb, ◌==◌, if◌then◌else◌,
}

pub record Header : Type 0 where
  pub name : List ℕ
  pub value : List ℕ

pub record Request : Type 0 where
  pub method : List ℕ
  pub uri : List ℕ
  pub http_version_major : ℕ
  pub http_version_minor : ℕ
  pub headers : List Header
  pub basic_authorization : List ℕ
  pub host : List ℕ
  pub keep_alive : Bool
  pub content_length : ℕ

-- `size_t(-1)` is "no content length".
abbrev pub new_request : Request
new_request = record {
  method = [];
  uri = [];
  http_version_major = 0;
  http_version_minor = 0;
  headers = [];
  basic_authorization = [];
  host = [];
  keep_alive = true;
  content_length = 2 ^ 64 - 1;
}

pub record Response : Type 0 where
  pub http_version_major : ℕ
  pub http_version_minor : ℕ
  pub status : ℕ
  pub status_text : List ℕ
  pub headers : List Header
  pub keep_alive : Bool
  pub content_length : ℕ

abbrev pub new_response : Response
new_response = record {
  http_version_major = 0;
  http_version_minor = 0;
  status = 0;
  status_text = [];
  headers = [];
  keep_alive = true;
  content_length = 2 ^ 64 - 1;
}

unfoldable pub is_char : ℕ → Bool
is_char c = leb c 127

unfoldable pub is_ctl : ℕ → Bool
is_ctl c = leb c 31 || c == 127

abbrev member : ℕ → List ℕ → Bool
member c [] = false
member c (d ∷ ds) = c == d || member c ds

-- `( ) < > @ , ; : \ " / [ ] ? = { }`, space and tab
abbrev tspecials : List ℕ
tspecials =
    40 ∷ 41 ∷ 60 ∷ 62 ∷ 64 ∷ 44 ∷ 59 ∷ 58 ∷ 92 ∷ 34 ∷ 47 ∷ 91 ∷ 93 ∷ 63 ∷ 61 ∷ 123 ∷ 125 ∷ 32 ∷ 9
    ∷ []

unfoldable pub is_tspecial : ℕ → Bool
is_tspecial c = member c tspecials

unfoldable pub is_digit : ℕ → Bool
is_digit c = leb 48 c && leb c 57

-- `std::tolower` in the "C" locale.
abbrev pub tolower : ℕ → ℕ
tolower c = if leb 65 c && leb c 90 then c + 32 else c

-- `!is_char(input) || is_ctl(input) || is_tspecial(input)`
unfoldable pub no_token : ℕ → Bool
unfolding is_char is_ctl is_tspecial
no_token c = not (is_char c) || (is_ctl c || is_tspecial c)

-- `number * 10 + input - '0'` in an `int`, whose word wraps around.
abbrev pub next_digit : ℕ → ℕ → ℕ
next_digit number c = (number * 10 + c - 48) % 2 ^ 32

-- `back()` changed by an operation, and `pop_back()`: undefined on the empty vector, `none`.
abbrev pub change_back : (Header → Header) → List Header → Option (List Header)
change_back f [] = none
change_back f (h ∷ []) = some (f h ∷ [])
change_back f (h ∷ i ∷ hs) = elim (change_back f (i ∷ hs)) [
  | none ↦ none
  | some changed ↦ some (h ∷ changed)
]

abbrev pub pop_back : List Header → Option (List Header)
pop_back [] = none
pop_back (h ∷ []) = some []
pop_back (h ∷ i ∷ hs) = elim (pop_back (i ∷ hs)) [ none ↦ none | some front ↦ some (h ∷ front) ]

abbrev pub push_name : ℕ → Header → Header
push_name c h = record h { name = h.name ++ c ∷ [] }

abbrev pub push_value : ℕ → Header → Header
push_value c h = record h { value = h.value ++ c ∷ [] }

abbrev pub new_header : Header
new_header = record { name = []; value = [] }

-- `==` on strings
abbrev pub same : List ℕ → List ℕ → Bool
same [] [] = true
same [] (d ∷ ds) = false
same (c ∷ cs) [] = false
same (c ∷ cs) (d ∷ ds) = c == d && same cs ds

-- ===== src/Http/ResponseParser/Safety.antt =====
-- http/ResponseParser.cpp never asks for the last of no headers.
use cryo_nero.Prelude.{
  ℕ, ◌<◌, ◌≡◌, refl, arith, Bool, true, false, not, ◌&&◌, ◌||◌, Option, none, some, List, [], ◌∷◌,
  ◌++◌, ltb, ◌==◌, if◌then◌else◌, length, length-append, Bool-cases, inl, inr,
}
use cryo_nero.Http.Types.{
  Header, Response, new_header, is_ctl, is_digit, no_token, tolower, push_name, push_value, same,
}
use cryo_nero.Http.Types.Back.{change_back-some, pop_back-some}
use cryo_nero.Http.ResponseParser.{
  State, http_version_h, http_version_t_1, http_version_t_2, http_version_p, http_version_slash,
  http_version_major_start, http_version_major, http_version_minor_start, http_version_minor,
  status_code_1, status_code_2, status_code_3, status_code_space, status_text, expecting_newline_1,
  header_line_start, header_lws, header_name, space_before_header_value, header_value,
  expecting_newline_2, expecting_newline_3, good, bad, ResponseParser, add_to_name, add_to_value,
  taken, finish_header, word_content_length, word_connection, word_close, word_keep_alive,
  process_ready_header, consume, parse, is_over,
}

-- The states in which characters go to the last header.
abbrev pub needs_header : State → Bool
needs_header header_lws = true
needs_header header_name = true
needs_header space_before_header_value = true
needs_header header_value = true
needs_header _ = false

abbrev pub IsSafe : ResponseParser → Type 0
IsSafe p = needs_header p.state ≡ true → 0 < length p.req.headers

-- Defined, with a parser that is safe.
abbrev Safely : Option ResponseParser → Type 0
Safely m = (p : ResponseParser) × (m ≡ some p) × IsSafe p

free :
    (s : State) (l : Header) (r : Response)
    → needs_header s ≡ false
    → IsSafe (record { state = s; lowcase = l; req = r })
free s l r e = λ t. absurd cc

safe_if :
    (b : Bool) (x y : Option ResponseParser)
    → (b ≡ true → Safely x)
    → (b ≡ false → Safely y)
    → Safely (if b then x else y)
safe_if true x y hx hy = hx refl
safe_if false x y hx hy = hy refl

add_to_name_safe :
    (c : ℕ) (p : ResponseParser) → 0 < length p.req.headers → Safely (add_to_name c p)
add_to_name_safe c p h =
    let (changed, e, l) = change_back-some (push_name c) p.req.headers h in
    (
      record p {
        state = header_name;
        lowcase = push_name (tolower c) p.lowcase;
        req = record p.req { headers = changed };
      },
      ground (arith, e),
      λ t. omega (arith, l),
    )

add_to_value_safe :
    (c : ℕ) (p : ResponseParser) → 0 < length p.req.headers → Safely (add_to_value c p)
add_to_value_safe c p h =
    let (changed, e, l) = change_back-some (push_value c) p.req.headers h in
    (
      record p {
        state = header_value;
        lowcase = push_value (tolower c) p.lowcase;
        req = record p.req { headers = changed };
      },
      ground (arith, e),
      λ t. omega (arith, l),
    )

module _ (lexical_cast : List ℕ → Option ℕ) where
  taken_defined :
      (r : Response) → 0 < length r.headers → (result : Response × Bool) × (taken r ≡ some result)
  taken_defined r h =
      let (front, f) = pop_back-some r.headers h in
      ((record r { headers = front }, true), ground (arith, f))

  ready_if :
      (b : Bool) (x y : Option (Response × Bool))
      → ((result : Response × Bool) × (x ≡ some result))
      → ((result : Response × Bool) × (y ≡ some result))
      → (result : Response × Bool) × ((if b then x else y) ≡ some result)
  ready_if true x y hx hy = hx
  ready_if false x y hx hy = hy

  by_number :
      (r : Response) (o : Option ℕ)
      → 0 < length r.headers
      → (result : Response × Bool) × ((elim o [
        | none ↦ some (r, false)
        | some number ↦ taken (record r { content_length = number })
      ])
          ≡ some result)
  by_number r none h = (_, refl)
  by_number r (some number) h = taken_defined _ h

  process_ready_header-some :
      (low : Header) (r : Response)
      → 0 < length r.headers
      → (result : Response × Bool) × (process_ready_header lexical_cast low r ≡ some result)
  unfolding process_ready_header
  process_ready_header-some low r h =
      ready_if (same low.name word_content_length) _ _ (by_number r (lexical_cast low.value) h) (
        ready_if (same low.name word_connection) _ _
          (ready_if (same low.value word_close) _ _
            (taken_defined (record r { keep_alive = false }) h)
            (ready_if (same low.value word_keep_alive) _ _
              (taken_defined (record r { keep_alive = true }) h) ((r, false), refl)))
          ((r, true), refl))

  finish_safe :
      (l : Header) (r : Response)
      → 0 < length r.headers
      → Safely (finish_header lexical_cast (record { state = header_value; lowcase = l; req = r }))
  finish_safe l r h =
      let ((q, readable), e) = process_ready_header-some l r h in by_readable q readable e
    where
      by_readable :
          (q : Response) (readable : Bool)
          → process_ready_header lexical_cast l r ≡ some (q, readable)
          → Safely
              (finish_header lexical_cast (record { state = header_value; lowcase = l; req = r }))
      by_readable q true e = (
        record { state = expecting_newline_2; lowcase = new_header; req = q },
        ground (arith, e),
        free expecting_newline_2 new_header q refl,
      )
      by_readable q false e =
          (record { state = bad; lowcase = l; req = q }, ground (arith, e), free bad l q refl)

  continued :
      (r : Response) (c : ℕ)
      → (not (ltb (length r.headers) 1) && (c == 32 || c == 9)) ≡ true
      → 0 < length r.headers
  continued r c e = ground arith

  -- One character leaves a safe parser safe.
  consume-safe :
      (c : ℕ) (s : State) (l : Header) (r : Response)
      → IsSafe (record { state = s; lowcase = l; req = r })
      → Safely (consume lexical_cast c (record { state = s; lowcase = l; req = r }))
  unfolding consume
  consume-safe c http_version_h l r h =
      safe_if (c == 72) _ _ (λ e. (_, refl, λ t. absurd cc)) (λ e. (_, refl, λ t. absurd cc))
  consume-safe c http_version_t_1 l r h =
      safe_if (c == 84) _ _ (λ e. (_, refl, λ t. absurd cc)) (λ e. (_, refl, λ t. absurd cc))
  consume-safe c http_version_t_2 l r h =
      safe_if (c == 84) _ _ (λ e. (_, refl, λ t. absurd cc)) (λ e. (_, refl, λ t. absurd cc))
  consume-safe c http_version_p l r h =
      safe_if (c == 80) _ _ (λ e. (_, refl, λ t. absurd cc)) (λ e. (_, refl, λ t. absurd cc))
  consume-safe c http_version_slash l r h =
      safe_if (c == 47) _ _ (λ e. (_, refl, λ t. absurd cc)) (λ e. (_, refl, λ t. absurd cc))
  consume-safe c expecting_newline_1 l r h =
      safe_if (c == 10) _ _ (λ e. (_, refl, λ t. absurd cc)) (λ e. (_, refl, λ t. absurd cc))
  consume-safe c expecting_newline_2 l r h =
      safe_if (c == 10) _ _ (λ e. (_, refl, λ t. absurd cc)) (λ e. (_, refl, λ t. absurd cc))
  consume-safe c expecting_newline_3 l r h =
      safe_if (c == 10) _ _ (λ e. (_, refl, λ t. absurd cc)) (λ e. (_, refl, λ t. absurd cc))
  consume-safe c status_code_space l r h =
      safe_if (c == 32) _ _ (λ e. (_, refl, λ t. absurd cc)) (λ e. (_, refl, λ t. absurd cc))
  consume-safe c http_version_major_start l r h =
      safe_if (is_digit c) _ _ (λ e. (_, refl, λ t. absurd cc)) (λ e. (_, refl, λ t. absurd cc))
  consume-safe c http_version_major l r h =
      safe_if (c == 46) _ _ (λ e. (_, refl, λ t. absurd cc))
        (λ e.
          safe_if (is_digit c) _ _ (λ e. (_, refl, λ t. absurd cc))
            (λ e. (_, refl, λ t. absurd cc)))
  consume-safe c http_version_minor_start l r h =
      safe_if (is_digit c) _ _ (λ e. (_, refl, λ t. absurd cc)) (λ e. (_, refl, λ t. absurd cc))
  consume-safe c http_version_minor l r h =
      safe_if (c == 32) _ _ (λ e. (_, refl, λ t. absurd cc))
        (λ e.
          safe_if (is_digit c) _ _ (λ e. (_, refl, λ t. absurd cc))
            (λ e. (_, refl, λ t. absurd cc)))
  consume-safe c status_code_1 l r h =
      safe_if (is_digit c) _ _ (λ e. (_, refl, λ t. absurd cc)) (λ e. (_, refl, λ t. absurd cc))
  consume-safe c status_code_2 l r h =
      safe_if (is_digit c) _ _ (λ e. (_, refl, λ t. absurd cc)) (λ e. (_, refl, λ t. absurd cc))
  consume-safe c status_code_3 l r h =
      safe_if (is_digit c) _ _ (λ e. (_, refl, λ t. absurd cc)) (λ e. (_, refl, λ t. absurd cc))
  consume-safe c status_text l r h =
      safe_if (c == 13) _ _ (λ e. (_, refl, λ t. absurd cc))
        (λ e.
          safe_if (is_ctl c) _ _ (λ e. (_, refl, λ t. absurd cc)) (λ e. (_, refl, λ t. absurd cc)))
  consume-safe c header_line_start l r h =
      safe_if (c == 13) _ _ (λ e. (_, refl, λ t. absurd cc))
        (λ e.
          safe_if (not (ltb (length r.headers) 1) && (c == 32 || c == 9)) _ _
            (λ f. (_, refl, λ t. continued r c f))
            (λ f.
              safe_if (no_token c) _ _ (λ e. (_, refl, λ t. absurd cc))
                (λ g.
                  add_to_name_safe c
                    (record {
                      state = header_line_start;
                      lowcase = l;
                      req = record r { headers = r.headers ++ new_header ∷ [] };
                    })
                    (omega (arith, length-append r.headers (new_header ∷ []))))))
  consume-safe c header_lws l r h =
      safe_if (c == 13) _ _ (λ e. (_, refl, λ t. absurd cc))
        (λ e.
          safe_if (c == 32 || c == 9) _ _ (λ f. (_, refl, h))
            (λ f.
              safe_if (is_ctl c) _ _ (λ e. (_, refl, λ t. absurd cc))
                (λ g.
                  add_to_value_safe c (record { state = header_lws; lowcase = l; req = r })
                    (h refl))))
  consume-safe c header_name l r h =
      safe_if (c == 58) _ _ (λ e. (_, refl, λ t. h refl))
        (λ e.
          safe_if (no_token c) _ _ (λ e. (_, refl, λ t. absurd cc))
            (λ g.
              add_to_name_safe c (record { state = header_name; lowcase = l; req = r }) (h refl)))
  consume-safe c space_before_header_value l r h =
      safe_if (c == 32) _ _ (λ e. (_, refl, λ t. h refl)) (λ e. (_, refl, λ t. absurd cc))
  consume-safe c header_value l r h =
      safe_if (c == 13) _ _ (λ e. finish_safe l r (h refl))
        (λ e.
          safe_if (is_ctl c) _ _ (λ e. (_, refl, λ t. absurd cc))
            (λ g.
              add_to_value_safe c (record { state = header_value; lowcase = l; req = r }) (h refl)))
  consume-safe c good l r h = (_, refl, λ t. absurd cc)
  consume-safe c bad l r h = (_, refl, λ t. absurd cc)

  -- Parsing is defined from every safe parser on, whatever the input: `back()` and `pop_back()` are
  -- never called on no headers. The parser is safe again at the end, so that `parse` can go on with
  -- the next piece of input.
  pub ResponseParser-IsSafe :
      (input : List ℕ) (p : ResponseParser)
      → IsSafe p
      → (p' : ResponseParser) × (rest : List ℕ) × (parse lexical_cast input p ≡ some (p', rest))
        × IsSafe p'
  unfolding parse
  ResponseParser-IsSafe [] p h = (p, [], refl, h)
  ResponseParser-IsSafe (c ∷ cs) p h = elim (Bool-cases (is_over lexical_cast p.state)) [
    | inl e ↦ (p, c ∷ cs, ground (arith, e), h)
    | inr e ↦
        let (q, read, safe) = consume-safe c p.state p.lowcase p.req h in
        let (p', rest, f, safe') = ResponseParser-IsSafe cs q safe in
        (p', rest, ground (arith, e, read, f), safe')
  ]

-- ===== src/Http/Types/Tokens.antt =====
-- What the character tests of http/types.cpp say of the characters that end a header's parts.
use cryo_nero.Prelude.{ℕ, ◌≡◌, arith, false, ◌==◌}
use cryo_nero.Http.Types.{is_char, is_ctl, is_tspecial, no_token}

-- A token character is none of CR, space, tab and colon.
pub token_apart :
    (c : ℕ)
    → no_token c ≡ false
    → ((c == 13) ≡ false) × ((c == 32) ≡ false) × ((c == 9) ≡ false) × ((c == 58) ≡ false)
unfolding no_token is_char is_ctl is_tspecial
token_apart c e = ground arith

pub value_apart : (c : ℕ) → is_ctl c ≡ false → (c == 13) ≡ false
unfolding is_ctl
value_apart c e = ground arith

-- ===== src/Http/Types/Back.antt =====
-- `back()` and `pop_back()` are defined on a vector that is not empty.
use cryo_nero.Prelude.{◌<◌, ◌≡◌, refl, arith, some, List, [], ◌∷◌, ◌++◌, length}
use cryo_nero.Http.Types.{Header, change_back, pop_back}

pub change_back-some :
    (f : Header → Header) (hs : List Header)
    → 0 < length hs
    → (changed : List Header) × (change_back f hs ≡ some changed) × (length changed ≡ length hs)
change_back-some f [] pos = absurd (omega arith)
change_back-some f (h ∷ []) pos = (f h ∷ [], refl, refl)
change_back-some f (h ∷ i ∷ hs) pos =
    let (changed, e, l) = change_back-some f (i ∷ hs) (omega arith) in
    (h ∷ changed, ground (arith, e), ground (arith, l))

pub pop_back-some :
    (hs : List Header) → 0 < length hs → (front : List Header) × (pop_back hs ≡ some front)
pop_back-some [] pos = absurd (omega arith)
pop_back-some (h ∷ []) pos = ([], refl)
pop_back-some (h ∷ i ∷ hs) pos =
    let (front, e) = pop_back-some (i ∷ hs) (omega arith) in (h ∷ front, ground (arith, e))

pub change_back-append :
    (f : Header → Header) (hs : List Header) (h : Header)
    → change_back f (hs ++ h ∷ []) ≡ some (hs ++ f h ∷ [])
change_back-append f [] h = refl
change_back-append f (g ∷ []) h = refl
change_back-append f (g ∷ i ∷ hs) h = ground (arith, change_back-append f (i ∷ hs) h)

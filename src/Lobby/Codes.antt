-- ===== src/Lobby/Codes.antt =====
-- The room code that P1 is shown is the one that P2 can type.
use fury_clash.Prelude.{
  ℕ, zero, suc, ◌+◌, ◌≤◌, ◌<◌, ◌≡◌, refl, sym, ap, ◌∙◌, lt→ltb, leb, ◌==◌, ◌&&◌, ◌||◌, not, Bool,
  true, false, List, [], ◌∷◌, ◌++◌, length, length-append, get_elem?, map, Option, some,
  if◌then◌else◌, arith,
}
use mathlib.Core.Bool.{true≢false}
use mathlib.Core.List.{append_assoc, append-nil}
use fury_clash.Network.Os.{Os}
use fury_clash.Lobby.{
  Lobby, ls_enter_code, to_upper, lobby_field_append, upper_text, lobby_handle_text_input,
}
use fury_clash.Lobby.Create.{Dice, alphabet, code_chars, gen_room_code}

-- What the manual of `SDL_rand` says: a number below the bound.
abbrev pub IsDice : (os : Os) → Dice os → Type 0
IsDice os dice = (n : ℕ) (w : os.World) → 0 < n → (dice.rand n w).0 < n

-- A capital letter or a digit that is not taken for another one: no I, no O, no 0, no 1.
abbrev pub is_clear : ℕ → Bool
is_clear c =
    (leb b'A' c && leb c b'Z' && not (c == b'I') && not (c == b'O')) || (leb b'2' c && leb c b'9')

abbrev pub all : (ℕ → Bool) → List ℕ → Bool
all p [] = true
all p (x ∷ xs) = p x && all p xs

both : (a b : Bool) → (a && b) ≡ true → (a ≡ true) × (b ≡ true)
both true b h = (refl, h)
both false b h = absurd (true≢false (sym h))

element :
    (p : ℕ → Bool) (l : List ℕ) (i : ℕ)
    → all p l ≡ true
    → i < length l
    → (c : ℕ) × (get_elem? l i ≡ some c) × (p c ≡ true)
element p [] i h lt = absurd (omega arith)
element p (x ∷ xs) zero h lt = (x, refl, (both (p x) (all p xs) h).0)
element p (x ∷ xs) (suc i) h lt = element p xs i (both (p x) (all p xs) h).1 (omega arith)

letter : (i : ℕ) → i < 32 → (c : ℕ) × (get_elem? alphabet i ≡ some c) × (is_clear c ≡ true)
letter i h = element is_clear alphabet i refl h

module _ (os : Os) (dice : Dice os) where
  open os use {World}

  -- `n` characters that nobody mistakes
  abbrev IsCode : ℕ → Option (List ℕ × World) → Type 0
  IsCode n o = (r : List ℕ × World) × (o ≡ some r) × (length r.0 ≡ n) × (all is_clear r.0 ≡ true)

  code_chars-IsCode : IsDice os dice → (n : ℕ) (w : World) → IsCode n (code_chars os dice n w)
  unfolding code_chars
  code_chars-IsCode fair zero w = (([], w), refl, refl, refl)
  code_chars-IsCode fair (suc n) w =
      let (c, e, ok) = letter (dice.rand 32 w).0 (fair 32 w (omega arith)) in
      let (r, e', len, oks) = code_chars-IsCode fair n (dice.rand 32 w).1 in
      ((c ∷ r.0, r.1), rw (e, e') refl, ap suc len, rw (ok, oks) refl)

  -- With an `SDL_rand` that keeps below its bound, `gen_room_code` gives a code of six characters,
  -- each a capital letter or a digit and none of I, O, 0 and 1.
  pub gen_room_code-clear :
      IsDice os dice
      → (w : World)
      → (r : List ℕ × World) × (gen_room_code os dice w ≡ some r)
        × (length r.0 ≡ 6)
        × (all is_clear r.0 ≡ true)
  unfolding gen_room_code
  gen_room_code-clear fair w = code_chars-IsCode fair 6 w

-- one text event for each character
abbrev pub type_text : List ℕ → Lobby → Lobby
type_text [] l = l
type_text (c ∷ s) l = type_text s (lobby_handle_text_input (c ∷ []) l)

one_typed :
    (c : ℕ) (l : Lobby)
    → l.sub ≡ ls_enter_code
    → length l.code_input < 6
    → lobby_handle_text_input (c ∷ []) l
      ≡ record l { code_input = l.code_input ++ (to_upper c ∷ []) }
unfolding lobby_handle_text_input upper_text lobby_field_append
one_typed c l on few =
    rw (on, lt→ltb (length l.code_input) 6 few, lt→ltb (length l.code_input + 1) 7 (omega arith))
      refl

typed-append :
    (s : List ℕ) (l : Lobby)
    → l.sub ≡ ls_enter_code
    → length l.code_input + length s ≤ 6
    → (type_text s l).code_input ≡ l.code_input ++ map to_upper s
typed-append [] l on fits = sym (append-nil l.code_input)
typed-append (c ∷ s) l on fits =
    let step = one_typed c l on (omega arith) in
    let l' : Lobby = record l { code_input = l.code_input ++ (to_upper c ∷ []) } in
    ap (λ m. (type_text s m).code_input) step
    ∙ typed-append s l' on (omega (arith, length-append l.code_input (to_upper c ∷ [])))
    ∙ append_assoc l.code_input (to_upper c ∷ []) (map to_upper s)

-- a capital letter or a digit
abbrev is_key : ℕ → Bool
is_key c = (leb 65 c && leb c 90) || (leb 48 c && leb c 57)

-- the character that a user types for one of a code, in lower case or not
abbrev pub key_typed : Bool → ℕ → ℕ
key_typed lower c = if lower && leb 65 c && leb c 90 then c + 32 else c

-- characters of a code, each with whether it is typed in lower case
abbrev pub spelt : List (Bool × ℕ) → List ℕ
spelt [] = []
spelt ((lower, c) ∷ keys) = c ∷ spelt keys

abbrev pub typed : List (Bool × ℕ) → List ℕ
typed [] = []
typed ((lower, c) ∷ keys) = key_typed lower c ∷ typed keys

upper_typed : (lower : Bool) (c : ℕ) → is_key c ≡ true → to_upper (key_typed lower c) ≡ c
upper_typed lower c h = ground arith

upper_all :
    (keys : List (Bool × ℕ))
    → all is_key (spelt keys) ≡ true
    → map to_upper (typed keys) ≡ spelt keys
upper_all [] h = refl
upper_all ((lower, c) ∷ keys) h =
    let (k, ks) = both (is_key c) (all is_key (spelt keys)) h in
    rw (upper_typed lower c k, upper_all keys ks) refl

length-typed : (keys : List (Bool × ℕ)) → length (typed keys) ≡ length keys
length-typed [] = refl
length-typed ((lower, c) ∷ keys) = ap suc (length-typed keys)

-- On the screen for the code, with nothing typed yet, the six characters of a code of capital
-- letters (65 to 90) and digits (48 to 57), typed one by one, each letter as it is or in lower case
-- (32 more), leave exactly the code in the field.
pub type_text-code :
    (keys : List (Bool × ℕ)) (l : Lobby)
    → length keys ≡ 6
    → all is_key (spelt keys) ≡ true
    → l.sub ≡ ls_enter_code
    → l.code_input ≡ []
    → (type_text (typed keys) l).code_input ≡ spelt keys
type_text-code keys l six clear on nothing =
    typed-append (typed keys) l on (rw (nothing, length-typed keys) (omega arith))
    ∙ ap (λ t. t ++ map to_upper (typed keys)) nothing
    ∙ upper_all keys clear

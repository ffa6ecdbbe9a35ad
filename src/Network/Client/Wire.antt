-- ===== src/Network/Client/Wire.antt =====
-- What `net_client_send_input` writes is what the loop over an input batch reads.
use fury_clash.Prelude.{
  ℕ, suc, ◌+◌, ◌*◌, ◌/◌, ◌%◌, ◌^◌, ◌≤◌, ◌<◌, ◌≡◌, refl, sym, ap, ◌∙◌, bit_or, ℤ, pos, negsuc,
  pos_part, neg_part, List, [], ◌∷◌, ◌++◌, length, length-append, drop, get_elem?-append_right,
  some, arith, All,
}
use mathlib.Core.List.{append_assoc}
use fury_clash.Prelude.Bits.{bit_or_low}
use fury_clash.Network.Frame.{to_int}
use fury_clash.Network.Client.{input_message, bits32}
use fury_clash.Network.Client.Dispatch.{batch_entry, batch_entries}

-- The last six bytes of a CLIENT_INPUT: the frame and the input, as the relay passes them on.
abbrev pub relayed : ℤ × ℕ → List ℕ
relayed e = drop 3 (input_message e.0 e.1)

abbrev pub IsInt : ℤ → Type 0
IsInt v = (pos_part v < 2 ^ 31) × (neg_part v ≤ 2 ^ 31)

to_int-bits32 : (v : ℤ) → IsInt v → to_int (bits32 v) ≡ v
to_int-bits32 (pos n) h = ground arith
to_int-bits32 (negsuc n) h = ground arith

-- The bytes of a number, least first, put together as the code does.
le_16 : (i : ℕ) → i < 2 ^ 16 → bit_or (i % 256) (i / 2 ^ 8 % 256 * 2 ^ 8) ≡ i
le_16 i h = omega (arith, bit_or_low 8 (i / 2 ^ 8 % 256) (i % 256) (omega arith))

le_32 :
    (f : ℕ)
    → f < 2 ^ 32
    → bit_or
        (bit_or (bit_or (f % 256) (f / 2 ^ 8 % 256 * 2 ^ 8)) (f / 2 ^ 16 % 256 * 2 ^ 16))
        (f / 2 ^ 24 % 256 * 2 ^ 24)
      ≡ f
le_32 f h =
    let two : bit_or (f % 256) (f / 2 ^ 8 % 256 * 2 ^ 8) ≡ f % 2 ^ 16 =
      omega (arith, bit_or_low 8 (f / 2 ^ 8 % 256) (f % 256) (omega arith)) in
    let three : bit_or (f % 2 ^ 16) (f / 2 ^ 16 % 256 * 2 ^ 16) ≡ f % 2 ^ 24 =
      omega (arith, bit_or_low 16 (f / 2 ^ 16 % 256) (f % 2 ^ 16) (omega arith)) in
    let all : bit_or (f % 2 ^ 24) (f / 2 ^ 24 % 256 * 2 ^ 24) ≡ f =
      omega (arith, bit_or_low 24 (f / 2 ^ 24 % 256) (f % 2 ^ 24) (omega arith)) in
    rw (two, three) all

bits32_fits : (v : ℤ) → bits32 v < 2 ^ 32
bits32_fits (pos n) = omega arith
bits32_fits (negsuc n) = omega arith

-- An entry is read from the six bytes at its offset.
batch_entry-append : (pre l : List ℕ) → batch_entry (pre ++ l) (length pre) ≡ batch_entry l 0
unfolding batch_entry
batch_entry-append pre l = rw (
  get_elem?-append_right pre l (length pre) 0 (omega arith),
  get_elem?-append_right pre l (length pre + 1) 1 (omega arith),
  get_elem?-append_right pre l (length pre + 2) 2 (omega arith),
  get_elem?-append_right pre l (length pre + 3) 3 (omega arith),
  get_elem?-append_right pre l (length pre + 4) 4 (omega arith),
  get_elem?-append_right pre l (length pre + 5) 5 (omega arith),
)

entry_bytes :
    (rest : List ℕ) (f i : ℕ)
    → f < 2 ^ 32
    → i < 2 ^ 16
    → batch_entry
        (f % 256
          ∷ f / 2 ^ 8 % 256
          ∷ f / 2 ^ 16 % 256
          ∷ f / 2 ^ 24 % 256
          ∷ i % 256
          ∷ i / 2 ^ 8 % 256
          ∷ rest)
        0
      ≡ some (to_int f, i)
unfolding batch_entry
entry_bytes rest f i h k = rw (le_32 f h, le_16 i k)

-- An entry that the relay copied from a CLIENT_INPUT is read as the frame and the input that
-- `net_client_send_input` was called with, for every `int` and every 16-bit input.
pub batch_entry-input_message :
    (pre rest : List ℕ) (frame : ℤ) (input : ℕ)
    → IsInt frame
    → input < 2 ^ 16
    → batch_entry (pre ++ (relayed (frame, input) ++ rest)) (length pre) ≡ some (frame, input)
unfolding input_message
batch_entry-input_message pre rest frame input h k =
    batch_entry-append pre (relayed (frame, input) ++ rest)
    ∙ entry_bytes rest (bits32 frame) input (bits32_fits frame) k
    ∙ ap (λ v. some (v, input)) (to_int-bits32 frame h)

abbrev pub IsEntry : ℤ × ℕ → Type 0
IsEntry e = IsInt e.0 × (e.1 < 2 ^ 16)

-- The entries of a batch, one behind the other.
abbrev pub relayed_all : List (ℤ × ℕ) → List ℕ
relayed_all [] = []
relayed_all (e ∷ es) = relayed e ++ relayed_all es

pub length-relayed : (e : ℤ × ℕ) → length (relayed e) ≡ 6
unfolding input_message
length-relayed e = refl

no_entries : (pre rest : List ℕ) → batch_entries (pre ++ rest) 0 (length pre) ≡ some []
unfolding batch_entries
no_entries pre rest = refl

batch_entries-cons :
    (b : List ℕ) (n p : ℕ) (e : ℤ × ℕ) (es : List (ℤ × ℕ))
    → batch_entry b p ≡ some e
    → batch_entries b n (p + 6) ≡ some es
    → batch_entries b (suc n) p ≡ some (e ∷ es)
unfolding batch_entries
batch_entries-cons b n p e es h k = rw (h, k)

-- A batch of any number of entries is read back whole, wherever it stands in the buffer.
pub batch_entries-relayed :
    (es : List (ℤ × ℕ)) (pre rest : List ℕ)
    → All IsEntry es
    → batch_entries (pre ++ (relayed_all es ++ rest)) (length es) (length pre) ≡ some es
batch_entries-relayed [] pre rest h = no_entries pre rest
batch_entries-relayed (e ∷ es) pre rest (h, hs) =
    let assoc = append_assoc (relayed e) (relayed_all es) rest in
    let next : length (pre ++ relayed e) ≡ length pre + 6 =
      omega (arith, length-append pre (relayed e), length-relayed e) in
    let whole = batch_entries-relayed es (pre ++ relayed e) rest hs in
    batch_entries-cons (pre ++ (relayed_all (e ∷ es) ++ rest)) (length es) (length pre) e es
      (ap (λ l. batch_entry (pre ++ l) (length pre)) assoc
        ∙ batch_entry-input_message pre (relayed_all es ++ rest) e.0 e.1 h.0 h.1)
      (ap (λ l. batch_entries (pre ++ l) (length es) (length pre + 6)) assoc
        ∙ ap (λ l. batch_entries l (length es) (length pre + 6))
            (sym (append_assoc pre (relayed e) (relayed_all es ++ rest)))
        ∙ ap (λ n. batch_entries ((pre ++ relayed e) ++ (relayed_all es ++ rest)) (length es) n)
            (sym next)
        ∙ whole)

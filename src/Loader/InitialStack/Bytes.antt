-- ===== src/Loader/InitialStack/Bytes.antt =====
-- What the stores of src/loader/initial_stack.cpp leave in the bytes of the stack.
use astraea.Memory.Address.{checked_add}
use mathlib.Core.List.{append_assoc}
use native.Mathlib.Nat.{add-zero}
use astraea.Prelude.{
  ℕ, ◌+◌, ◌≤◌, ◌≡◌, refl, sym, ap, ◌∙◌, some, List, [], ◌∷◌, ◌++◌, arith, u64_max, length,
  length-append, success,
}
use astraea.Prelude.LittleEndian.{little_endian, length-little_endian}
use astraea.Loader.InitialStack.Layout.{address_at}
use astraea.Prelude.Stores.{zeros, store, zeros-add, length-zeros, store_lem, snoc, length-snoc}
use astraea.Loader.InitialStack.{store_bytes, copy_strings, write_words}

-- The strings one after the other, each with its terminator.
abbrev pub string_bytes : List (List ℕ) → List ℕ
string_bytes [] = []
string_bytes (s ∷ ss) = s ++ (0 ∷ string_bytes ss)

abbrev pub strings_size : List (List ℕ) → ℕ
strings_size [] = 0
strings_size (s ∷ ss) = length s + (1 + strings_size ss)

-- The addresses of the strings, when the first one stands at `a`.
abbrev pub string_addresses : ℕ → List (List ℕ) → List ℕ
string_addresses a [] = []
string_addresses a (s ∷ ss) = a ∷ string_addresses (a + (length s + 1)) ss

abbrev pub word_bytes : List ℕ → List ℕ
word_bytes [] = []
word_bytes (w ∷ ws) = little_endian 8 w ++ word_bytes ws

abbrev pub words_size : List ℕ → ℕ
words_size [] = 0
words_size (w ∷ ws) = 8 + words_size ws

-- Bytes stored over as many bytes take their place.
pub store_bytes_lem :
    (bs pre mid post : List ℕ)
    → length mid ≡ length bs
    → store_bytes (pre ++ (mid ++ post)) (length pre) bs ≡ some (success (pre ++ (bs ++ post)))
unfolding store_bytes
store_bytes_lem [] pre [] post e = refl
store_bytes_lem [] pre (m ∷ mid) post e = absurd (omega arith)
store_bytes_lem (b ∷ bs) pre [] post e = absurd (omega arith)
store_bytes_lem (b ∷ bs) pre (m ∷ mid) post e =
    let ih = store_bytes_lem bs (pre ++ (b ∷ [])) mid post (omega (arith, e)) in
    rw (store_bytes, store_lem pre (mid ++ post) m b)
      (rw (snoc pre (mid ++ post) b, length-snoc pre b, snoc pre (bs ++ post) b) at ih)

pub write_words_lem :
    (ws pre post : List ℕ)
    → write_words (pre ++ (zeros (words_size ws) ++ post)) (length pre) ws
      ≡ some (success (pre ++ (word_bytes ws ++ post)))
unfolding write_words
write_words_lem [] pre post = refl
write_words_lem (w ∷ ws) pre post =
    let rest = zeros (words_size ws) ++ post in
    let word = little_endian 8 w in
    let size : length (zeros 8) ≡ length word = sym (length-little_endian 8 w) in
    let stored = store_bytes_lem word pre (zeros 8) rest size in
    let ih = write_words_lem ws (pre ++ word) post in
    let split : zeros (8 + words_size ws) ++ post ≡ zeros 8 ++ rest =
      ap (λ l. l ++ post) (zeros-add 8 (words_size ws))
      ∙ append_assoc (zeros 8) (zeros (words_size ws)) post in
    let size' : length (pre ++ word) ≡ length pre + 8 =
      length-append pre word ∙ ap (λ k. length pre + k) (length-little_endian 8 w) in
    let ih' =
      rw (append_assoc pre word rest, size', append_assoc pre word (word_bytes ws ++ post)) at ih in
    rw (split, stored, append_assoc word (word_bytes ws) post) ih'

pub address_at_lem :
    (base offset : ℕ)
    → base + offset ≤ u64_max
    → address_at base offset ≡ some (success (base + offset))
unfolding address_at checked_add
address_at_lem base offset fits = ground arith

-- Copying strings over zeros leaves the strings, each with its terminator, and gives their addresses.
pub copy_strings_lem :
    (base : ℕ) (ss : List (List ℕ)) (pre post : List ℕ)
    → base + length pre + strings_size ss ≤ u64_max + 1
    → copy_strings base (pre ++ (zeros (strings_size ss) ++ post)) (length pre) ss
      ≡ some (
          success (record {
            bytes = pre ++ (string_bytes ss ++ post);
            cursor = length pre + strings_size ss;
            addresses = string_addresses (base + length pre) ss;
          }))
unfolding copy_strings
copy_strings_lem base [] pre post fits = rw add-zero refl
copy_strings_lem base (s ∷ ss) pre post fits =
    let k = strings_size ss in
    let n = length s in
    let rest = zeros k ++ post in
    let split : zeros (n + (1 + k)) ++ post ≡ zeros n ++ (0 ∷ rest) =
      ap (λ l. l ++ post) (zeros-add n (1 + k))
      ∙ (append_assoc (zeros n) (zeros (1 + k)) post
          ∙ ap (λ l. zeros n ++ (l ++ post)) (zeros-add 1 k)) in
    let address : address_at base (length pre) ≡ some (success (base + length pre)) =
      address_at_lem base (length pre) (omega (arith, fits)) in
    let stored = store_bytes_lem s pre (zeros n) (0 ∷ rest) (length-zeros n) in
    let ended = store_lem (pre ++ s) rest 0 0 in
    let ended' : store (pre ++ (s ++ (0 ∷ rest))) (length pre + n) 0
        ≡ some (pre ++ (s ++ (0 ∷ rest))) =
      rw (append_assoc pre s (0 ∷ rest), length-append pre s) at ended in
    let pre' = pre ++ (s ++ (0 ∷ [])) in
    let size : length pre' ≡ length pre + (n + 1) =
      length-append pre (s ++ (0 ∷ [])) ∙ ap (λ x. length pre + x) (length-append s (0 ∷ [])) in
    let ih = copy_strings_lem base ss pre' post (omega (arith, size, fits)) in
    let front = λ (l : List ℕ).
      append_assoc pre (s ++ (0 ∷ [])) l ∙ ap (λ x. pre ++ x) (append_assoc s (0 ∷ []) l) in
    let ih' = rw (front rest, front (string_bytes ss ++ post), size) at ih in
    let at : base + length pre + (n + 1) ≡ base + (length pre + (n + 1)) = omega arith in
    let cursor : length pre + (n + 1) + k ≡ length pre + (n + (1 + k)) = omega arith in
    let bytes : (s ++ (0 ∷ string_bytes ss)) ++ post ≡ s ++ (0 ∷ (string_bytes ss ++ post)) =
      append_assoc s (0 ∷ string_bytes ss) post in
    rw (split, address, stored, ended', ih', bytes, at, cursor) refl

pub length-string_bytes : (ss : List (List ℕ)) → length (string_bytes ss) ≡ strings_size ss
length-string_bytes [] = refl
length-string_bytes (s ∷ ss) =
    omega (arith, length-append s (0 ∷ string_bytes ss), length-string_bytes ss)

pub length-word_bytes : (ws : List ℕ) → length (word_bytes ws) ≡ words_size ws
length-word_bytes [] = refl
length-word_bytes (w ∷ ws) = omega (
  arith,
  length-append (little_endian 8 w) (word_bytes ws),
  length-little_endian 8 w,
  length-word_bytes ws,
)

-- ===== src/Graphics/Packet/Words.antt =====
-- The words of a command buffer, and the reads of the parser in terms of them.
use astraea.Graphics.Packet.{RawPacketWord, read_raw_word, read_words}
use native.Mathlib.Numerals.{add-four}
use astraea.Prelude.{
  ℕ, zero, suc, ◌+◌, ◌*◌, ◌/◌, ◌%◌, ◌≤◌, ◌≡◌, refl, ◌∙◌, none, some, List, [], ◌∷◌, arith, length,
  get_elem?, take, drop, get_elem?-lt, get_elem?-ge,
}

-- The buffer in groups of four bytes; what is left over at the end is dropped.
abbrev pub words : List ℕ → List RawPacketWord
words [] = []
words (a ∷ []) = []
words (a ∷ b ∷ []) = []
words (a ∷ b ∷ c ∷ []) = []
words (a ∷ b ∷ c ∷ d ∷ bytes) = record { byte0 = a; byte1 = b; byte2 = c; byte3 = d } ∷ words bytes

-- The bytes of words.
abbrev pub bytes_of : List RawPacketWord → List ℕ
bytes_of [] = []
bytes_of (w ∷ ws) = w.byte0 ∷ w.byte1 ∷ w.byte2 ∷ w.byte3 ∷ bytes_of ws

pub length-words : (bytes : List ℕ) → length (words bytes) ≡ length bytes / 4
length-words [] = omega arith
length-words (a ∷ []) = omega arith
length-words (a ∷ b ∷ []) = omega arith
length-words (a ∷ b ∷ c ∷ []) = omega arith
length-words (a ∷ b ∷ c ∷ d ∷ bytes) = omega (arith, length-words bytes)

pub bytes_of-words : (bytes : List ℕ) → length bytes % 4 ≡ 0 → bytes_of (words bytes) ≡ bytes
bytes_of-words [] h = refl
bytes_of-words (a ∷ []) h = absurd (omega arith)
bytes_of-words (a ∷ b ∷ []) h = absurd (omega arith)
bytes_of-words (a ∷ b ∷ c ∷ []) h = absurd (omega arith)
bytes_of-words (a ∷ b ∷ c ∷ d ∷ bytes) h = rw (bytes_of-words bytes (omega arith))

-- The same four bytes make the same word.
read_from :
    (xs ys : List ℕ) (i j : ℕ)
    → get_elem? xs (i * 4) ≡ get_elem? ys (j * 4)
    → get_elem? xs (i * 4 + 1) ≡ get_elem? ys (j * 4 + 1)
    → get_elem? xs (i * 4 + 2) ≡ get_elem? ys (j * 4 + 2)
    → get_elem? xs (i * 4 + 3) ≡ get_elem? ys (j * 4 + 3)
    → read_raw_word xs i ≡ read_raw_word ys j
unfolding read_raw_word
read_from xs ys i j p q r s = rw p (rw q (rw r (rw s refl)))

skip_bytes :
    (a b c d : ℕ) (bytes : List ℕ) (i j : ℕ)
    → j ≡ i + 4
    → get_elem? (a ∷ b ∷ c ∷ d ∷ bytes) j ≡ get_elem? bytes i
skip_bytes a b c d bytes i j e = rw (e ∙ add-four i)

skip_word :
    (a b c d : ℕ) (bytes : List ℕ) (i : ℕ)
    → read_raw_word (a ∷ b ∷ c ∷ d ∷ bytes) (suc i) ≡ read_raw_word bytes i
skip_word a b c d bytes i =
    read_from (a ∷ b ∷ c ∷ d ∷ bytes) bytes (suc i) i
      (skip_bytes a b c d bytes (i * 4) (suc i * 4) (omega arith))
      (skip_bytes a b c d bytes (i * 4 + 1) (suc i * 4 + 1) (omega arith))
      (skip_bytes a b c d bytes (i * 4 + 2) (suc i * 4 + 2) (omega arith))
      (skip_bytes a b c d bytes (i * 4 + 3) (suc i * 4 + 3) (omega arith))

read_short : (bytes : List ℕ) (i : ℕ) → length bytes ≤ i * 4 + 3 → read_raw_word bytes i ≡ none
unfolding read_raw_word
read_short bytes i h = ground (arith, get_elem?-ge bytes (i * 4 + 3) h)

-- Reading a word of the buffer gives that word, and fails past the last whole one.
pub read_raw_word-words :
    (bytes : List ℕ) (i : ℕ) → read_raw_word bytes i ≡ get_elem? (words bytes) i
read_raw_word-words [] i = read_short [] i (omega arith)
read_raw_word-words (a ∷ []) i = read_short (a ∷ []) i (omega arith)
read_raw_word-words (a ∷ b ∷ []) i = read_short (a ∷ b ∷ []) i (omega arith)
read_raw_word-words (a ∷ b ∷ c ∷ []) i = read_short (a ∷ b ∷ c ∷ []) i (omega arith)
read_raw_word-words (a ∷ b ∷ c ∷ d ∷ bytes) zero = unfold read_raw_word in refl
read_raw_word-words (a ∷ b ∷ c ∷ d ∷ bytes) (suc i) =
    skip_word a b c d bytes i ∙ read_raw_word-words bytes i

drop-get :
    (xs : List RawPacketWord) (i : ℕ) (w : RawPacketWord)
    → get_elem? xs i ≡ some w
    → drop i xs ≡ w ∷ drop (i + 1) xs
drop-get [] i w e = cc
drop-get (x ∷ xs) zero w e = ground arith
drop-get (x ∷ xs) (suc i) w e = drop-get xs i w e ∙ rw (next i)
  where
    next : (i : ℕ) → suc i + 1 ≡ suc (i + 1)
    next i = omega arith

-- Reading `n` words from word `i` on gives those words, if the buffer has them.
pub read_words-words :
    (bytes : List ℕ) (i n : ℕ)
    → i + n ≤ length (words bytes)
    → read_words bytes i n ≡ some (take n (drop i (words bytes)))
unfolding read_words
read_words-words bytes i zero h = refl
read_words-words bytes i (suc n) h =
    let (w, e) = get_elem?-lt (words bytes) i (omega arith) in
    rw (read_raw_word-words bytes i) (
      rw (e, read_words)
        (rw (read_words-words bytes (i + 1) n (omega arith))
          (rw (drop-get (words bytes) i w e) refl)))

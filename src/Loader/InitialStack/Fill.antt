-- ===== src/Loader/InitialStack/Fill.antt =====
-- Filling the zeros of the stack: the arguments, the environment, then the words.
use astraea.Prelude.Stores.{length-zeros, zeros, zeros-add}
use mathlib.Core.List.{append_assoc, append-nil}
use native.Mathlib.Nat.{add_assoc}
use astraea.Prelude.{
  ℕ, ◌+◌, ◌-◌, ◌≤◌, ◌≡◌, sym, ap, ◌∙◌, some, List, [], ◌++◌, arith, u64_max, length, length-append,
  success,
}
use astraea.Loader.InitialStack.{copy_strings, write_words}
use astraea.Loader.InitialStack.Bytes.{
  string_bytes, strings_size, string_addresses, word_bytes, words_size, write_words_lem,
  copy_strings_lem, length-string_bytes, length-word_bytes,
}

-- The arguments are copied into zeros, where the environment's part follows.
pub copy_arguments :
    (rsp start used rest : ℕ) (args : List (List ℕ))
    → start + strings_size args + rest ≡ used
    → rsp + used ≤ u64_max + 1
    → copy_strings rsp (zeros used) start args
      ≡ some (
          success (record {
            bytes = zeros start ++ (string_bytes args ++ zeros rest);
            cursor = start + strings_size args;
            addresses = string_addresses (rsp + start) args;
          }))
copy_arguments rsp start used rest args e fits =
    let n = strings_size args in
    let size = length-zeros start in
    let split : zeros used ≡ zeros start ++ (zeros n ++ zeros rest) =
      ap zeros (sym e ∙ add_assoc start n rest)
      ∙ (zeros-add start (n + rest) ∙ ap (λ l. zeros start ++ l) (zeros-add n rest)) in
    rw split (
      rw size at
        (copy_strings_lem rsp args (zeros start) (zeros rest) (omega (arith, size, e, fits))))

-- The environment is copied after the arguments.
pub copy_environment :
    (rsp start : ℕ) (args env : List (List ℕ))
    → rsp + start + strings_size args + strings_size env ≤ u64_max + 1
    → copy_strings rsp
        (zeros start ++ (string_bytes args ++ zeros (strings_size env)))
        (start + strings_size args)
        env
      ≡ some (
          success (record {
            bytes = zeros start ++ (string_bytes args ++ string_bytes env);
            cursor = start + strings_size args + strings_size env;
            addresses = string_addresses (rsp + start + strings_size args) env;
          }))
copy_environment rsp start args env fits =
    let pre = zeros start ++ string_bytes args in
    let size : length pre ≡ start + strings_size args = omega (
      arith,
      length-append (zeros start) (string_bytes args),
      length-zeros start,
      length-string_bytes args,
    ) in
    let front = λ (l : List ℕ). append_assoc (zeros start) (string_bytes args) l in
    let copied = copy_strings_lem rsp env pre [] (omega (arith, size, fits)) in
    rw
      (
        size,
        append-nil (zeros (strings_size env)),
        append-nil (string_bytes env),
        front (zeros (strings_size env)),
        front (string_bytes env),
        ← add_assoc rsp start (strings_size args),
      )
      at copied

-- The words are written over the first zeros.
pub write_words-zeros :
    (start : ℕ) (ws rest : List ℕ)
    → words_size ws ≤ start
    → write_words (zeros start ++ rest) 0 ws
      ≡ some (success (word_bytes ws ++ (zeros (start - words_size ws) ++ rest)))
write_words-zeros start ws rest room =
    let pad = start - words_size ws in
    let total : start ≡ words_size ws + pad = omega (arith, room) in
    let split : zeros start ++ rest ≡ zeros (words_size ws) ++ (zeros pad ++ rest) =
      ap (λ l. l ++ rest) (ap zeros total ∙ zeros-add (words_size ws) pad)
      ∙ append_assoc (zeros (words_size ws)) (zeros pad) rest in
    rw split (write_words_lem ws [] (zeros pad ++ rest))

pub length-filled :
    (start used : ℕ) (ws : List ℕ) (args env : List (List ℕ))
    → words_size ws ≤ start
    → start + strings_size args + strings_size env ≡ used
    → length (
        word_bytes ws ++ (zeros (start - words_size ws) ++ (string_bytes args ++ string_bytes env)))
      ≡ used
length-filled start used ws args env room e =
    let strings = string_bytes args ++ string_bytes env in
    omega (
      arith,
      room,
      e,
      length-append (word_bytes ws) (zeros (start - words_size ws) ++ strings),
      length-append (zeros (start - words_size ws)) strings,
      length-append (string_bytes args) (string_bytes env),
      length-word_bytes ws,
      length-zeros (start - words_size ws),
      length-string_bytes args,
      length-string_bytes env,
    )

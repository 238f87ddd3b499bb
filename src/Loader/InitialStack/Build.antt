-- ===== src/Loader/InitialStack/Build.antt =====
-- build_initial_stack: what a guest finds on its stack.
use astraea.Prelude.Stores.{zeros}
use astraea.Prelude.{
  ℕ, ◌+◌, ◌-◌, ◌*◌, ◌%◌, ◌≤◌, ◌≡◌, refl, ◌≢◌, false, some, ◌++◌, arith, ltb, u64_max, length, All,
  success,
}
use astraea.Prelude.Attempts.{Ensures, Ensures->>=, Ensures-check}
use astraea.Memory.Address.{IsRange, create}
use astraea.Loader.InitialStack.Layout.{
  contains_nul, InitialStackRequest, InitialStackImage, InitialStackInputKind, argument,
}
use astraea.Loader.InitialStack.{stack_words, used_range_of, build_initial_stack}
use astraea.Loader.InitialStack.Bytes.{
  string_bytes, strings_size, string_addresses, word_bytes, words_size,
}
use astraea.Loader.InitialStack.Fill.{
  copy_arguments, copy_environment, write_words-zeros, length-filled,
}
use astraea.Loader.InitialStack.Sizes.{
  NoOverflow, IsLayout, SumsTo, layout_of-Ensures, add_string_sizes-Ensures,
  control_size_of-Ensures, words_size_lem, length-string_addresses, check_strings-Ensures,
  check_auxiliary-Ensures,
}

-- What the stack holds: from the stack pointer on the number of arguments, the addresses of the
-- arguments, a zero, the addresses of the environment, a zero, the auxiliary vector and two zeros;
-- then some zeros; then the strings to the end of the storage.
pub record IsStack (request : InitialStackRequest) (image : InitialStackImage) : Type 0 where
  pub storage : image.storage ≡ request.storage
  pub aligned : image.rsp % 16 ≡ 0
  pub base : image.used_range.base ≡ image.rsp
  pub inside : request.storage.base ≤ image.rsp
  pub end : image.rsp + image.used_range.size ≡ request.storage.base + request.storage.size
  pub size : length image.bytes ≡ image.used_range.size
  pub padding : ℕ
  pub strings_at : ℕ
  pub strings_end :
      strings_at + strings_size request.arguments + strings_size request.environment
      ≡ request.storage.base + request.storage.size
  pub bytes :
      image.bytes
      ≡ word_bytes (
          stack_words
            (length request.arguments)
            (string_addresses strings_at request.arguments)
            (string_addresses (strings_at + strings_size request.arguments) request.environment)
            request.auxiliary_vector)
        ++ (zeros padding ++ (string_bytes request.arguments ++ string_bytes request.environment))
  pub arguments : All (λ s. contains_nul s ≡ false) request.arguments
  pub environment : All (λ s. contains_nul s ≡ false) request.environment
  pub auxiliary : All (λ e. e.type ≢ 0) request.auxiliary_vector

used_range_of-Ensures :
    (b n : ℕ)
    → b + n ≤ u64_max + 1
    → used_range_of b n ≡ some (success (record { base = b; size = n }))
unfolding create
used_range_of-Ensures b n fits = ground arith

-- For storage whose last byte has a 64-bit address, build_initial_stack writes only inside the stack's
-- bytes, and no address overflows. When it succeeds, the stack pointer is a multiple of 16 in the
-- storage, and the bytes from it to the storage's end are those that IsStack names: the count of
-- arguments, pointers to the arguments and to the environment, the auxiliary vector, and the strings
-- that the pointers point to; no string holds a zero byte, and no entry has the terminator's type.
pub build_initial_stack_lem :
    (max_size : ℕ) (request : InitialStackRequest)
    → IsRange request.storage
    → Ensures (IsStack request) NoOverflow (build_initial_stack max_size request)
unfolding build_initial_stack
build_initial_stack_lem max_size request r =
    let R = IsStack request in
    let Q = NoOverflow in
    let storage = request.storage in
    let sa = strings_size request.arguments in
    let se = strings_size request.environment in
    let w =
      8
      + length request.arguments * 8
      + 8
      + length request.environment * 8
      + 8
      + (length request.auxiliary_vector + 1) * 16 in
    Ensures->>= (λ _. All (λ s. contains_nul s ≡ false) request.arguments) Q R _ _
      (check_strings-Ensures argument request.arguments 0)
      (λ u0 e0 plain_arguments.
        Ensures->>= (λ _. All (λ s. contains_nul s ≡ false) request.environment) Q R _ _
          (check_strings-Ensures InitialStackInputKind.environment request.environment 0)
          (λ u1 e1 plain_environment.
            Ensures->>= (λ _. All (λ e. e.type ≢ 0) request.auxiliary_vector) Q R _ _
              (check_auxiliary-Ensures request.auxiliary_vector 0)
              (λ u2 e2 aux.
                Ensures->>= (SumsTo (0 + sa)) Q R _ _ (add_string_sizes-Ensures request.arguments 0)
                  (λ a e3 a_lem.
                    Ensures->>= (SumsTo (a + se)) Q R _ _
                      (add_string_sizes-Ensures request.environment a)
                      (λ i e4 i_lem.
                        Ensures->>= (SumsTo w) Q R _ _ (control_size_of-Ensures request)
                          (λ c e5 c_lem.
                            Ensures->>= (IsLayout storage i c) Q R _ _
                              (layout_of-Ensures storage i c r (omega (arith, c_lem)))
                              (λ l e6 is_layout.
                                Ensures-check R Q (ltb max_size (storage.size - l.rsp_offset)) _ _
                                  (λ e. cc)
                                  (λ small.
                                    let used_size = storage.size - l.rsp_offset in
                                    rw
                                      (used_range_of-Ensures l.rsp used_size (
                                        omega (
                                          arith, is_layout.rsp_lem, r.last_fits, is_layout.ends,
                                          is_layout.room,
                                        )))
                                      (let start = l.information_start - l.rsp_offset in
                                        let fits : start + sa + se ≡ used_size =
                                          omega
                                            (arith, is_layout.ends, is_layout.room, i_lem, a_lem) in
                                        let small : l.rsp + used_size ≤ u64_max + 1 = omega (
                                          arith, is_layout.rsp_lem, r.last_fits, is_layout.ends,
                                          is_layout.room,
                                        ) in
                                        let first =
                                          string_addresses (l.rsp + start) request.arguments in
                                        let second =
                                          string_addresses (l.rsp + start + sa)
                                            request.environment in
                                        let ws =
                                          stack_words (length request.arguments) first second
                                            request.auxiliary_vector in
                                        let room : words_size ws ≤ start = omega (
                                          arith,
                                          words_size_lem (length request.arguments) first second
                                              request.auxiliary_vector,
                                          length-string_addresses request.arguments (l.rsp + start),
                                          length-string_addresses request.environment
                                              (l.rsp + start + sa),
                                          c_lem,
                                          is_layout.room,
                                        ) in
                                        let strings =
                                          string_bytes request.arguments
                                          ++ string_bytes request.environment in
                                        rw
                                          (
                                            copy_arguments l.rsp start used_size se
                                                request.arguments fits small,
                                            copy_environment l.rsp start request.arguments
                                                request.environment (omega (arith, fits, small)),
                                            write_words-zeros start ws strings room,
                                          )
                                          (record {
                                            storage = refl;
                                            aligned = is_layout.aligned;
                                            base = refl;
                                            inside = omega (arith, is_layout.rsp_lem);
                                            end = omega (
                                              arith, is_layout.rsp_lem, is_layout.ends,
                                              is_layout.room,
                                            );
                                            size =
                                                length-filled start used_size ws request.arguments
                                                  request.environment room fits;
                                            padding = start - words_size ws;
                                            strings_at = l.rsp + start;
                                            strings_end = omega (
                                              arith, fits, is_layout.rsp_lem, is_layout.ends,
                                              is_layout.room,
                                            );
                                            bytes = refl;
                                            arguments = plain_arguments;
                                            environment = plain_environment;
                                            auxiliary = aux;
                                          }))))))))))

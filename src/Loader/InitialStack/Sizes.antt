-- ===== src/Loader/InitialStack/Sizes.antt =====
-- The checks and the sizes of src/loader/initial_stack.cpp.
use astraea.Prelude.{
  ==→ne, ltb→le, ℕ, suc, ◌+◌, ◌-◌, ◌*◌, ◌/◌, ◌%◌, ◌≤◌, ◌≡◌, refl, ap, ◌≢◌, false, not, ◌&&◌, List,
  [], ◌∷◌, ◌++◌, arith, ltb, ◌==◌, u64_max, length, All,
}
use astraea.Prelude.Attempts.{Ensures-weaken, Ensures, Ensures->>=, Ensures-check}
use astraea.Memory.Address.{GuestRange, IsRange}
use astraea.Loader.InitialStack.Layout.{
  contains_nul, multiply_sizes, add_sizes, AuxiliaryVectorEntry, InitialStackRequest,
  InitialStackError, Layout, InitialStackInputKind, guest_address_overflow, layout_of,
  add_string_sizes, add_pieces, control_size_of, check_strings, check_auxiliary,
}
use astraea.Loader.InitialStack.{stack_words, auxiliary_words}
use astraea.Loader.InitialStack.Bytes.{strings_size, string_addresses, words_size, address_at_lem}

-- The failures that are possible: an address that overflows is not.
abbrev pub NoOverflow : InitialStackError → Type 0
NoOverflow e = e.code ≢ guest_address_overflow

pub record IsLayout (storage : GuestRange) (information control : ℕ) (l : Layout) : Type 0 where
  pub aligned : l.rsp % 16 ≡ 0
  pub rsp_lem : l.rsp ≡ storage.base + l.rsp_offset
  pub room : l.rsp_offset + control ≤ l.information_start
  pub ends : l.information_start + information ≡ storage.size

pub layout_of-Ensures :
    (storage : GuestRange) (information control : ℕ)
    → IsRange storage
    → 1 ≤ control
    → Ensures
        (IsLayout storage information control)
        NoOverflow
        (layout_of storage information control)
unfolding layout_of
layout_of-Ensures storage information control r some_control =
    let P = IsLayout storage information control in
    Ensures-check P NoOverflow (ltb storage.size information) _ _ (λ e. cc)
      (λ a.
        Ensures-check P NoOverflow (ltb (storage.size - information) control) _ _ (λ e. cc)
          (λ b.
            let fits = ltb→le storage.size information a in
            let room = ltb→le (storage.size - information) control b in
            rw
              (address_at_lem storage.base (storage.size - information - control)
                (omega (arith, r.last_fits, fits, room)))
              (ground arith)))

abbrev pub SumsTo : ℕ → ℕ → Type 0
SumsTo total n = n ≡ total

add_sizes-Ensures : (a b : ℕ) → Ensures (SumsTo (a + b)) NoOverflow (add_sizes a b)
add_sizes-Ensures a b =
    Ensures-check (SumsTo (a + b)) NoOverflow (ltb (u64_max - b) a) _ _ (λ e. cc) (λ fits. refl)

multiply_sizes-Ensures : (a b : ℕ) → Ensures (SumsTo (a * b)) NoOverflow (multiply_sizes a b)
multiply_sizes-Ensures a b =
    Ensures-check (SumsTo (a * b)) NoOverflow (not (a == 0) && ltb (u64_max / a) b) _ _ (λ e. cc)
      (λ fits. refl)

pub add_string_sizes-Ensures :
    (ss : List (List ℕ)) (size : ℕ)
    → Ensures (SumsTo (size + strings_size ss)) NoOverflow (add_string_sizes ss size)
unfolding add_string_sizes
add_string_sizes-Ensures [] size = omega arith
add_string_sizes-Ensures (s ∷ ss) size =
    let P = SumsTo (size + strings_size (s ∷ ss)) in
    Ensures->>= (SumsTo (length s + 1)) NoOverflow P _ _ (add_sizes-Ensures (length s) 1)
      (λ t e t_lem.
        Ensures->>= (SumsTo (size + t)) NoOverflow P _ _ (add_sizes-Ensures size t)
          (λ next e' next_lem.
            Ensures-weaken (SumsTo (next + strings_size ss)) P NoOverflow _
              (add_string_sizes-Ensures ss next)
              (λ n n_lem. omega (arith, t_lem, next_lem, n_lem))))

abbrev pieces_size : List ℕ → ℕ
pieces_size [] = 0
pieces_size (p ∷ ps) = p + pieces_size ps

add_pieces-Ensures :
    (ps : List ℕ) (size : ℕ)
    → Ensures (SumsTo (size + pieces_size ps)) NoOverflow (add_pieces ps size)
unfolding add_pieces
add_pieces-Ensures [] size = omega arith
add_pieces-Ensures (p ∷ ps) size =
    let P = SumsTo (size + pieces_size (p ∷ ps)) in
    Ensures->>= (SumsTo (size + p)) NoOverflow P _ _ (add_sizes-Ensures size p) (λ next e next_lem.
      Ensures-weaken (SumsTo (next + pieces_size ps)) P NoOverflow _ (add_pieces-Ensures ps next)
        (λ n n_lem. omega (arith, next_lem, n_lem)))

pub control_size_of-Ensures :
    (request : InitialStackRequest)
    → Ensures
        (SumsTo (
          8
          + length request.arguments * 8
          + 8
          + length request.environment * 8
          + 8
          + (length request.auxiliary_vector + 1) * 16))
        NoOverflow
        (control_size_of request)
unfolding control_size_of
control_size_of-Ensures request =
    let Q = NoOverflow in
    let argc = length request.arguments in
    let envc = length request.environment in
    let auxc = length request.auxiliary_vector in
    let P = SumsTo (8 + argc * 8 + 8 + envc * 8 + 8 + (auxc + 1) * 16) in
    Ensures->>= (SumsTo (argc * 8)) Q P _ _ (multiply_sizes-Ensures argc 8) (λ a e a_lem.
      Ensures->>= (SumsTo (envc * 8)) Q P _ _ (multiply_sizes-Ensures envc 8) (λ b e' b_lem.
        Ensures->>= (SumsTo (auxc + 1)) Q P _ _ (add_sizes-Ensures auxc 1) (λ c e'' c_lem.
          Ensures->>= (SumsTo (c * 16)) Q P _ _ (multiply_sizes-Ensures c 16) (λ d e3 d_lem.
            Ensures-weaken (SumsTo (8 + pieces_size (a ∷ 8 ∷ b ∷ 8 ∷ d ∷ []))) P Q _
              (add_pieces-Ensures (a ∷ 8 ∷ b ∷ 8 ∷ d ∷ []) 8)
              (λ n n_lem. omega (arith, a_lem, b_lem, c_lem, d_lem, n_lem))))))

words_size-append : (xs ys : List ℕ) → words_size (xs ++ ys) ≡ words_size xs + words_size ys
words_size-append [] ys = omega arith
words_size-append (x ∷ xs) ys = omega (arith, words_size-append xs ys)

words_size-eight : (xs : List ℕ) → words_size xs ≡ length xs * 8
words_size-eight [] = refl
words_size-eight (x ∷ xs) = omega (arith, words_size-eight xs)

words_size-auxiliary :
    (aux : List AuxiliaryVectorEntry) → words_size (auxiliary_words aux) ≡ (length aux + 1) * 16
words_size-auxiliary [] = refl
words_size-auxiliary (e ∷ es) = omega (arith, words_size-auxiliary es)

pub words_size_lem :
    (argc : ℕ) (args env : List ℕ) (aux : List AuxiliaryVectorEntry)
    → words_size (stack_words argc args env aux)
      ≡ 8 + length args * 8 + 8 + length env * 8 + 8 + (length aux + 1) * 16
words_size_lem argc args env aux = omega (
  arith,
  words_size-append args (0 ∷ (env ++ (0 ∷ auxiliary_words aux))),
  words_size-append env (0 ∷ auxiliary_words aux),
  words_size-eight args,
  words_size-eight env,
  words_size-auxiliary aux,
)

pub length-string_addresses :
    (ss : List (List ℕ)) (a : ℕ) → length (string_addresses a ss) ≡ length ss
length-string_addresses [] a = refl
length-string_addresses (s ∷ ss) a =
    ap (λ k. suc k) (length-string_addresses ss (a + (length s + 1)))

pub check_strings-Ensures :
    (kind : InitialStackInputKind) (ss : List (List ℕ)) (i : ℕ)
    → Ensures (λ _. All (λ s. contains_nul s ≡ false) ss) NoOverflow (check_strings kind ss i)
unfolding check_strings
check_strings-Ensures kind [] i = tt
check_strings-Ensures kind (s ∷ ss) i =
    let P = λ (u : Unit {0}). All (λ l. contains_nul l ≡ false) (s ∷ ss) in
    Ensures-check P NoOverflow (contains_nul s) _ _ (λ e. cc)
      (λ plain.
        Ensures-weaken (λ _. All (λ l. contains_nul l ≡ false) ss) P NoOverflow _
          (check_strings-Ensures kind ss (i + 1)) (λ u h. (plain, h)))

pub check_auxiliary-Ensures :
    (es : List AuxiliaryVectorEntry) (i : ℕ)
    → Ensures (λ _. All (λ e. e.type ≢ 0) es) NoOverflow (check_auxiliary es i)
unfolding check_auxiliary
check_auxiliary-Ensures [] i = tt
check_auxiliary-Ensures (x ∷ xs) i =
    let P = λ (u : Unit {0}). All (λ e. e.type ≢ 0) (x ∷ xs) in
    Ensures-check P NoOverflow (x.type == 0) _ _ (λ e. cc)
      (λ other.
        Ensures-weaken (λ _. All (λ e. e.type ≢ 0) xs) P NoOverflow _
          (check_auxiliary-Ensures xs (i + 1)) (λ u h. (==→ne x.type 0 other, h)))

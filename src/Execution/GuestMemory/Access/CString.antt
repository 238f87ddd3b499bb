-- ===== src/Execution/GuestMemory/Access/CString.antt =====
-- GuestMemoryAccess::read_c_string: it finds exactly the terminated strings of readable bytes.
use mathlib.Core.List.{append_assoc, append-nil}
use astraea.Memory.Address.{checked_add}
use astraea.Memory.Permissions.{read}
use astraea.Execution.GuestMemory.{
  guest_memory_range_overflow, GuestMemoryError, memory_error_at, failure, GuestMemoryAccess,
  validate,
}
use astraea.Execution.GuestMemory.Access.{
  read_c_string, HostMemory, load, read_validated, read_bytes, c_string_loop,
}
use astraea.Prelude.{
  ℕ, zero, suc, ◌+◌, ◌≤◌, ◌<◌, ◌≡◌, refl, sym, ap, ◌∙◌, ◌≢◌, ◌↔◌, inl, inr, Option, none, some,
  List, [], ◌∷◌, ◌++◌, arith, ltb, ◌==◌, u64_max, ltb→lt, Bool-cases, length, Result, success,
  failure,
}

-- One byte may be read.
abbrev pub CanRead : GuestMemoryAccess → ℕ → Type 0
CanRead g a = (k : ℕ) × (validate g a 1 read ≡ some (success k))

-- The string s stands at address `a`, readable, free of zeros and closed by a readable zero.
abbrev pub StringAt : GuestMemoryAccess → HostMemory → ℕ → List ℕ → Type 0
StringAt g memory a [] = CanRead g a × (memory a ≡ 0)
StringAt g memory a (b ∷ bs) =
    CanRead g a × (memory a ≡ b) × (b ≢ 0) × (a < u64_max) × StringAt g memory (a + 1) bs

read_one :
    (g : GuestMemoryAccess) (memory : HostMemory) (a : ℕ)
    → CanRead g a
    → read_bytes g memory a (0 ∷ []) ≡ some (success 1, memory a ∷ [])
unfolding read_bytes read_validated load
read_one g memory a (k, e) = rw (e, read_validated)

module _ (g : GuestMemoryAccess) (memory : HostMemory) (start : ℕ) where
  loop_end :
      (n a : ℕ) (acc : List ℕ)
      → CanRead g a
      → memory a ≡ 0
      → c_string_loop g memory start (suc n) a acc ≡ some (success acc)
  unfolding c_string_loop
  loop_end n a acc c z = rw (read_one g memory a c, c_string_loop) (rw z)

  loop_next :
      (n a : ℕ) (acc : List ℕ)
      → CanRead g a
      → memory a ≢ 0
      → a < u64_max
      → c_string_loop g memory start (suc n) a acc
        ≡ c_string_loop g memory start n (a + 1) (acc ++ (memory a ∷ []))
  unfolding c_string_loop checked_add
  loop_next n a acc c z h = rw (read_one g memory a c, c_string_loop) (ground arith)

  loop_finds :
      (n a : ℕ) (acc s : List ℕ)
      → length s < n
      → StringAt g memory a s
      → c_string_loop g memory start n a acc ≡ some (success (acc ++ s))
  loop_finds zero a acc s h t = absurd (omega arith)
  loop_finds (suc n) a acc [] h t = rw (append-nil acc) (loop_end n a acc t.0 t.1)
  loop_finds (suc n) a acc (b ∷ bs) h (c, e, z, lt, t) =
      loop_next n a acc c (λ q. z (sym e ∙ q)) lt
      ∙ rw e (loop_finds n (a + 1) (acc ++ (b ∷ [])) bs (omega arith) t)
      ∙ ap (λ (l : List ℕ). some (success l)) (append_assoc acc (b ∷ []) bs)

  loop_overflow :
      (n a : ℕ) (acc : List ℕ)
      → CanRead g a
      → memory a ≢ 0
      → u64_max ≤ a
      → c_string_loop g memory start (suc n) a acc
        ≡ some (failure (memory_error_at guest_memory_range_overflow a))
  unfolding c_string_loop checked_add
  loop_overflow n a acc c z h = rw (read_one g memory a c, c_string_loop) (ground arith)

  loop_unread :
      (n a : ℕ) (acc s : List ℕ) (v : Option (Result ℕ GuestMemoryError))
      → validate g a 1 read ≡ v
      → c_string_loop g memory start (suc n) a acc ≡ some (success s)
      → CanRead g a
  unfolding c_string_loop read_bytes read_validated
  loop_unread n a acc s none e h = ground arith
  loop_unread n a acc s (some (failure x)) e h = ground arith
  loop_unread n a acc s (some (success k)) e h = (k, e)

  loop_found :
      (n a : ℕ) (acc r : List ℕ)
      → c_string_loop g memory start n a acc ≡ some (success r)
      → (s : List ℕ) × (r ≡ acc ++ s) × (length s < n) × StringAt g memory a s
  loop_found zero a acc r h = unfold c_string_loop in ground arith
  loop_found (suc n) a acc r h =
      let c = loop_unread n a acc r (validate g a 1 read) refl h in
      elim (Bool-cases (memory a == 0)) [
        | inl z ↦ (
          [],
          ground (arith, loop_end n a acc c (ground arith), append-nil acc),
          omega arith,
          (c, ground arith),
        )
        | inr z ↦ elim (Bool-cases (ltb a u64_max)) [
          | inl lt ↦
              (let (s, e, size, t) =
                  loop_found n (a + 1) (acc ++ (memory a ∷ [])) r
                    (sym (loop_next n a acc c (ground arith) (ltb→lt _ _ lt)) ∙ h) in
                (
                  memory a ∷ s,
                  e ∙ append_assoc acc (memory a ∷ []) s,
                  omega arith,
                  (c, refl, ground arith, ltb→lt _ _ lt, t),
                ))
          | inr ge ↦ ground (arith, loop_overflow n a acc c)
        ]
      ]

-- Where `std::string` holds at most `max_size` bytes, reading a string gives `s` exactly when
-- `max_bytes` is not above that size and `s` stands at the address: every byte of it and a closing
-- zero are readable, none of it is zero, no address past the 64-bit range is reached, and the zero
-- is among the first `max_bytes` bytes.
pub read_c_string_iff :
    (max_size : ℕ) (g : GuestMemoryAccess) (memory : HostMemory) (a max_bytes : ℕ) (s : List ℕ)
    → (read_c_string max_size g memory a max_bytes ≡ some (success s))
      ↔ ((max_bytes ≤ max_size) × (length s < max_bytes) × StringAt g memory a s)
unfolding read_c_string
read_c_string_iff max_size g memory a max_bytes s = elim (Bool-cases (ltb max_size max_bytes)) [
  | inl large ↦ rw large (λ h. ground arith, λ h. absurd (omega (arith, ltb→lt _ _ large, h.0)))
  | inr fits ↦ rw fits (
    λ h.
        (let (s', e, size, t) = loop_found g memory a max_bytes a [] s h in
          rw e (ground arith, size, t)),
    λ (small, size, t). loop_finds g memory a max_bytes a [] s size t,
  )
]

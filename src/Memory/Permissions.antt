-- ===== src/Memory/Permissions.antt =====
-- GuestPermission and GuestPermissions of include/astraea/memory/mapping.hpp.
use astraea.Prelude.{
  ℕ, ◌<◌, ◌≡◌, refl, Bool, true, false, not, ◌||◌, bit_and, bit_or, Result, success, failure, ltb,
  ltb→lt, ◌==◌, if◌then◌else◌, arith,
}
use astraea.Prelude.Bits.{passes, passes_at}

pub data GuestPermission : Type 0 where
  read write execute : GuestPermission

abbrev pub to_bit : GuestPermission → ℕ
to_bit read = 1
to_bit write = 2
to_bit execute = 4

pub data PermissionError : Type 0 where
  invalid_permission_bits : PermissionError

-- The class holds its `bits_` and nothing else.
pub record GuestPermissions : Type 0 where
  pub bits : ℕ

-- Bits outside `kKnownMask` = 7 are refused; `~kKnownMask` as an 8-bit number is 0xf8.
unfoldable pub checked_from_bits : ℕ → Result GuestPermissions PermissionError
checked_from_bits bits =
    let permissions : GuestPermissions = record { bits = bits } in
    if not (bit_and bits 0xf8 == 0) then failure invalid_permission_bits else success permissions

abbrev pub set_if : Bool → GuestPermission → ℕ → ℕ
set_if test p bits = if test then bit_or bits (to_bit p) else bits

unfoldable pub from_elf_flags : ℕ → GuestPermissions
from_elf_flags flags =
    let bits = set_if (not (bit_and flags 0x4 == 0)) read 0 in
    let bits' = set_if (not (bit_and flags 0x2 == 0)) write bits in
    record { bits = set_if (not (bit_and flags 0x1 == 0)) execute bits' }

unfoldable pub has : GuestPermissions → GuestPermission → Bool
has p permission = not (bit_and p.bits (to_bit permission) == 0)

-- Only the three known bits are set.
abbrev pub IsKnown : GuestPermissions → Type 0
IsKnown p = p.bits < 8

pub from_elf_flags-IsKnown : (flags : ℕ) → IsKnown (from_elf_flags flags)
unfolding from_elf_flags
from_elf_flags-IsKnown flags = ground arith

-- ELF's PF_R = 4, PF_W = 2 and PF_X = 1 become the permissions of their names.
pub has-from_elf_flags :
    (flags : ℕ)
    → (has (from_elf_flags flags) read ≡ not (bit_and flags 4 == 0))
      × (has (from_elf_flags flags) write ≡ not (bit_and flags 2 == 0))
      × (has (from_elf_flags flags) execute ≡ not (bit_and flags 1 == 0))
unfolding has from_elf_flags
has-from_elf_flags flags = ground arith

-- The union of two permission sets, as the memory plan forms it by `|=`.
abbrev pub union : GuestPermissions → GuestPermissions → GuestPermissions
union p q = record { bits = bit_or p.bits q.bits }

same : Bool → Bool → Bool
same true b = b
same false b = not b

same→eq : (a b : Bool) → same a b ≡ true → a ≡ b
unfolding same
same→eq true b h = ground arith
same→eq false b h = ground arith

union_row : GuestPermission → ℕ → ℕ → Bool
unfolding has same
union_row m p q =
    same (has (union (record { bits = p }) (record { bits = q })) m)
      (has (record { bits = p }) m || has (record { bits = q }) m)

union_table : (m : GuestPermission) → passes (λ p. passes (union_row m p) 8) 8 ≡ true
unfolding passes union_row
union_table read = refl
union_table write = refl
union_table execute = refl

-- A set of permissions formed by `|=` of two sets of known bits has what either part has.
pub has-union :
    (p q : GuestPermissions) (m : GuestPermission)
    → IsKnown p
    → IsKnown q
    → has (union p q) m ≡ (has p m || has q m)
unfolding union_row
has-union p q m hp hq = same→eq _ _ (
    passes_at (union_row m p.bits) 8
      (passes_at (λ b. passes (union_row m b) 8) 8 (union_table m) p.bits hp) q.bits hq)

union_small : passes (λ p. passes (λ q. ltb (bit_or p q) 8) 8) 8 ≡ true
unfolding passes
union_small = refl

pub union-IsKnown : (p q : GuestPermissions) → IsKnown p → IsKnown q → IsKnown (union p q)
union-IsKnown p q hp hq = ltb→lt _ _ (
    passes_at (λ c. ltb (bit_or p.bits c) 8) 8
      (passes_at (λ b. passes (λ c. ltb (bit_or b c) 8) 8) 8 union_small p.bits hp) q.bits hq)

checked_table : passes (λ b. same (bit_and b 0xf8 == 0) (ltb b 8)) 256 ≡ true
unfolding passes same
checked_table = refl

-- An 8-bit pattern is accepted exactly when only known bits are set, and then kept as it is.
pub checked_from_bits_total :
    (b : ℕ)
    → b < 256
    → checked_from_bits b
      ≡ (if ltb b 8 then success (record { bits = b }) else failure invalid_permission_bits)
unfolding checked_from_bits
checked_from_bits_total b h =
    let e : (bit_and b 0xf8 == 0) ≡ ltb b 8 =
      same→eq _ _ (passes_at (λ b. same (bit_and b 0xf8 == 0) (ltb b 8)) 256 checked_table b h) in
    rw e (ground arith)

-- ===== src/Memory/Address.antt =====
-- include/astraea/memory/guest_address.hpp: checked arithmetic on 64-bit guest addresses and sizes,
-- and half-open ranges of guest addresses. An address or a size is the number that it wraps.
pub mod Ranges
use astraea.Prelude.{
  ℕ, ◌+◌, ◌-◌, ◌≤◌, ◌⊎◌, ◌≡◌, Bool, true, false, ◌||◌, Result, success, failure, u64_max, ltb, ◌==◌,
  if◌then◌else◌,
}

pub data AddressError : Type 0 where
  guest_range_overflow address_addition_overflow size_addition_overflow : AddressError
  size_subtraction_underflow : AddressError

-- GuestSize::checked_add and GuestSize::checked_subtract.
unfoldable pub size_add : ℕ → ℕ → Result ℕ AddressError
size_add lhs rhs =
    if ltb (u64_max - rhs) lhs then failure size_addition_overflow else success (lhs + rhs)

unfoldable pub size_subtract : ℕ → ℕ → Result ℕ AddressError
size_subtract lhs rhs =
    if ltb lhs rhs then failure size_subtraction_underflow else success (lhs - rhs)

-- GuestAddress::checked_add.
unfoldable pub checked_add : ℕ → ℕ → Result ℕ AddressError
checked_add base offset =
    if ltb (u64_max - offset) base
    then failure address_addition_overflow
    else success (base + offset)

pub record GuestRange : Type 0 where
  pub base : ℕ
  pub size : ℕ

-- GuestRange::create.
unfoldable pub create : ℕ → ℕ → Result GuestRange AddressError
create base size =
    let range : GuestRange = record { base = base; size = size } in
    if ltb 0 size
    then (if ltb (u64_max - (size - 1)) base then failure guest_range_overflow else success range)
    else success range

abbrev pub is_empty : GuestRange → Bool
is_empty r = r.size == 0

-- GuestRange::contains.
unfoldable pub contains : GuestRange → ℕ → Bool
contains r address =
    if is_empty r || ltb address r.base then false else ltb (address - r.base) r.size

-- GuestRange::overlaps.
unfoldable pub overlaps : GuestRange → GuestRange → Bool
unfolding contains
overlaps r other =
    if is_empty r || is_empty other then false else contains r other.base || contains other r.base

-- What the private constructor keeps: the last byte has a 64-bit address.
pub record IsRange (r : GuestRange) : Type 0 where
  pub base_fits : r.base ≤ u64_max
  pub last_fits : r.base + r.size ≤ u64_max + 1

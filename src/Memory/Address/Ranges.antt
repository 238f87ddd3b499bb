-- ===== src/Memory/Address/Ranges.antt =====
-- GuestRange: what its operations say of the addresses in a range.
use astraea.Prelude.{
  ℕ, ◌+◌, ◌≤◌, ◌<◌, ◌≡◌, refl, ◌↔◌, ◌⊎◌, inl, inr, true, success, failure, u64_max, ltb, Bool-cases,
  arith,
}
use astraea.Memory.Address.{guest_range_overflow, GuestRange, IsRange, create, contains, overlaps}

pub contains_iff :
    (r : GuestRange) (a : ℕ) → (contains r a ≡ true) ↔ ((r.base ≤ a) × (a < r.base + r.size))
unfolding contains
contains_iff r a = ground arith

-- `create` gives the range it is asked for, whose last byte has a 64-bit address, or refuses
-- because there is no such range.
pub create_total :
    (b s : ℕ)
    → b ≤ u64_max
    → s ≤ u64_max
    → ((r : GuestRange) × (create b s ≡ success r) × IsRange r × (r.base ≡ b) × (r.size ≡ s))
      ⊎ ((create b s ≡ failure guest_range_overflow) × (u64_max + 1 < b + s))
unfolding create
create_total b s hb hs = elim (Bool-cases (ltb (u64_max + 1) (b + s))) [
  | inl over ↦ inr (ground arith, ground arith)
  | inr fits ↦ inl (record { base = b; size = s }, ground arith, ground arith, refl, refl)
]

-- Two ranges overlap exactly when they share an address.
pub overlaps_iff :
    (r s : GuestRange)
    → (overlaps r s ≡ true) ↔ ((a : ℕ) × (contains r a ≡ true) × (contains s a ≡ true))
unfolding overlaps
overlaps_iff r s = (λ h. shared h, λ (a, p, q). ground arith)
  where
    shared : overlaps r s ≡ true → (a : ℕ) × (contains r a ≡ true) × (contains s a ≡ true)
    shared h = elim (Bool-cases (ltb r.base s.base)) [
      | inl below ↦ (s.base, ground arith, ground arith)
      | inr above ↦ (r.base, ground arith, ground arith)
    ]

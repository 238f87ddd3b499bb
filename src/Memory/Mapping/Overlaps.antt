-- ===== src/Memory/Mapping/Overlaps.antt =====
-- classify_overlap and mapping_intent_less.
use astraea.Prelude.Sorting.{sort, Sorted, sort-Sorted}
use astraea.Prelude.{
  ◌≤◌, List, ℕ, ◌<◌, ◌≡◌, ◌≢◌, ◌↔◌, ◌⊎◌, inl, inr, true, false, Bool-cases, arith,
}
use astraea.Memory.Address.{GuestRange, contains, overlaps}
use astraea.Memory.Address.Ranges.{overlaps_iff, contains_iff}
use astraea.Memory.Mapping.{
  MappingIntent, file, mapping_intent_less, kind_value, no_overlap, conflicting_initialized_bytes,
  classify_overlap, file_position_at, overlap_start,
}

overlaps_comm : (r s : GuestRange) → overlaps r s ≡ overlaps s r
unfolding overlaps
overlaps_comm r s = ground arith

-- The class of an overlap does not depend on the order of the two intents.
pub classify_overlap_comm : (l r : MappingIntent) → classify_overlap l r ≡ classify_overlap r l
unfolding classify_overlap
classify_overlap_comm l r = ground (arith, overlaps_comm l.range r.range)

-- `no_overlap` (the source's `none`) is the class of exactly the pairs that share no address.
pub classify_overlap-ne-no_overlap :
    (l r : MappingIntent)
    → (classify_overlap l r ≢ no_overlap)
      ↔ ((a : ℕ) × (contains l.range a ≡ true) × (contains r.range a ≡ true))
unfolding classify_overlap
classify_overlap-ne-no_overlap l r = (
  λ h. (overlaps_iff l.range r.range).0 (ground arith),
  λ s. ground (arith, (overlaps_iff l.range r.range).1 s),
)

agree_at_start :
    (l r : MappingIntent)
    → l.backing.kind ≡ file
    → r.backing.kind ≡ file
    → l.permissions.bits ≡ r.permissions.bits
    → overlaps l.range r.range ≡ true
    → classify_overlap l r ≢ conflicting_initialized_bytes
    → file_position_at l (overlap_start l r) ≡ file_position_at r (overlap_start l r)
unfolding classify_overlap
agree_at_start l r kl kr e o h = ground arith

-- Two file intents of one permission that overlap without `conflicting_initialized_bytes` give
-- every address that they share the same place in the file.
pub file_position_at-agree :
    (l r : MappingIntent) (a : ℕ)
    → l.backing.kind ≡ file
    → r.backing.kind ≡ file
    → l.permissions.bits ≡ r.permissions.bits
    → contains l.range a ≡ true
    → contains r.range a ≡ true
    → classify_overlap l r ≢ conflicting_initialized_bytes
    → file_position_at l a ≡ file_position_at r a
unfolding classify_overlap
file_position_at-agree l r a kl kr e p q h = omega (
  arith,
  (contains_iff l.range a).0 p,
  (contains_iff r.range a).0 q,
  agree_at_start l r kl kr e ((overlaps_iff l.range r.range).1 (a, p, q)) h,
)

-- The order that the comparator decides.
abbrev Precedes : MappingIntent → MappingIntent → Type 0
Precedes x y =
    (x.range.base < y.range.base)
    ⊎ ((x.range.base ≡ y.range.base)
        × ((x.range.size < y.range.size)
            ⊎ ((x.range.size ≡ y.range.size)
                × ((x.source_index < y.source_index)
                    ⊎ ((x.source_index ≡ y.source_index)
                        × (kind_value x.backing.kind < kind_value y.backing.kind))))))

less_iff : (x y : MappingIntent) → (mapping_intent_less x y ≡ true) ↔ Precedes x y
unfolding mapping_intent_less
less_iff x y = ground arith

Precedes-trans : (x y z : MappingIntent) → Precedes x y → Precedes y z → Precedes x z
Precedes-trans x y z p q = ground arith

Precedes-split : (x y z : MappingIntent) → Precedes x z → Precedes x y ⊎ Precedes y z
Precedes-split x y z p = ground arith

pub mapping_intent_less_trans :
    (x y z : MappingIntent)
    → mapping_intent_less x y ≡ true
    → mapping_intent_less y z ≡ true
    → mapping_intent_less x z ≡ true
mapping_intent_less_trans x y z p q =
    (less_iff x z).1 (Precedes-trans x y z ((less_iff x y).0 p) ((less_iff y z).0 q))

less_irrefl : (x : MappingIntent) → mapping_intent_less x x ≡ false
unfolding mapping_intent_less
less_irrefl x = ground arith

-- The comparator is a strict weak order, as `std::sort` demands: no intent is before itself, the
-- relation is transitive, and whatever is before `z` leaves any `y` after it or before `z`.
pub mapping_intent_less_order :
    (x y z : MappingIntent)
    → mapping_intent_less x z ≡ true
    → (mapping_intent_less x x ≡ false)
      × (mapping_intent_less z x ≡ false)
      × ((mapping_intent_less x y ≡ true) ⊎ (mapping_intent_less y z ≡ true))
mapping_intent_less_order x y z p = (less_irrefl x, less_asym, later)
  where
    less_asym : mapping_intent_less z x ≡ false
    less_asym = elim (Bool-cases (mapping_intent_less z x)) [
      | inl q ↦ cc (less_irrefl x, mapping_intent_less_trans x z x p q)
      | inr q ↦ q
    ]

    later : (mapping_intent_less x y ≡ true) ⊎ (mapping_intent_less y z ≡ true)
    later = elim (Precedes-split x y z ((less_iff x z).0 p)) [
      | inl q ↦ inl ((less_iff x y).1 q)
      | inr q ↦ inr ((less_iff y z).1 q)
    ]

less_asym : (x y : MappingIntent) → mapping_intent_less x y ≡ true → mapping_intent_less y x ≡ false
less_asym x y p = (mapping_intent_less_order x x y p).1

not_less_trans :
    (x y z : MappingIntent)
    → mapping_intent_less y x ≡ false
    → mapping_intent_less z y ≡ false
    → mapping_intent_less z x ≡ false
not_less_trans x y z p q = elim (Bool-cases (mapping_intent_less z x)) [
  | inl h ↦ ground (arith, mapping_intent_less_order z y x h)
  | inr h ↦ h
]

-- The intents in the order of their bases, with whatever else the comparator says.
abbrev pub InOrder : List MappingIntent → Type 0
InOrder = Sorted mapping_intent_less

pub sort-InOrder : (ms : List MappingIntent) → InOrder (sort mapping_intent_less ms)
sort-InOrder ms = sort-Sorted mapping_intent_less less_asym not_less_trans ms

pub base_le : (x y : MappingIntent) → mapping_intent_less y x ≡ false → x.range.base ≤ y.range.base
unfolding mapping_intent_less
base_le x y h = ground arith

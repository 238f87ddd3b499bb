-- ===== src/Loader/GuestImage/Clashes.antt =====
-- first_mapping_conflict of src/loader/guest_image.cpp: what a pair of indices that it gives means.
use astraea.Prelude.{
  ℕ, ◌+◌, ◌≤◌, ◌≡◌, refl, ◌≢◌, inl, inr, true, false, some, List, [], ◌∷◌, arith, u64_max, max,
  Bool-cases, Option-cases, All, Any, Any-map,
}
use mathlib.Core.Path.{subst}
use astraea.Prelude.Sorting.{sort, sort-Any-inv}
use astraea.Memory.Address.{contains, overlaps}
use astraea.Memory.Mapping.{
  MappingIntent, MappingBackingKind, file, zero_fill, anonymous, mapping_intent_less,
}
use astraea.Memory.Mapping.Segments.{ByteSource, file_byte, zero_byte, backing_source}
use astraea.Memory.ImageView.Create.{IsBacked, KindBacked}
use astraea.Memory.ImageView.Sources.{same_source}
use astraea.Loader.GuestImage.{conflict_with, initialized_overlap_conflicts, first_mapping_conflict}

-- The two mappings give one address different sources.
abbrev pub Differ : MappingIntent → MappingIntent → Type 0
Differ m k =
    (a : ℕ) × (contains m.range a ≡ true)
    × (contains k.range a ≡ true)
    × (backing_source m a ≢ backing_source k a)

differ_of_kind :
    (n : ℕ) (m k : MappingIntent) (x y : MappingBackingKind)
    → n ≤ u64_max
    → m.backing.kind ≡ x
    → k.backing.kind ≡ y
    → IsBacked n m
    → IsBacked n k
    → (a : ℕ) → a ≡ max m.range.base k.range.base
    → contains m.range a ≡ true
    → contains k.range a ≡ true
    → initialized_overlap_conflicts m k ≡ true
    → same_source (backing_source m a) (backing_source k a) ≡ false
unfolding initialized_overlap_conflicts overlaps contains
differ_of_kind n m k file file small ex ey bm bk a at hm hk c =
    let fm : m.backing.file_offset + m.range.size ≤ n = subst (KindBacked n m) ex bm.bytes in
    let fk : k.backing.file_offset + k.range.size ≤ n = subst (KindBacked n k) ey bk.bytes in
    ground arith
differ_of_kind n m k file zero_fill small ex ey bm bk a at hm hk c = ground arith
differ_of_kind n m k file anonymous small ex ey bm bk a at hm hk c =
    absurd (subst (KindBacked n k) ey bk.bytes)
differ_of_kind n m k zero_fill file small ex ey bm bk a at hm hk c = ground arith
differ_of_kind n m k zero_fill zero_fill small ex ey bm bk a at hm hk c = ground arith
differ_of_kind n m k zero_fill anonymous small ex ey bm bk a at hm hk c =
    absurd (subst (KindBacked n k) ey bk.bytes)
differ_of_kind n m k anonymous y small ex ey bm bk a at hm hk c =
    absurd (subst (KindBacked n m) ex bm.bytes)

same_source_refl : (s : ByteSource) → same_source s s ≡ true
same_source_refl (file_byte i) = ground arith
same_source_refl zero_byte = refl

not_same : (s t : ByteSource) → same_source s t ≡ false → s ≢ t
not_same s t h e = let same = subst (λ u. same_source s u ≡ true) e (same_source_refl s) in cc

overlap_of :
    (m k : MappingIntent)
    → initialized_overlap_conflicts m k ≡ true
    → overlaps m.range k.range ≡ true
unfolding initialized_overlap_conflicts
overlap_of m k h = ground arith

overlap_start :
    (m k : MappingIntent)
    → overlaps m.range k.range ≡ true
    → (contains m.range (max m.range.base k.range.base) ≡ true)
      × (contains k.range (max m.range.base k.range.base) ≡ true)
unfolding overlaps contains
overlap_start m k h = (ground arith, ground arith)

conflicts-Differ :
    (n : ℕ) (m k : MappingIntent)
    → n ≤ u64_max
    → IsBacked n m
    → IsBacked n k
    → initialized_overlap_conflicts m k ≡ true
    → Differ m k
conflicts-Differ n m k small bm bk h =
    let (hm, hk) = overlap_start m k (overlap_of m k h) in
    let a = max m.range.base k.range.base in
    let differ =
      differ_of_kind n m k m.backing.kind k.backing.kind small refl refl bm bk a refl hm hk h in
    (a, hm, hk, not_same (backing_source m a) (backing_source k a) differ)

-- What a pair of indices that the inner loop gives stands for.
abbrev pub Pair : ℕ → ℕ → MappingIntent → MappingIntent → Type 0
Pair i j m k = (i ≡ m.source_index) × (j ≡ k.source_index) × Differ m k

module _ (n : ℕ) (small : n ≤ u64_max) (i j : ℕ) where
  conflict_with-Pair :
      (m : MappingIntent) (ks : List MappingIntent)
      → IsBacked n m
      → All (IsBacked n) ks
      → conflict_with m ks ≡ some (i, j)
      → Any (Pair i j m) ks
  unfolding conflict_with
  conflict_with-Pair m [] bm bks h = cc
  conflict_with-Pair m (k ∷ ks) bm bks h = elim (Bool-cases (contains m.range k.range.base)) [
    | inl inside ↦ elim (Bool-cases (initialized_overlap_conflicts m k)) [
      | inl clash ↦ inl (ground arith, ground arith, conflicts-Differ n m k small bm bks.0 clash)
      | inr agree ↦ inr (conflict_with-Pair m ks bm bks.1 (ground arith))
    ]
    | inr past ↦ ground arith
  ]

  pub first_mapping_conflict-Pair :
      (ms : List MappingIntent)
      → All (IsBacked n) ms
      → first_mapping_conflict ms ≡ some (i, j)
      → Any (λ m. Any (Pair i j m) ms) ms
  unfolding first_mapping_conflict
  first_mapping_conflict-Pair [] bms h = cc
  first_mapping_conflict-Pair (m ∷ ms) bms h = elim (Option-cases (conflict_with m ms)) [
    | inl none_here ↦ inr (
        Any-map (λ x. Any (Pair i j x) ms) (λ x. Any (Pair i j x) (m ∷ ms)) ms (λ x p. inr p)
          (first_mapping_conflict-Pair ms bms.1 (ground arith)))
    | inr (pair, here) ↦ inl (inr (conflict_with-Pair m ms bms.0 bms.1 (ground arith)))
  ]

  -- The mappings before they are sorted.
  pub unsorted :
      (ms : List MappingIntent)
      → Any (λ m. Any (Pair i j m) (sort mapping_intent_less ms)) (sort mapping_intent_less ms)
      → Any (λ m. Any (Pair i j m) ms) ms
  unsorted ms h =
      sort-Any-inv mapping_intent_less (λ m. Any (Pair i j m) ms) ms
        (Any-map (λ m. Any (Pair i j m) (sort mapping_intent_less ms)) (λ m. Any (Pair i j m) ms)
          (sort mapping_intent_less ms) (λ m p. sort-Any-inv mapping_intent_less (Pair i j m) ms p)
          h)

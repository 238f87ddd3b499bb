-- ===== src/Loader/GuestImage/Conflicts.antt =====
-- first_mapping_conflict of src/loader/guest_image.cpp: what it means that it finds nothing.
use astraea.Prelude.{
  ℕ, ◌≤◌, ◌≡◌, refl, ◌≢◌, inl, inr, true, false, none, List, [], ◌∷◌, arith, Bool-cases,
  Option-cases,
}
use astraea.Memory.Address.{contains, overlaps}
use astraea.Memory.Address.Ranges.{contains_iff}
use astraea.Memory.Mapping.{MappingIntent, MappingBackingKind, file, zero_fill, anonymous}
use astraea.Memory.Mapping.Segments.{backing_source, sources_at}
use astraea.Memory.Mapping.Overlaps.{InOrder, base_le}
use astraea.Memory.ImageView.Sources.{agreed, disagreed, same_source, agree_with, agreement}
use astraea.Memory.ImageView.Read.{sources_at-stop}
use astraea.Loader.GuestImage.{initialized_overlap_conflicts, conflict_with, first_mapping_conflict}

-- Two mappings that do not conflict give an address that both hold the same source.
same_backing_source :
    (m k : MappingIntent) (a : ℕ) (x y : MappingBackingKind)
    → m.backing.kind ≡ x
    → k.backing.kind ≡ y
    → m.range.base ≤ k.range.base
    → contains m.range a ≡ true
    → contains k.range a ≡ true
    → initialized_overlap_conflicts m k ≡ false
    → same_source (backing_source m a) (backing_source k a) ≡ true
unfolding initialized_overlap_conflicts overlaps contains
same_backing_source m k a file file ex ey order hm hk c = ground arith
same_backing_source m k a file zero_fill ex ey order hm hk c = ground arith
same_backing_source m k a file anonymous ex ey order hm hk c = ground arith
same_backing_source m k a zero_fill file ex ey order hm hk c = ground arith
same_backing_source m k a zero_fill zero_fill ex ey order hm hk c = ground arith
same_backing_source m k a zero_fill anonymous ex ey order hm hk c = ground arith
same_backing_source m k a anonymous y ex ey order hm hk c = ground arith

-- With no conflict, every source of the address after a mapping that holds it is that mapping's.
agreed_with :
    (m : MappingIntent) (ks : List MappingIntent) (a : ℕ)
    → conflict_with m ks ≡ none
    → InOrder (m ∷ ks)
    → contains m.range a ≡ true
    → agree_with (backing_source m a) (sources_at ks a) ≡ agreed (backing_source m a)
unfolding conflict_with
agreed_with m [] a free order hm = refl
agreed_with m (k ∷ ks) a free order hm =
    let next : InOrder (m ∷ ks) = (order.0.1, order.1.1) in
    let bases = base_le m k order.0.0 in
    elim (Bool-cases (contains m.range k.range.base)) [
      | inl inside ↦ elim (Bool-cases (initialized_overlap_conflicts m k)) [
        | inl clash ↦ ground arith
        | inr agree ↦
            let rest : conflict_with m ks ≡ none = ground arith in
            let ih = agreed_with m ks a rest next hm in
            elim (Bool-cases (contains k.range a)) [
              | inl hk ↦ rw hk (
                  rw
                    (same_backing_source m k a m.backing.kind k.backing.kind refl refl bases hm hk
                      agree)
                    ih)
              | inr other ↦ rw other ih
            ]
      ]
      | inr past ↦
          rw
            (sources_at-stop k ks a
              (ground (arith, contains_iff m.range a, contains_iff m.range k.range.base)) order.1)
            refl
    ]

-- With no conflict among sorted mappings, the sources of an address agree, or there are none.
pub first_mapping_conflict-agreement :
    (ms : List MappingIntent) (a : ℕ)
    → first_mapping_conflict ms ≡ none
    → InOrder ms
    → agreement (sources_at ms a) ≢ disagreed
unfolding first_mapping_conflict
first_mapping_conflict-agreement [] a free order = λ e. cc
first_mapping_conflict-agreement (m ∷ ms) a free order = elim (Option-cases (conflict_with m ms)) [
  | inl here ↦
      let rest : first_mapping_conflict ms ≡ none = ground arith in
      elim (Bool-cases (contains m.range a)) [
        | inl hm ↦ rw hm (rw (agreed_with m ms a here order hm) (λ e. cc))
        | inr other ↦ rw other (first_mapping_conflict-agreement ms a rest order.1)
      ]
  | inr (pair, e) ↦ ground arith
]

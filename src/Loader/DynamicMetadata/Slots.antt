-- ===== src/Loader/DynamicMetadata/Slots.antt =====
-- The array of values that build_sce_dynamic_metadata keeps, and what an entry makes of it.
use astraea.Prelude.{
  ==→ne, ℕ, zero, suc, ◌<◌, ◌≡◌, refl, ap, ◌≢◌, ◌⊎◌, inl, inr, Option, none, some, List, [], ◌∷◌,
  arith, ◌==◌, if◌then◌else◌, ==_iff, Bool-cases, Option-cases, length, get_elem?, get_elem?-lt,
  All, Any,
}
use astraea.Prelude.Attempts.{Ensures}
use astraea.Loader.Dynamic.{DynamicEntry}
use astraea.Loader.DynamicMetadata.{SingletonValue, singleton_of}
use astraea.Loader.DynamicMetadata.Sce.{
  SceDynamicMetadataError, SceDynamicRecord, SceDynamicTagKind, classify_sce_dynamic_tag,
  sce_singleton_slot, record_of, set_slot, merge_slot, merge_kind, sce_records,
  build_sce_dynamic_metadata,
}

abbrev pub Slots : Type 0
Slots = List (Option SingletonValue)

pub length-set_slot :
    (values : Slots) (i : ℕ) (v : Option SingletonValue)
    → length (set_slot values i v) ≡ length values
unfolding set_slot
length-set_slot [] i v = refl
length-set_slot (s ∷ ss) zero v = refl
length-set_slot (s ∷ ss) (suc i) v = ap suc (length-set_slot ss i v)

pub get_elem?-set_slot :
    (values : Slots) (i j : ℕ) (v : Option SingletonValue)
    → i < length values
    → get_elem? (set_slot values i v) j ≡ (if i == j then some v else get_elem? values j)
unfolding set_slot
get_elem?-set_slot [] i j v h = ground arith
get_elem?-set_slot (s ∷ ss) zero zero v h = ground arith
get_elem?-set_slot (s ∷ ss) zero (suc j) v h = ground arith
get_elem?-set_slot (s ∷ ss) (suc i) zero v h = ground arith
get_elem?-set_slot (s ∷ ss) (suc i) (suc j) v h =
    let ih = get_elem?-set_slot ss i j v (omega (arith, h)) in ground arith

-- The slot of an entry's tag.
abbrev pub slot_of : DynamicEntry → Option ℕ
slot_of e = sce_singleton_slot (classify_sce_dynamic_tag e.tag)

slot_of-lt : (e : DynamicEntry) (i : ℕ) → slot_of e ≡ some i → i < 5
unfolding sce_singleton_slot
slot_of-lt e i h = go (classify_sce_dynamic_tag e.tag) h
  where
    go : (k : SceDynamicTagKind) → sce_singleton_slot k ≡ some i → i < 5
    go astraea.Loader.DynamicMetadata.Sce.module_attributes h = ground arith
    go astraea.Loader.DynamicMetadata.Sce.hash_table_size h = ground arith
    go astraea.Loader.DynamicMetadata.Sce.symbol_table_size h = ground arith
    go astraea.Loader.DynamicMetadata.Sce.original_filename h = ground arith
    go astraea.Loader.DynamicMetadata.Sce.module_information h = ground arith
    go astraea.Loader.DynamicMetadata.Sce.export_library_attributes h = ground arith
    go astraea.Loader.DynamicMetadata.Sce.import_library_attributes h = ground arith
    go astraea.Loader.DynamicMetadata.Sce.needed_module h = ground arith
    go astraea.Loader.DynamicMetadata.Sce.export_library h = ground arith
    go astraea.Loader.DynamicMetadata.Sce.import_library h = ground arith
    go astraea.Loader.DynamicMetadata.Sce.unknown h = ground arith

-- An entry whose tag has this slot has this value.
abbrev pub HasValue : ℕ → ℕ → DynamicEntry → Type 0
HasValue i value e = (slot_of e ≢ some i) ⊎ (e.value ≡ value)

-- The value in a slot, where there is one.
abbrev pub Matches : Option SingletonValue → ℕ → Type 0
Matches none value = Unit {0}
Matches (some s) value = s.value ≡ value

abbrev pub Agree : Slots → List DynamicEntry → Type 0
Agree values es =
    (i : ℕ)
    → i < 5
    → (v : Option SingletonValue) → get_elem? values i ≡ some v
    → (value : ℕ) × Matches v value × All (HasValue i value) es

-- An entry with this slot, this index and this value.
abbrev pub Holder : ℕ → Option ℕ → ℕ → DynamicEntry → Type 0
Holder i index value e = (slot_of e ≡ some i) × (index ≡ some e.index) × (e.value ≡ value)

abbrev pub Earlier : Slots → ℕ → Option ℕ → ℕ → Type 0
Earlier values i index value =
    (s : SingletonValue) × (get_elem? values i ≡ some (some s))
    × (index ≡ some s.source_entry_index)
    × (s.value ≡ value)

abbrev pub Clash : Slots → List DynamicEntry → SceDynamicMetadataError → Type 0
Clash values es x =
    (i : ℕ) × (value : ℕ) × (other : ℕ) × (value ≢ other)
    × Any (Holder i x.source_entry_index value) es
    × (Earlier values i x.conflicting_entry_index other
        ⊎ Any (Holder i x.conflicting_entry_index other) es)

-- What an entry makes of the array.
abbrev pub Next : Slots → DynamicEntry → Slots → Type 0
Next values e next =
    ((next ≡ values) × (slot_of e ≡ none))
    ⊎ ((j : ℕ) × (slot_of e ≡ some j)
        × (j < length values)
        × (((s : SingletonValue) × (get_elem? values j ≡ some (some s))
              × (s.value ≡ e.value)
              × (next ≡ values))
            ⊎ ((get_elem? values j ≡ some none)
                × (next ≡ set_slot values j (some (singleton_of e))))))

merge_slot-Ensures :
    (values : Slots) (e : DynamicEntry) (j : ℕ) (v : Option SingletonValue)
    → slot_of e ≡ some j
    → j < length values
    → get_elem? values j ≡ some v
    → Ensures (Next values e) (Clash values (e ∷ [])) (merge_slot values j e)
unfolding merge_slot
merge_slot-Ensures values e j none at inside here = rw here (inr (j, at, inside, inr (here, refl)))
merge_slot-Ensures values e j (some s) at inside here =
    rw here (elim (Bool-cases (s.value == e.value)) [
      | inl same ↦
          rw same (inr (j, at, inside, inl (s, here, (==_iff s.value e.value).0 same, refl)))
      | inr differ ↦ rw differ (
        j,
        e.value,
        s.value,
        omega (arith, ==→ne s.value e.value differ),
        inl (at, refl, refl),
        inl (s, here, refl, refl),
      )
    ])

pub merge_kind-Ensures :
    (values : Slots) (e : DynamicEntry)
    → length values ≡ 5
    → Ensures (Next values e) (Clash values (e ∷ [])) (merge_kind values e)
unfolding merge_kind
merge_kind-Ensures values e five = elim (Option-cases (slot_of e)) [
  | inl n ↦ rw (Ensures, n) (inl (refl, n))
  | inr (j, at) ↦
      (let inside : j < length values = omega (arith, five, slot_of-lt e j at) in
        let (v, here) = get_elem?-lt values j inside in
        let merged = merge_slot-Ensures values e j v at inside here in rw (merge_kind, at) merged)
]

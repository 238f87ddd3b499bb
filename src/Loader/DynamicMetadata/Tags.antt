-- ===== src/Loader/DynamicMetadata/Tags.antt =====
-- The Sony tags by their numbers, apart from the functions that classify them.
use astraea.Prelude.{
  Option, ap, ◌<◌, ◌⊎◌, All, Any, inl, inr, ℕ, zero, suc, ◌≡◌, ◌≢◌, ◌⊎◌, some, List, [], ◌∷◌, arith,
  get_elem?,
}
use astraea.Loader.Dynamic.{DynamicEntry}
use astraea.Loader.DynamicMetadata.Sce.{
  SceDynamicTagKind, module_attributes, export_library_attributes, import_library_attributes,
  hash_table_size, symbol_table_size, original_filename, module_information, needed_module,
  export_library, import_library, unknown, classify_sce_dynamic_tag, sce_singleton_slot,
}
use astraea.Loader.DynamicMetadata.Slots.{slot_of, HasValue, Holder}

abbrev kinds : List (ℕ × SceDynamicTagKind)
kinds =
    (0x61000011, module_attributes)
    ∷ (0x61000017, export_library_attributes)
    ∷ (0x61000019, import_library_attributes)
    ∷ (0x6100003d, hash_table_size)
    ∷ (0x6100003f, symbol_table_size)
    ∷ (0x61000041, original_filename)
    ∷ (0x61000043, module_information)
    ∷ (0x61000045, needed_module)
    ∷ (0x61000047, export_library)
    ∷ (0x61000049, import_library)
    ∷ []

-- The kind is that of the tag in a table, or unknown where the table does not have the tag.
abbrev pub InTable : List (ℕ × SceDynamicTagKind) → ℕ → SceDynamicTagKind → Type 0
InTable [] tag kind = kind ≡ unknown
InTable ((t, k) ∷ rest) tag kind = ((tag ≡ t) × (kind ≡ k)) ⊎ ((tag ≢ t) × InTable rest tag kind)

abbrev pub IsKind : ℕ → SceDynamicTagKind → Type 0
IsKind tag kind = InTable kinds tag kind

-- The tags that a table may have with one value alone, by their slots.
abbrev pub singleton_tags : List ℕ
singleton_tags = 0x61000011 ∷ 0x6100003d ∷ 0x6100003f ∷ 0x61000041 ∷ 0x61000043 ∷ []

pub classify-IsKind : (tag : ℕ) → IsKind tag (classify_sce_dynamic_tag tag)
unfolding classify_sce_dynamic_tag
classify-IsKind tag = ground arith

slot_tag : (e : DynamicEntry) (i : ℕ) → slot_of e ≡ some i → get_elem? singleton_tags i ≡ some e.tag
unfolding classify_sce_dynamic_tag sce_singleton_slot
slot_tag e i h = ground arith

tag_slot :
    (e : DynamicEntry) (i t : ℕ)
    → get_elem? singleton_tags i ≡ some t
    → e.tag ≡ t
    → slot_of e ≡ some i
unfolding classify_sce_dynamic_tag sce_singleton_slot
tag_slot e zero t h same = ground arith
tag_slot e (suc zero) t h same = ground arith
tag_slot e (suc (suc zero)) t h same = ground arith
tag_slot e (suc (suc (suc zero))) t h same = ground arith
tag_slot e (suc (suc (suc (suc zero)))) t h same = ground arith
tag_slot e (suc (suc (suc (suc (suc i))))) t h same = cc

-- An entry with this tag, this index and this value.
abbrev pub Tagged : ℕ → Option ℕ → ℕ → DynamicEntry → Type 0
Tagged tag index value e = (e.tag ≡ tag) × (index ≡ some e.index) × (e.value ≡ value)

pub tag_place :
    (tag : ℕ)
    → Any (λ t. t ≡ tag) singleton_tags
    → (i : ℕ) × (i < 5) × (get_elem? singleton_tags i ≡ some tag)
tag_place tag (inl e) = (0, omega arith, ap some e)
tag_place tag (inr (inl e)) = (1, omega arith, ap some e)
tag_place tag (inr (inr (inl e))) = (2, omega arith, ap some e)
tag_place tag (inr (inr (inr (inl e)))) = (3, omega arith, ap some e)
tag_place tag (inr (inr (inr (inr (inl e))))) = (4, omega arith, ap some e)
tag_place tag (inr (inr (inr (inr (inr e))))) = absurd e

pub place_tag : (ts : List ℕ) (i tag : ℕ) → get_elem? ts i ≡ some tag → Any (λ t. t ≡ tag) ts
place_tag [] i tag h = cc
place_tag (t ∷ ts) zero tag h = inl (cc)
place_tag (t ∷ ts) (suc i) tag h = inr (place_tag ts i tag h)

pub tag_values :
    (es : List DynamicEntry) (i tag value : ℕ)
    → get_elem? singleton_tags i ≡ some tag
    → All (HasValue i value) es
    → All (λ e. (e.tag ≢ tag) ⊎ (e.value ≡ value)) es
tag_values [] i tag value h a = tt
tag_values (e ∷ es) i tag value h (inl other, a) =
    (inl (λ same. other (tag_slot e i tag h same)), tag_values es i tag value h a)
tag_values (e ∷ es) i tag value h (inr same, a) = (inr same, tag_values es i tag value h a)

-- The tag of the first holder of a slot.
pub Holder-tag :
    (es : List DynamicEntry) (i value : ℕ) (index : Option ℕ)
    → Any (Holder i index value) es
    → (tag : ℕ) × (get_elem? singleton_tags i ≡ some tag)
Holder-tag [] i value index h = absurd h
Holder-tag (e ∷ es) i value index (inl h) = (e.tag, slot_tag e i h.0)
Holder-tag (e ∷ es) i value index (inr h) = Holder-tag es i value index h

pub Holder-Tagged :
    (i tag value : ℕ) (index : Option ℕ) (e : DynamicEntry)
    → get_elem? singleton_tags i ≡ some tag
    → Holder i index value e
    → Tagged tag index value e
Holder-Tagged i tag value index e h (slot, at, holds) =
    let here = slot_tag e i slot in (cc, at, holds)

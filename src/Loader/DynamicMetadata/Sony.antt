-- ===== src/Loader/DynamicMetadata/Sony.antt =====
-- What the records of the Sony tags say of the dynamic table.
use mathlib.Core.Path.{subst}
use astraea.Prelude.{
  Any-map, ==→ne, ℕ, zero, suc, ◌≡◌, refl, sym, ap, ◌∙◌, ◌≢◌, ◌⊎◌, inl, inr, Option, none, some,
  List, [], ◌∷◌, map, arith, ◌==◌, ==_iff, Bool-cases, length, get_elem?, get_elem?-lt, All, Any,
}
use astraea.Prelude.Attempts.{Ensures-both, Ensures-failure, Ensures, Ensures->>=}
use astraea.Loader.Dynamic.{DynamicEntry, DynamicTable}
use astraea.Loader.DynamicMetadata.{SingletonValue, singleton_of}
use astraea.Loader.DynamicMetadata.Sce.{
  SceDynamicMetadataError, SceDynamicRecord, record_of, sce_records, build_sce_dynamic_metadata,
}
use astraea.Loader.DynamicMetadata.Tags.{
  IsKind, singleton_tags, classify-IsKind, Tagged, tag_place, place_tag, tag_values, Holder-tag,
  Holder-Tagged,
}
use astraea.Loader.DynamicMetadata.Slots.{
  Slots, Matches, Agree, Earlier, Clash, Next, length-set_slot, get_elem?-set_slot,
  merge_kind-Ensures, slot_of, Holder,
}

Next-length :
    (values : Slots) (e : DynamicEntry) (next : Slots)
    → Next values e next
    → length next ≡ length values
Next-length values e next (inl (same, n)) = ap length same
Next-length values e next (inr (j, at, inside, inl (s, here, value, same))) = ap length same
Next-length values e next (inr (j, at, inside, inr (here, set))) =
    ap length set ∙ length-set_slot values j (some (singleton_of e))

slot_unique :
    (values : Slots) (i : ℕ) (v w : Option SingletonValue)
    → get_elem? values i ≡ some v
    → get_elem? values i ≡ some w
    → v ≡ w
slot_unique values i v w e f = cc

other_slot : (e : DynamicEntry) (i j : ℕ) → i ≢ j → slot_of e ≡ some j → slot_of e ≢ some i
other_slot e i j ne at k = ne (cc)

Next-Agree :
    (values : Slots) (e : DynamicEntry) (next : Slots) (es : List DynamicEntry)
    → Next values e next
    → Agree next es
    → Agree values (e ∷ es)
Next-Agree values e next es (inl (same, n)) a i small v here =
    let (value, m, all) = a i small v (rw same here) in (value, m, (inl (λ k. ground arith), all))
Next-Agree values e next es (inr (j, at, inside, inl (s, there, agrees, same))) a i small v here =
    let (value, m, all) = a i small v (rw same here) in
    elim (Bool-cases (i == j)) [
      | inl eq ↦
          (let is : i ≡ j = (==_iff i j).0 eq in
            let held : v ≡ some s = slot_unique values i v (some s) here (rw is there) in
            let of_s : s.value ≡ value = subst (λ w. Matches w value) held m in
            (value, m, (inr (sym agrees ∙ of_s), all)))
      | inr ne ↦ (value, m, (inl (λ k. other_slot e i j (==→ne i j ne) at k), all))
    ]
Next-Agree values e next es (inr (j, at, inside, inr (empty, set))) a i small v here =
    let stored = get_elem?-set_slot values j i (some (singleton_of e)) inside in
    elim (Bool-cases (j == i)) [
      | inl eq ↦
          (let is : j ≡ i = (==_iff j i).0 eq in
            let held : v ≡ none = slot_unique values i v none here (rw (sym is) empty) in
            let now : get_elem? next i ≡ some (some (singleton_of e)) =
              ap (λ n. get_elem? n i) set ∙ rw eq at stored in
            let (value, m, all) = a i small (some (singleton_of e)) now in
            (value, subst (λ w. Matches w value) (sym held) tt, (inr m, all)))
      | inr ne ↦
          (let now : get_elem? next i ≡ some v =
              ap (λ n. get_elem? n i) set ∙ (rw ne at stored ∙ here) in
            let (value, m, all) = a i small v now in
            (value, m, (inl (λ k. other_slot e i j (λ q. ==→ne j i ne (sym q)) at k), all)))
    ]

Clash-widen :
    (values : Slots) (e : DynamicEntry) (es : List DynamicEntry) (x : SceDynamicMetadataError)
    → Clash values (e ∷ []) x
    → Clash values (e ∷ es) x
Clash-widen values e es x (i, value, other, differ, inl h, inl k) =
    (i, value, other, differ, inl h, inl k)
Clash-widen values e es x (i, value, other, differ, inl h, inr (inl k)) =
    (i, value, other, differ, inl h, inr (inl k))
Clash-widen values e es x (i, value, other, differ, inl h, inr (inr k)) = absurd k
Clash-widen values e es x (i, value, other, differ, inr h, k) = absurd h

some_same : (s t : SingletonValue) → some (some s) ≡ some (some t) → s ≡ t
some_same s t e = cc

Next-Earlier :
    (values : Slots) (e : DynamicEntry) (next : Slots) (i : ℕ) (index : Option ℕ) (value : ℕ)
    → Next values e next
    → Earlier next i index value
    → Earlier values i index value ⊎ Holder i index value e
Next-Earlier values e next i index value (inl (same, n)) (s, here, at, holds) =
    inl (s, rw same at here, at, holds)
Next-Earlier values e next i index value (inr (j, slot, inside, inl (t, there, agrees, same)))
      (s, here, at, holds) =
    inl (s, rw same at here, at, holds)
Next-Earlier values e next i index value (inr (j, slot, inside, inr (empty, set)))
      (s, here, at, holds) =
    let stored =
      ap (λ n. get_elem? n i) set ∙ get_elem?-set_slot values j i (some (singleton_of e)) inside in
    elim (Bool-cases (j == i)) [
      | inl eq ↦
          (let same : s ≡ singleton_of e =
              some_same s (singleton_of e) (sym here ∙ rw eq at stored) in
            inr (
              slot ∙ ap some ((==_iff j i).0 eq),
              at ∙ ap (λ t. some t.source_entry_index) same,
              sym (ap (λ t. t.value) same) ∙ holds,
            ))
      | inr ne ↦ inl (s, sym (rw ne at stored) ∙ here, at, holds)
    ]

Next-Clash :
    (values : Slots) (e : DynamicEntry) (next : Slots) (es : List DynamicEntry)
    (x : SceDynamicMetadataError)
    → Next values e next
    → Clash next es x
    → Clash values (e ∷ es) x
Next-Clash values e next es x n (i, value, other, differ, h, inr k) =
    (i, value, other, differ, inr h, inr (inr k))
Next-Clash values e next es x n (i, value, other, differ, h, inl k) =
    elim (Next-Earlier values e next i _ other n k) [
      | inl before ↦ (i, value, other, differ, inr h, inl before)
      | inr here ↦ (i, value, other, differ, inr h, inr (inl here))
    ]

abbrev Recorded : Slots → List DynamicEntry → List SceDynamicRecord → Type 0
Recorded values es records = (records ≡ map record_of es) × Agree values es

sce_records-Ensures :
    (values : Slots) (es : List DynamicEntry)
    → length values ≡ 5
    → Ensures (Recorded values es) (Clash values es) (sce_records values es)
unfolding sce_records
sce_records-Ensures values [] five = (refl, λ i small v here. start v)
  where
    start : (v : Option SingletonValue) → (value : ℕ) × Matches v value × Unit {0}
    start none = (0, tt, tt)
    start (some s) = (s.value, refl, tt)
sce_records-Ensures values (e ∷ es) five =
    let P = Recorded values (e ∷ es) in
    let Q = Clash values (e ∷ es) in
    Ensures->>= (Next values e) Q P _ _
      (Ensures-failure (Next values e) (Clash values (e ∷ [])) Q _
        (merge_kind-Ensures values e five) (λ x c. Clash-widen values e es x c))
      (λ next made n.
        Ensures->>= (Recorded next es) Q P _ _
          (Ensures-failure (Recorded next es) (Clash next es) Q _
            (sce_records-Ensures next es (Next-length values e next n ∙ five))
            (λ x c. Next-Clash values e next es x n c))
          (λ rest read r. (ap (λ l. record_of e ∷ l) r.0, Next-Agree values e next es n r.1)))

-- Two entries with one singleton tag whose values differ, as the error names them.
abbrev pub NamesConflict : List DynamicEntry → SceDynamicMetadataError → Type 0
NamesConflict es x =
    (tag : ℕ) × (value : ℕ) × (other : ℕ) × Any (λ t. t ≡ tag) singleton_tags
    × (value ≢ other)
    × Any (Tagged tag x.source_entry_index value) es
    × Any (Tagged tag x.conflicting_entry_index other) es

-- One record for each entry, in order, with the kind of its tag, and one value for each singleton
-- tag.
abbrev pub IsSceMetadata : List DynamicEntry → List SceDynamicRecord → Type 0
IsSceMetadata es records =
    (records ≡ map record_of es)
    × All (λ e. IsKind e.tag (record_of e).kind) es
    × ((tag : ℕ)
        → Any (λ t. t ≡ tag) singleton_tags
        → (value : ℕ) × All (λ e. (e.tag ≢ tag) ⊎ (e.value ≡ value)) es)

kinds_of : (es : List DynamicEntry) → All (λ e. IsKind e.tag (record_of e).kind) es
kinds_of [] = tt
kinds_of (e ∷ es) = (classify-IsKind e.tag, kinds_of es)

abbrev empty_slots : Slots
empty_slots = none ∷ none ∷ none ∷ none ∷ none ∷ []

empty_slot : (i : ℕ) (v : Option SingletonValue) → get_elem? empty_slots i ≡ some v → v ≡ none
empty_slot zero v h = cc
empty_slot (suc zero) v h = cc
empty_slot (suc (suc zero)) v h = cc
empty_slot (suc (suc (suc zero))) v h = cc
empty_slot (suc (suc (suc (suc zero)))) v h = cc
empty_slot (suc (suc (suc (suc (suc i))))) v h = cc

Clash-NamesConflict :
    (es : List DynamicEntry) (x : SceDynamicMetadataError)
    → Clash empty_slots es x
    → NamesConflict es x
Clash-NamesConflict es x (i, value, other, differ, h, inr k) =
    let (tag, place) = Holder-tag es i value x.source_entry_index h in
    (
      tag,
      value,
      other,
      place_tag singleton_tags i tag place,
      differ,
      Any-map (Holder i x.source_entry_index value) (Tagged tag x.source_entry_index value) es
          (λ e q. Holder-Tagged i tag value x.source_entry_index e place q) h,
      Any-map (Holder i x.conflicting_entry_index other)
          (Tagged tag x.conflicting_entry_index other) es
          (λ e q. Holder-Tagged i tag other x.conflicting_entry_index e place q) k,
    )
Clash-NamesConflict es x (i, value, other, differ, h, inl (s, here, at, k)) =
    let no : some s ≡ none = empty_slot i (some s) here in cc

-- For any dynamic table, building the metadata of the Sony tags gives a result or an error. On
-- success there is one record for each entry, in order, with the kind that the number of its tag
-- has, and all entries with one of the five singleton tags have one value. An error names two
-- entries with one singleton tag and different values.
pub build_sce_dynamic_metadata_lem :
    (table : DynamicTable)
    → Ensures
        (IsSceMetadata table.entries)
        (NamesConflict table.entries)
        (build_sce_dynamic_metadata table)
unfolding build_sce_dynamic_metadata
build_sce_dynamic_metadata_lem table =
    let es = table.entries in
    Ensures-both (Recorded empty_slots es) (IsSceMetadata es) (Clash empty_slots es)
      (NamesConflict es) _ (sce_records-Ensures empty_slots es refl)
      (λ records r. (
        r.0,
        kinds_of es,
        λ tag among.
            let (i, small, place) = tag_place tag among in
            let (v, here) = get_elem?-lt empty_slots i small in
            let (value, m, all) = r.1 i small v here in
            (value, tag_values es i tag value place all),
      ))
      (λ x c. Clash-NamesConflict es x c)

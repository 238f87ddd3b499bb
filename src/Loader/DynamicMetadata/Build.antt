-- ===== src/Loader/DynamicMetadata/Build.antt =====
-- What the string metadata says of the dynamic table.
use astraea.Prelude.{
  ℕ, ◌≤◌, ◌≡◌, refl, sym, ap, inl, inr, Option, none, some, List, [], ◌∷◌, ◌==◌, u64_max,
  Bool-cases, All,
}
use astraea.Prelude.Attempts.{Ensures, Ensures->>=}
use astraea.Memory.Address.{IsRange}
use astraea.Memory.Address.Ranges.{create_total}
use astraea.Loader.Dynamic.{DynamicEntry, DynamicTable}
use astraea.Loader.DynamicString.{DynamicStringRef, DynamicStringTableDescriptor}
use astraea.Loader.DynamicMetadata.{
  SingletonValue, DynamicStringMetadata, no_tags, string_table_of, soname_of, table_at,
  missing_table, build_dynamic_string_metadata,
}
use astraea.Loader.DynamicMetadata.First.{IsFirst-HasIndex, IsFirst-le, HasIndex}
use astraea.Loader.DynamicMetadata.Scan.{
  Holds, NamesEntry, needed_refs, Scanned, scan_entries-Ensures,
}

needed-HasIndex :
    (es : List DynamicEntry) (r : DynamicStringRef) (rs : List DynamicStringRef)
    → needed_refs es ≡ r ∷ rs
    → HasIndex es (some r.source_entry_index)
needed-HasIndex [] r rs e = cc
needed-HasIndex (k ∷ ks) r rs e = elim (Bool-cases (k.tag == 1)) [
  | inl one ↦
      (let here : some k.index ≡ some r.source_entry_index = ap first_index (rw one at e) in
        inl (sym here))
  | inr other ↦ inr (needed-HasIndex ks r rs (rw other at e))
]
  where
    first_index : List DynamicStringRef → Option ℕ
    first_index [] = none
    first_index (q ∷ qs) = some q.source_entry_index

-- The table of strings that the two slots make.
abbrev pub IsTable :
    Option SingletonValue → Option SingletonValue → Option DynamicStringTableDescriptor → Type 0
IsTable strtab strsz none = (strtab ≡ none) × (strsz ≡ none)
IsTable strtab strsz (some t) =
    (a : SingletonValue) × (b : SingletonValue) × (strtab ≡ some a)
    × (strsz ≡ some b)
    × (t.range.base ≡ a.value)
    × (t.range.size ≡ b.value)
    × IsRange t.range

table_at-Ensures :
    (es : List DynamicEntry) (a b : SingletonValue)
    → All (λ e. e.value ≤ u64_max) es
    → Holds 5 es (some a)
    → Holds 10 es (some b)
    → Ensures (IsTable (some a) (some b)) (NamesEntry es) (table_at a b)
table_at-Ensures es a b small ha hb =
    elim (create_total a.value b.value (IsFirst-le 5 a es small ha.0)
      (IsFirst-le 10 b es small hb.0)) [
        | inl (range, made, valid, base, size) ↦
            rw (Ensures, made) (a, b, refl, refl, base, size, valid)
        | inr (refused, over) ↦ rw (Ensures, refused) (IsFirst-HasIndex 5 a es ha.0)
      ]

missing_table-Ensures :
    (es : List DynamicEntry) (needed : List DynamicStringRef) (soname : Option SingletonValue)
    → Holds 14 es soname
    → needed ≡ needed_refs es
    → Ensures (IsTable none none) (NamesEntry es) (missing_table needed soname)
missing_table-Ensures es [] none h n = (refl, refl)
missing_table-Ensures es [] (some s) h n = IsFirst-HasIndex 14 s es h.0
missing_table-Ensures es (r ∷ rs) soname h n = needed-HasIndex es r rs (sym n)

string_table_of-Ensures :
    (es : List DynamicEntry) (strtab strsz soname : Option SingletonValue)
    (needed : List DynamicStringRef)
    → All (λ e. e.value ≤ u64_max) es
    → Holds 5 es strtab
    → Holds 10 es strsz
    → Holds 14 es soname
    → needed ≡ needed_refs es
    → Ensures (IsTable strtab strsz) (NamesEntry es) (
        string_table_of
          (record { strtab = strtab; strsz = strsz; soname = soname; needed = needed }))
unfolding string_table_of
string_table_of-Ensures es none none soname needed small h5 h10 h14 n =
    missing_table-Ensures es needed soname h14 n
string_table_of-Ensures es none (some b) soname needed small h5 h10 h14 n =
    IsFirst-HasIndex 10 b es h10.0
string_table_of-Ensures es (some a) none soname needed small h5 h10 h14 n =
    IsFirst-HasIndex 5 a es h5.0
string_table_of-Ensures es (some a) (some b) soname needed small h5 h10 h14 n =
    table_at-Ensures es a b small h5 h10

-- The metadata is that of the entries. The two slots of the table are those that the entries with
-- the tags DT_STRTAB and DT_STRSZ make.
pub record IsMetadata (es : List DynamicEntry) (m : DynamicStringMetadata) : Type 0 where
  pub needed : m.needed ≡ needed_refs es
  pub soname : (s : Option SingletonValue) × Holds 14 es s × (m.soname ≡ soname_of s)
  pub table :
      (strtab : Option SingletonValue) × (strsz : Option SingletonValue) × Holds 5 es strtab
      × Holds 10 es strsz
      × IsTable strtab strsz m.string_table

-- For a dynamic table with 64-bit values, building the string metadata gives a result or an error,
-- and every error names an entry of the table. On success the needed names are those of the entries
-- with tag DT_NEEDED, in order. All entries with the tag DT_SONAME agree, and so do those with
-- DT_STRTAB and DT_STRSZ. The string table has the base and size of the last two and is a range
-- of 64-bit addresses, and it is absent exactly where both tags are.
pub build_dynamic_string_metadata_lem :
    (table : DynamicTable)
    → All (λ e. e.value ≤ u64_max) table.entries
    → Ensures
        (IsMetadata table.entries)
        (NamesEntry table.entries)
        (build_dynamic_string_metadata table)
unfolding build_dynamic_string_metadata
build_dynamic_string_metadata_lem table small =
    let es = table.entries in
    let P = IsMetadata es in
    let Q = NamesEntry es in
    Ensures->>= (Scanned no_tags es) Q P _ _ (scan_entries-Ensures no_tags es) (λ tags e sc.
      Ensures->>= (IsTable tags.strtab tags.strsz) Q P _ _
        (string_table_of-Ensures es tags.strtab tags.strsz tags.soname tags.needed small sc.strtab
          sc.strsz sc.soname sc.needed)
        (λ t e' is. record {
          needed = sc.needed;
          soname = (tags.soname, sc.soname, refl);
          table = (tags.strtab, tags.strsz, sc.strtab, sc.strsz, is);
        }))

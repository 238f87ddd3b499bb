-- ===== src/Loader/DynamicSymbol/Entry.antt =====
-- What an entry of the symbol table says.
use mathlib.Core.Path.{subst}
use astraea.Prelude.{
  ℕ, ◌+◌, ◌-◌, ◌*◌, ◌/◌, ◌≤◌, ◌<◌, ◌≡◌, refl, sym, ◌∙◌, inl, inr, some, List, arith, ltb, leb,
  u64_max, Bool-cases, length, get_elem?, get_elem?-lt,
}
use astraea.Prelude.Attempts.{Ensures-weaken, Ensures, Ensures->>=, Ensures-check}
use astraea.Prelude.LittleEndian.{read_little_endian-some, read_little_endian}
use astraea.Memory.Address.{GuestRange, IsRange, checked_add}
use astraea.Memory.Address.Ranges.{create_total}
use astraea.Memory.ImageView.{InitializedImageView, copy_bytes}
use astraea.Memory.ImageView.Create.{IsView}
use astraea.Memory.ImageView.Totality.{copy_bytes_total}
use astraea.Memory.ImageView.Copy.{Reads}
use astraea.Loader.DynamicSymbol.{
  DynamicSymbolError, DynamicSymbolTableDescriptor, DynamicSymbol, symbol_address, symbol_range,
  no_bytes, symbol_bytes, decode_symbol, read_symbol, parse_dynamic_symbol,
}

-- The fields are those of the 24 bytes of the entry.
pub record IsEntry (bytes : List ℕ) (s : DynamicSymbol) : Type 0 where
  pub name_offset : read_little_endian bytes 0 4 ≡ some s.name_offset
  pub info : get_elem? bytes 4 ≡ some s.info
  pub other : get_elem? bytes 5 ≡ some s.other
  pub section_index_raw : read_little_endian bytes 6 2 ≡ some s.section_index_raw
  pub value : read_little_endian bytes 8 8 ≡ some s.value
  pub size : read_little_endian bytes 16 8 ≡ some s.size

abbrev pub HoldsEntry : InitializedImageView → ℕ → DynamicSymbol → Type 0
HoldsEntry view address s =
    (bytes : List ℕ) × (length bytes ≡ 24) × Reads view address bytes × IsEntry bytes s

-- The error is about this table and this symbol.
abbrev pub OfSymbol : DynamicSymbolTableDescriptor → ℕ → DynamicSymbolError → Type 0
OfSymbol d index x =
    (x.source_entry_index ≡ some d.symtab_source_entry_index) × (x.symbol_index ≡ some index)

decode_symbol-Ensures :
    (Q : DynamicSymbolError → Type 0) (index : ℕ) (bytes : List ℕ)
    → length bytes ≡ 24
    → Ensures (λ s. (s.index ≡ index) × IsEntry bytes s) Q (decode_symbol index bytes)
unfolding decode_symbol
decode_symbol-Ensures Q index bytes full =
    let (n, n_at) = read_little_endian-some bytes 0 4 (omega (arith, full)) in
    let (i, i_at) = get_elem?-lt bytes 4 (omega (arith, full)) in
    let (o, o_at) = get_elem?-lt bytes 5 (omega (arith, full)) in
    let (k, k_at) = read_little_endian-some bytes 6 2 (omega (arith, full)) in
    let (v, v_at) = read_little_endian-some bytes 8 8 (omega (arith, full)) in
    let (s, s_at) = read_little_endian-some bytes 16 8 (omega (arith, full)) in
    rw (n_at, i_at, o_at, k_at, v_at, s_at)
      (
        refl,
        record {
          name_offset = n_at;
          info = i_at;
          other = o_at;
          section_index_raw = k_at;
          value = v_at;
          size = s_at;
        },
      )

symbol_address-Ensures :
    (d : DynamicSymbolTableDescriptor) (index : ℕ)
    → index * 24 ≤ u64_max
    → Ensures
        (λ a. (a ≡ d.range.base + index * 24) × (a ≤ u64_max))
        (OfSymbol d index)
        (symbol_address d index)
unfolding checked_add
symbol_address-Ensures d index small = elim (Bool-cases (ltb (u64_max - index * 24) d.range.base)) [
  | inl over ↦ rw (Ensures, over) (refl, refl)
  | inr fits ↦ rw (Ensures, fits) (refl, ground arith)
]

symbol_range-Ensures :
    (d : DynamicSymbolTableDescriptor) (index address : ℕ)
    → address ≤ u64_max
    → Ensures
        (λ r. (r.base ≡ address) × (r.size ≡ 24) × IsRange r)
        (OfSymbol d index)
        (symbol_range d index address)
symbol_range-Ensures d index address small = elim (create_total address 24 small (omega arith)) [
  | inl (range, made, valid, base, size) ↦ rw (Ensures, made) (base, size, valid)
  | inr (refused, over) ↦ rw (Ensures, refused) (refl, refl)
]

symbol_bytes-Ensures :
    (d : DynamicSymbolTableDescriptor) (index address : ℕ) (view : InitializedImageView)
    (r : GuestRange)
    → IsView view
    → (r.base ≡ address) × (r.size ≡ 24) × IsRange r
    → Ensures
        (λ bs. (length bs ≡ 24) × Reads view address bs)
        (OfSymbol d index)
        (symbol_bytes d index address (copy_bytes view r no_bytes))
symbol_bytes-Ensures d index address view r v (base, size, valid) =
    elim (copy_bytes_total view v r no_bytes valid (sym size)) [
      | inl (bs, copied, full, reads) ↦
          rw (Ensures, copied) (full ∙ size, subst (λ a. Reads view a bs) base reads)
      | inr (e, bs, failed) ↦ rw (Ensures, failed) (refl, refl)
    ]

-- The symbol is the entry of the table with its index.
abbrev pub IsSymbol :
    DynamicSymbolTableDescriptor → ℕ → InitializedImageView → DynamicSymbol → Type 0
IsSymbol d index view s =
    (s.index ≡ index) × (index < d.symbol_count) × HoldsEntry view (d.range.base + index * 24) s

-- On a view, parsing a symbol gives a result or an error that names the table and the symbol. On
-- success the index is one of the table, the 24 bytes of its entry are in the image, and the
-- symbol has their fields.
pub parse_dynamic_symbol_lem :
    (d : DynamicSymbolTableDescriptor) (index : ℕ) (view : InitializedImageView)
    → IsView view
    → Ensures (IsSymbol d index view) (OfSymbol d index) (parse_dynamic_symbol d index view)
unfolding read_symbol
parse_dynamic_symbol_lem d index view v =
    let P = IsSymbol d index view in
    let Q = OfSymbol d index in
    Ensures-check P Q (leb d.symbol_count index) _ _ (refl, refl)
      (λ inside.
        Ensures-check P Q (ltb (u64_max / 24) index) _ _ (refl, refl)
          (λ small.
            Ensures->>= (λ a. (a ≡ d.range.base + index * 24) × (a ≤ u64_max)) Q P _ _
              (symbol_address-Ensures d index (ground arith))
              (λ address at a.
                Ensures->>= (λ r. (r.base ≡ address) × (r.size ≡ 24) × IsRange r) Q P _ _
                  (symbol_range-Ensures d index address a.1)
                  (λ range made r.
                    Ensures->>= (λ bs. (length bs ≡ 24) × Reads view address bs) Q P _ _
                      (symbol_bytes-Ensures d index address view range v r)
                      (λ bytes copied b.
                        Ensures-weaken (λ s. (s.index ≡ index) × IsEntry bytes s) P Q _
                          (decode_symbol-Ensures Q index bytes b.0)
                          (λ s e. (
                            e.0,
                            ground arith,
                            (bytes, b.0, subst (λ k. Reads view k bytes) a.0 b.1, e.1),
                          )))))))

-- ===== src/Loader/GnuHash/Words.antt =====
-- The words of the table of DT_GNU_HASH.
use mathlib.Core.Path.{subst}
use astraea.Prelude.{
  ℕ, ◌+◌, ◌-◌, ◌≤◌, ◌≡◌, refl, sym, ◌∙◌, inl, inr, some, List, [], ◌∷◌, arith, ltb, u64_max,
  Bool-cases, length,
}
use astraea.Prelude.Attempts.{Ensures, Ensures->>=}
use astraea.Prelude.LittleEndian.{read_little_endian-some, read_little_endian}
use astraea.Memory.Address.{GuestRange, IsRange, checked_add}
use astraea.Memory.Address.Ranges.{create_total}
use astraea.Memory.ImageView.{InitializedImageView, copy_bytes}
use astraea.Memory.ImageView.Create.{IsView}
use astraea.Memory.ImageView.Totality.{copy_bytes_total}
use astraea.Memory.ImageView.Copy.{Reads}
use astraea.Loader.GnuHash.{
  HashLocation, GnuHashError, word_address, word_range, word_bytes, read_word,
}

-- The four bytes at this offset of the table are in the image, and are this word.
abbrev pub HasWord : InitializedImageView → HashLocation → ℕ → ℕ → Type 0
HasWord view h offset word =
    (bytes : List ℕ) × (length bytes ≡ 4)
    × Reads view (h.address + offset) bytes
    × (read_little_endian bytes 0 4 ≡ some word)

abbrev pub OfTable : HashLocation → GnuHashError → Type 0
OfTable h x = x.source_entry_index ≡ some h.source_entry_index

word_address-Ensures :
    (h : HashLocation) (offset : ℕ)
    → offset ≤ u64_max
    → Ensures (λ a. (a ≡ h.address + offset) × (a ≤ u64_max)) (OfTable h) (word_address h offset)
unfolding checked_add
word_address-Ensures h offset small = elim (Bool-cases (ltb (u64_max - offset) h.address)) [
  | inl over ↦ rw (Ensures, over) refl
  | inr fits ↦ rw (Ensures, fits) (refl, ground arith)
]

word_range-Ensures :
    (h : HashLocation) (address : ℕ)
    → address ≤ u64_max
    → Ensures
        (λ r. (r.base ≡ address) × (r.size ≡ 4) × IsRange r)
        (OfTable h)
        (word_range h address)
word_range-Ensures h address small = elim (create_total address 4 small (omega arith)) [
  | inl (range, made, valid, base, size) ↦ rw (Ensures, made) (base, size, valid)
  | inr (refused, over) ↦ rw (Ensures, refused) refl
]

word_bytes-Ensures :
    (h : HashLocation) (address : ℕ) (view : InitializedImageView) (r : GuestRange)
    → IsView view
    → (r.base ≡ address) × (r.size ≡ 4) × IsRange r
    → Ensures
        (λ bs. (length bs ≡ 4) × Reads view address bs)
        (OfTable h)
        (word_bytes h address (copy_bytes view r (0 ∷ 0 ∷ 0 ∷ 0 ∷ [])))
word_bytes-Ensures h address view r v (base, size, valid) =
    elim (copy_bytes_total view v r (0 ∷ 0 ∷ 0 ∷ 0 ∷ []) valid (sym size)) [
      | inl (bs, copied, full, reads) ↦
          rw (Ensures, copied) (full ∙ size, subst (λ a. Reads view a bs) base reads)
      | inr (e, bs, failed) ↦ rw (Ensures, failed) refl
    ]

module _ (view : InitializedImageView) (h : HashLocation) (v : IsView view) where
  pub read_word-Ensures :
      (offset : ℕ)
      → offset ≤ u64_max
      → Ensures (HasWord view h offset) (OfTable h) (read_word view h offset)
  unfolding read_word
  read_word-Ensures offset small =
      let P = HasWord view h offset in
      let Q = OfTable h in
      Ensures->>= (λ a. (a ≡ h.address + offset) × (a ≤ u64_max)) Q P _ _
        (word_address-Ensures h offset small)
        (λ address at a.
          Ensures->>= (λ r. (r.base ≡ address) × (r.size ≡ 4) × IsRange r) Q P _ _
            (word_range-Ensures h address a.1)
            (λ range made r.
              Ensures->>= (λ bs. (length bs ≡ 4) × Reads view address bs) Q P _ _
                (word_bytes-Ensures h address view range v r)
                (λ bytes copied b.
                  let (w, at) = read_little_endian-some bytes 0 4 (omega (arith, b.0)) in
                  rw at (bytes, b.0, subst (λ k. Reads view k bytes) a.0 b.1, at))))

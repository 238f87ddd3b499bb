-- ===== src/Memory/ImageView/Totality.antt =====
-- On a view, read_byte and copy_bytes never leave the file.
use astraea.Prelude.{
  arith, Result-cases, ℕ, ◌+◌, ◌≡◌, refl, ◌⊎◌, inl, inr, Option, some, List, [], ◌∷◌, length,
  Result, success, failure,
}
use astraea.Memory.Address.{IsRange, GuestRange, checked_add}
use astraea.Memory.ImageView.{
  unmapped_guest_address, make_error, InitializedImageError, store_byte, InitializedImageView,
  copy_loop, copy_bytes, read_byte,
}
use astraea.Memory.Mapping.Segments.{sources_at}
use astraea.Memory.ImageView.Create.{IsView}
use astraea.Memory.ImageView.Sources.{Agreement, no_source, agreed, disagreed, agreement, Answers}
use astraea.Memory.ImageView.Read.{read_byte-Answers}
use astraea.Memory.ImageView.Copy.{Reads, copy_bytes_iff}

answered :
    (bytes : List ℕ) (a : ℕ) (g : Agreement) (r : Option (Result ℕ InitializedImageError))
    → Answers bytes a g r
    → (x : Result ℕ InitializedImageError) × (r ≡ some x)
answered bytes a no_source r h = (_, h)
answered bytes a (agreed s) r (b, h, k) = (_, h)
answered bytes a disagreed r (e, h, c, k) = (_, h)

store_byte_total :
    (o : ℕ) (os : List ℕ) (r : Result ℕ InitializedImageError)
    (t : Result (Unit {0}) InitializedImageError × List ℕ)
    → (x : Result (Unit {0}) InitializedImageError × List ℕ) × (store_byte o os (some r) (some t)
        ≡ some x)
unfolding store_byte
store_byte_total o os (failure e) t = (_, refl)
store_byte_total o os (success b) (r, bs) = (_, refl)

module _ (v : InitializedImageView) (view : IsView v) where
  pub read_byte_total : (a : ℕ) → (x : Result ℕ InitializedImageError) × (read_byte v a ≡ some x)
  read_byte_total a =
      answered v.image_bytes a (agreement (sources_at v.intents a)) _ (read_byte-Answers v a view)

  copy_loop_total :
      (base i : ℕ) (out : List ℕ)
      → (x : Result (Unit {0}) InitializedImageError × List ℕ) × (copy_loop v base i out ≡ some x)
  unfolding copy_loop
  copy_loop_total base i [] = (_, refl)
  copy_loop_total base i (o ∷ os) =
      let (t, later) = copy_loop_total base (i + 1) os in
      elim (Result-cases (checked_add base i)) [
        | inl (address, at) ↦
            (let (r, answer) = read_byte_total address in
              let (x, stored) = store_byte_total o os r t in
              (x, rw (copy_loop, at, answer, later) stored))
        | inr (e, over) ↦
            ((failure (make_error unmapped_guest_address base), o ∷ os), rw (copy_loop, over) refl)
      ]

  -- On a view, copying a range into a buffer of its size gives its bytes or an error.
  pub copy_bytes_total :
      (r : GuestRange) (out : List ℕ)
      → IsRange r
      → length out ≡ r.size
      → ((bs : List ℕ) × (copy_bytes v r out ≡ some (success r.size, bs))
          × (length bs ≡ r.size)
          × Reads v r.base bs)
        ⊎ ((e : InitializedImageError) × (bs : List ℕ) × (copy_bytes v r out
              ≡ some (failure e, bs)))
  unfolding copy_bytes
  copy_bytes_total r out valid size = go (copy_loop_total r.base 0 out)
    where
      go :
          (x : Result (Unit {0}) InitializedImageError × List ℕ) × (copy_loop v r.base 0 out
              ≡ some x)
          → ((bs : List ℕ) × (copy_bytes v r out ≡ some (success r.size, bs))
              × (length bs ≡ r.size)
              × Reads v r.base bs)
            ⊎ ((e : InitializedImageError) × (bs : List ℕ) × (copy_bytes v r out
                  ≡ some (failure e, bs)))
      go ((failure e, bs), done) = inr (e, bs, ground arith)
      go ((success u, bs), done) =
          let copied : copy_bytes v r out ≡ some (success r.size, bs) = ground arith in
          let (h, same, reads) = (copy_bytes_iff v r out bs valid).0 copied in
          inl (bs, copied, same, reads)

-- ===== src/Loader/DynamicString/Resolve.antt =====
-- resolve_dynamic_string gives a string exactly when the table holds it, terminated.
use mathlib.Core.Path.{subst}
use native.Mathlib.Nat.{zero-add}
use astraea.Prelude.{
  ltb→le, leb→lt, le→ltb, lt→leb, ==→ne, ne→==, ℕ, zero, suc, ◌+◌, ◌-◌, ◌≤◌, ◌<◌, ◌≡◌, refl, sym,
  ap, ◌∙◌, ◌≢◌, ◌↔◌, ◌⊎◌, inl, inr, Bool, true, false, some, List, [], ◌∷◌, arith, ltb, leb, ◌==◌,
  if◌then◌else◌, u64_max, ==_iff, length, success,
}
use astraea.Prelude.Attempts.{inv_bind, Attempt, check}
use astraea.Memory.Address.{IsRange, checked_add}
use astraea.Memory.ImageView.{InitializedImageView, read_byte}
use astraea.Loader.DynamicString.{
  DynamicStringRef, DynamicStringTableDescriptor, DynamicStringError, address_at, image_byte,
  find_length, copy_string, resolve_dynamic_string,
}

-- The image holds this string from the address on: no byte of it is null, and a null one follows.
abbrev pub HoldsString : InitializedImageView → ℕ → List ℕ → Type 0
HoldsString view address [] = read_byte view address ≡ some (success 0)
HoldsString view address (c ∷ cs) =
    (read_byte view address ≡ some (success c)) × (c ≢ 0) × HoldsString view (address + 1) cs

address_at_lem :
    (base offset : ℕ) (reference : DynamicStringRef)
    → base + offset ≤ u64_max
    → address_at base offset reference ≡ some (success (base + offset))
unfolding address_at checked_add
address_at_lem base offset reference fits = ground arith

image_byte_lem :
    (view : InitializedImageView) (address b : ℕ) (reference : DynamicStringRef)
    → read_byte view address ≡ some (success b)
    → image_byte view address reference ≡ some (success b)
unfolding image_byte
image_byte_lem view address b reference e = rw (image_byte, e) refl

image_byte-success :
    (view : InitializedImageView) (address b : ℕ) (reference : DynamicStringRef)
    → image_byte view address reference ≡ some (success b)
    → read_byte view address ≡ some (success b)
unfolding image_byte
image_byte-success view address b reference e = ground arith

round-cases :
    (b : Bool) (i n : ℕ) (rest : Attempt ℕ DynamicStringError)
    → (if b then some (success i) else rest) ≡ some (success n)
    → ((b ≡ true) × (n ≡ i)) ⊎ ((b ≡ false) × (rest ≡ some (success n)))
round-cases true i n rest e = inl (refl, cc)
round-cases false i n rest e = inr (refl, e)

check-success :
    (b : Bool) (x : DynamicStringError) {u : Unit {0}} → check b x ≡ some (success u) → b ≡ false
check-success true x e = cc
check-success false x e = refl

success-inj :
    (s t : List ℕ)
    → ◌≡◌ {A = Attempt (List ℕ) DynamicStringError} (some (success s)) (some (success t))
    → s ≡ t
success-inj s t e = cc

module _ (view : InitializedImageView) (reference : DynamicStringRef) (start : ℕ) where
  find_length-HoldsString :
      (s : List ℕ) (rounds i : ℕ)
      → HoldsString view (start + i) s
      → length s < rounds
      → start + i + length s ≤ u64_max
      → find_length view reference start rounds i ≡ some (success (i + length s))
  unfolding find_length
  find_length-HoldsString s zero i h fits small = absurd (omega arith)
  find_length-HoldsString [] (suc rounds) i h fits small =
      rw
        (
          find_length,
          address_at_lem start i reference (omega arith),
          image_byte_lem view (start + i) 0 reference h,
        )
        (ap some (ap success (omega arith)))
  find_length-HoldsString (c ∷ cs) (suc rounds) i (e, other, h) fits small =
      let step : start + i + 1 ≡ start + (i + 1) = omega arith in
      let later =
        find_length-HoldsString cs rounds (i + 1) (rw step at h) (omega arith) (omega arith) in
      rw
        (
          find_length,
          address_at_lem start i reference (omega arith),
          image_byte_lem view (start + i) c reference e,
          ne→== c 0 other,
          later,
        )
        (ap some (ap success (omega arith)))

  copy_string-HoldsString :
      (s : List ℕ) (i : ℕ)
      → HoldsString view (start + i) s
      → start + i + length s ≤ u64_max
      → copy_string view reference start (length s) i ≡ some (success s)
  unfolding copy_string
  copy_string-HoldsString [] i h small = refl
  copy_string-HoldsString (c ∷ cs) i (e, other, h) small =
      let step : start + i + 1 ≡ start + (i + 1) = omega arith in
      let later = copy_string-HoldsString cs (i + 1) (rw step at h) (omega arith) in
      rw
        (
          copy_string,
          address_at_lem start i reference (omega arith),
          image_byte_lem view (start + i) c reference e,
          later,
        )
        refl

  -- What the search finds is the length of a string.
  find_length-success :
      (rounds i n : ℕ)
      → start + i + rounds ≤ u64_max + 1
      → find_length view reference start rounds i ≡ some (success n)
      → (s : List ℕ) × (n ≡ i + length s) × (length s < rounds) × HoldsString view (start + i) s
  unfolding find_length
  find_length-success zero i n small e = cc
  find_length-success (suc rounds) i n small e =
      let e' = rw (find_length, address_at_lem start i reference (omega arith)) at e in
      let (byte, e2, e3) = inv_bind (image_byte view (start + i) reference) _ e' in
      let found = image_byte-success view (start + i) byte reference e2 in
      elim (round-cases (byte == 0) i n (find_length view reference start rounds (i + 1)) e3) [
        | inl (null, last) ↦ (
          [],
          omega (arith, last),
          omega arith,
          subst (λ b. read_byte view (start + i) ≡ some (success b)) ((==_iff byte 0).0 null) found,
        )
        | inr (other, more) ↦
            (let (s, size, fits, h) = find_length-success rounds (i + 1) n (omega arith) more in
              let step : start + (i + 1) ≡ start + i + 1 = omega arith in
              (
                byte ∷ s,
                omega (arith, size),
                omega (arith, fits),
                (found, ==→ne byte 0 other, subst (λ k. HoldsString view k s) step h),
              ))
      ]

-- Over a table whose range has 64-bit addresses, resolving a reference gives a string exactly when
-- the image holds that string, with its terminator, from the reference's offset into the table on,
-- the terminator lies inside the table, and the string is not longer than `std::string` allows.
pub resolve_dynamic_string_iff :
    (max_size : ℕ) (table : DynamicStringTableDescriptor) (reference : DynamicStringRef)
    (view : InitializedImageView) (s : List ℕ)
    → IsRange table.range
    → (resolve_dynamic_string max_size table reference view ≡ some (success s)) ↔ (
        HoldsString view (table.range.base + reference.offset) s
        × (reference.offset + length s < table.range.size)
        × (length s ≤ max_size))
unfolding resolve_dynamic_string
resolve_dynamic_string_iff max_size table reference view s r =
    (λ e. resolved e, λ (h, inside, fits). holds h inside fits)
  where
    start : ℕ
    start = table.range.base + reference.offset

    holds :
        HoldsString view start s
        → reference.offset + length s < table.range.size
        → length s ≤ max_size
        → resolve_dynamic_string max_size table reference view ≡ some (success s)
    holds h inside fits =
        let zero : start ≡ start + 0 = omega arith in
        let h' = subst (λ k. HoldsString view k s) zero h in
        rw
          (
            resolve_dynamic_string,
            lt→leb table.range.size reference.offset (omega arith),
            address_at_lem table.range.base reference.offset reference (omega (arith, r.last_fits)),
            find_length-HoldsString view reference start s (table.range.size - reference.offset) 0
                h' (omega arith) (omega (arith, r.last_fits)),
            zero-add,
            le→ltb max_size (length s) fits,
          )
          (copy_string-HoldsString view reference start s 0 h' (omega (arith, r.last_fits)))

    resolved :
        resolve_dynamic_string max_size table reference view ≡ some (success s)
        → HoldsString view start s
          × (reference.offset + length s < table.range.size)
          × (length s ≤ max_size)
    resolved e =
        let (u, e0, e1) = inv_bind (check (leb table.range.size reference.offset) _) _ e in
        let inside = leb→lt table.range.size reference.offset (check-success _ _ e0) in
        let e2 =
          rw
            (address_at_lem table.range.base reference.offset reference
              (omega (arith, inside, r.last_fits)))
            at e1 in
        let (n, e3, e4) =
          inv_bind (find_length view reference start (table.range.size - reference.offset) 0) _
            e2 in
        let (u', e5, e6) = inv_bind (check (ltb max_size n) _) _ e4 in
        let short = ltb→le max_size n (check-success _ _ e5) in
        let (t, size, fits, h) =
          find_length-success view reference start (table.range.size - reference.offset) 0 n
            (omega (arith, inside, r.last_fits)) e3 in
        let size' : n ≡ length t = omega (arith, size) in
        let copied =
          copy_string-HoldsString view reference start t 0 h
            (omega (arith, fits, inside, r.last_fits)) in
        let same : t ≡ s =
          success-inj t s
            (sym copied ∙ (ap (λ k. copy_string view reference start k 0) (sym size') ∙ e6)) in
        let zero : start + 0 ≡ start = omega arith in
        let len : length t ≡ length s = ap length same in
        (
          subst (λ k. HoldsString view k s) zero
              (subst (λ l. HoldsString view (start + 0) l) same h),
          omega (arith, len, fits, inside),
          omega (arith, len, size', short),
        )

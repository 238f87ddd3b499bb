-- ===== src/Prelude/Stores.antt =====
-- A buffer of bytes that starts with zeros, and stores into it; `none` is an index outside of it.
use Prim.Native.Nat.{ℕ, zero, suc, ◌+◌}
use mathlib.Core.Path.{◌≡◌, refl, ap}
use mathlib.Core.List.{List, [], ◌∷◌, ◌++◌, append_assoc}
use mathlib.Core.Option.{Option, none, some}
use native.Mathlib.Omega.{arith}
use native.Mathlib.Nat.{zero-add}
use astraea.Prelude.Lists.{length, length-append}

abbrev pub zeros : ℕ → List ℕ
zeros zero = []
zeros (suc n) = 0 ∷ zeros n

-- `bytes[i] = b`.
abbrev pub cons_rest : ℕ → Option (List ℕ) → Option (List ℕ)
cons_rest x none = none
cons_rest x (some xs) = some (x ∷ xs)

unfoldable pub store : List ℕ → ℕ → ℕ → Option (List ℕ)
store [] i b = none
store (x ∷ xs) zero b = some (b ∷ xs)
store (x ∷ xs) (suc i) b = cons_rest x (store xs i b)

pub zeros-add : (a b : ℕ) → zeros (a + b) ≡ zeros a ++ zeros b
zeros-add zero b = rw zero-add refl
zeros-add (suc a) b = let e : suc a + b ≡ suc (a + b) = omega arith in rw (e, zeros-add a b) refl

pub length-zeros : (n : ℕ) → length (zeros n) ≡ n
length-zeros zero = refl
length-zeros (suc n) = ap (λ k. suc k) (length-zeros n)

pub store_lem :
    (pre post : List ℕ) (x b : ℕ)
    → store (pre ++ (x ∷ post)) (length pre) b ≡ some (pre ++ (b ∷ post))
unfolding store
store_lem [] post x b = refl
store_lem (p ∷ pre) post x b = rw (store_lem pre post x b) refl

pub snoc : (pre post : List ℕ) (b : ℕ) → (pre ++ (b ∷ [])) ++ post ≡ pre ++ (b ∷ post)
snoc pre post b = append_assoc pre (b ∷ []) post

pub length-snoc : (pre : List ℕ) (b : ℕ) → length (pre ++ (b ∷ [])) ≡ length pre + 1
length-snoc pre b = length-append pre (b ∷ [])

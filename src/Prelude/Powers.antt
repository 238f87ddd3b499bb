-- ===== src/Prelude/Powers.antt =====
-- A number without a bit in common with the number before it is a power of two.
use Prim.Native.Nat.{
  ℕ, zero, suc, ◌+◌, ◌-◌, ◌*◌, ◌/◌, ◌%◌, ◌^◌, ◌≤◌, min, bit_and, digits, bit_and-bitwise,
}
use mathlib.Core.Path.{◌≡◌, refl, subst}
use mathlib.Core.Logic.{◌≢◌, inl, inr}
use native.Mathlib.Nat.{pow-suc}
use native.Mathlib.Omega.{arith}
use astraea.Prelude.Tests.{◌==◌, ==_iff, ==→ne, Bool-cases}

-- `bit_and` with a number of rounds of its own.
abbrev rounds : ℕ → ℕ → ℕ → ℕ
rounds n a b = digits (λ _. zero) min n a b

-- More rounds than the first number has digits change nothing.
rounds_enough : (n m a b : ℕ) → a ≤ n → a ≤ m → rounds n a b ≡ rounds m a b
rounds_enough zero zero zero b p q = refl
rounds_enough zero (suc m) zero b p q = refl
rounds_enough (suc n) zero zero b p q = refl
rounds_enough (suc n) (suc m) zero b p q = refl
rounds_enough zero m (suc a) b p q = absurd (omega arith)
rounds_enough (suc n) zero (suc a) b p q = absurd (omega arith)
rounds_enough (suc n) (suc m) (suc a) b p q =
    let rest = rounds_enough n m (suc a / 2) (b / 2) (omega arith) (omega arith) in
    omega (arith, rest)

halves : (a b : ℕ) → bit_and (suc a) b ≡ bit_and (suc a / 2) (b / 2) * 2 + min (suc a % 2) (b % 2)
halves a b =
    let whole = bit_and-bitwise (suc a) b in
    let half = bit_and-bitwise (suc a / 2) (b / 2) in
    let same = rounds_enough a (suc a / 2) (suc a / 2) (b / 2) (omega arith) (omega arith) in
    omega (arith, whole, half, same)

self_fuel : (n a : ℕ) → a ≤ n → bit_and a a ≡ a
self_fuel n zero h = bit_and-bitwise 0 0
self_fuel zero (suc a) h = absurd (omega arith)
self_fuel (suc n) (suc a) h = omega (arith, halves a (suc a), self_fuel n (suc a / 2) (omega arith))

-- One digit less: an even number halves, and an odd one is one.
power_fuel : (n a : ℕ) → suc a ≤ n → bit_and (suc a) a ≡ 0 → (k : ℕ) × (suc a ≡ 2 ^ k)
power_fuel zero a h e = absurd (omega arith)
power_fuel (suc n) a h e = elim (Bool-cases (suc a % 2 == 0)) [
  | inl even ↦
      (let whole = (==_iff (suc a % 2) 0).0 even in
        let half : suc a / 2 ≡ suc (a / 2) = omega (arith, whole) in
        let below : bit_and (suc (a / 2)) (a / 2) ≡ 0 =
          subst (λ v. bit_and v (a / 2) ≡ 0) half (omega (arith, halves a a, e)) in
        let (k, power) = power_fuel n (a / 2) (omega (arith, whole, h)) below in
        (suc k, omega (arith, pow-suc 2 k, power, whole)))
  | inr odd ↦
      (let half : a / 2 ≡ suc a / 2 = omega (arith, ==→ne (suc a % 2) 0 odd) in
        let none_left : bit_and (suc a / 2) (a / 2) ≡ 0 = omega (arith, halves a a, e) in
        let same : bit_and (suc a / 2) (suc a / 2) ≡ 0 =
          subst (λ v. bit_and (suc a / 2) v ≡ 0) half none_left in
        (0, omega (arith, same, self_fuel (suc a / 2) (suc a / 2) (omega arith))))
]

pub bit_and-power : (a : ℕ) → a ≢ 0 → bit_and a (a - 1) ≡ 0 → (k : ℕ) × (a ≡ 2 ^ k)
bit_and-power zero some_bit e = absurd (some_bit refl)
bit_and-power (suc a) some_bit e =
    let before : suc a - 1 ≡ a = omega arith in
    power_fuel (suc a) a (omega arith) (subst (λ v. bit_and (suc a) v ≡ 0) before e)

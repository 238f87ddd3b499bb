-- ===== src/Execution/GuestMemory/Scan.antt =====
-- The loops of GuestMemoryAccess::validate over mappings and regions.
use astraea.Memory.Address.{GuestRange, contains}
use astraea.Memory.Address.Ranges.{contains_iff}
use astraea.Memory.Permissions.{GuestPermissions, GuestPermission, has}
use astraea.Execution.GuestMemory.{scan}
use native.Mathlib.Nat.{add-zero}
use astraea.Prelude.{
  ℕ, ◌+◌, ◌<◌, ◌≡◌, refl, ◌⊎◌, inl, Bool, true, false, ◌&&◌, ◌||◌, List, [], ◌∷◌, arith, any,
}

module _ {A : Type 0} (range : A → GuestRange) (permissions : A → GuestPermissions) where
  -- Some entry holds the address; some entry with the permission holds it.
  abbrev pub holds : List A → ℕ → Bool
  holds xs a = any (λ x. contains (range x) a) xs

  abbrev pub allows : GuestPermission → List A → ℕ → Bool
  allows p xs a = any (λ x. contains (range x) a && has (permissions x) p) xs

  pub scan_covers :
      (xs : List A) (cursor : ℕ) (p : GuestPermission) (best : ℕ) (denied : Bool) (j : ℕ)
      → j < (scan range permissions xs cursor p best denied).0
      → (j < best) ⊎ (allows p xs (cursor + j) ≡ true)
  unfolding scan
  scan_covers [] cursor p best denied j h = inl h
  scan_covers (x ∷ xs) cursor p best denied j h = ground (
    arith,
    contains_iff (range x) cursor,
    contains_iff (range x) (cursor + j),
    scan_covers xs cursor p _ _ j h,
  )

  pub scan_zero :
      (xs : List A) (cursor : ℕ) (p : GuestPermission) (best : ℕ) (denied : Bool)
      → (scan range permissions xs cursor p best denied).0 ≡ 0
      → (best ≡ 0)
        × (allows p xs cursor ≡ false)
        × ((scan range permissions xs cursor p best denied).1 ≡ (denied || holds xs cursor))
  unfolding scan
  scan_zero [] cursor p best denied h = (h, refl, ground arith)
  scan_zero (x ∷ xs) cursor p best denied h =
      ground (arith, contains_iff (range x) cursor, scan_zero xs cursor p _ _ h)

  -- From nothing covered and nothing denied.
  pub scan_reach :
      (xs : List A) (cursor : ℕ) (p : GuestPermission) (j : ℕ)
      → j < (scan range permissions xs cursor p 0 false).0
      → allows p xs (cursor + j) ≡ true
  scan_reach xs cursor p j h = ground (arith, scan_covers xs cursor p 0 false j h)

  pub scan_allowed :
      (xs : List A) (cursor : ℕ) (p : GuestPermission)
      → allows p xs cursor ≡ true
      → 0 < (scan range permissions xs cursor p 0 false).0
  scan_allowed xs cursor p h = ground (arith, scan_zero xs cursor p 0 false)

  pub scan_refused :
      (xs : List A) (cursor : ℕ) (p : GuestPermission)
      → allows p xs cursor ≡ false
      → ((scan range permissions xs cursor p 0 false).0 ≡ 0)
        × ((scan range permissions xs cursor p 0 false).1 ≡ holds xs cursor)
  scan_refused xs cursor p h =
      let zero_reach =
        empty ((scan range permissions xs cursor p 0 false).0)
          (λ k. rw (add-zero cursor) at (scan_reach xs cursor p 0 k)) h in
      (zero_reach, (scan_zero xs cursor p 0 false zero_reach).2)
    where
      empty : (n : ℕ) → (0 < n → allows p xs cursor ≡ true) → allows p xs cursor ≡ false → n ≡ 0
      empty n k q = ground (arith, k)

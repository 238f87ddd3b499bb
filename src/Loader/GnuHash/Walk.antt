-- ===== src/Loader/GnuHash/Walk.antt =====
-- The buckets and the last chain of DT_GNU_HASH.
use astraea.Prelude.{
  ==→ne, ℕ, zero, suc, ◌+◌, ◌-◌, ◌*◌, ◌≤◌, ◌<◌, max, bit_and, ◌≡◌, refl, ◌≢◌, ◌↔◌, ◌⊎◌, inl, inr,
  not, ◌&&◌, ◌||◌, arith, ltb, leb, ◌==◌, u64_max, ==_iff, Bool-cases,
}
use astraea.Prelude.Attempts.{Ensures-weaken, Ensures, Ensures->>=, Ensures-check}
use astraea.Memory.ImageView.{InitializedImageView}
use astraea.Memory.ImageView.Create.{IsView}
use astraea.Loader.GnuHash.{HashLocation, highest_bucket, chain_end, count_from}
use astraea.Loader.GnuHash.Words.{HasWord, OfTable, read_word-Ensures}

module _ (view : InitializedImageView) (h : HashLocation) (v : IsView view) where
  -- A bucket is empty or names a symbol that is hashed.
  abbrev pub IsBucket : ℕ → ℕ → Type 0
  IsBucket symoffset bucket = (bucket ≡ 0) ⊎ ((symoffset ≤ bucket) × (bucket < 1000000))

  -- From bucket `i` on there are so many buckets, and `highest` is the highest one of them and of
  -- `before`.
  abbrev pub Buckets : ℕ → ℕ → ℕ → ℕ → ℕ → ℕ → Type 0
  Buckets offset symoffset i zero before highest = highest ≡ before
  Buckets offset symoffset i (suc rounds) before highest =
      (bucket : ℕ) × HasWord view h (offset + 4 * i) bucket
      × IsBucket symoffset bucket
      × Buckets offset symoffset (i + 1) rounds (max before bucket) highest

  pub highest_bucket-Ensures :
      (offset symoffset i rounds before : ℕ)
      → offset + 4 * (i + rounds) ≤ u64_max
      → Ensures
          (Buckets offset symoffset i rounds before)
          (OfTable h)
          (highest_bucket view h offset symoffset i rounds before)
  unfolding highest_bucket
  highest_bucket-Ensures offset symoffset i zero before small = refl
  highest_bucket-Ensures offset symoffset i (suc rounds) before small =
      let P = Buckets offset symoffset i (suc rounds) before in
      let Q = OfTable h in
      Ensures->>= (HasWord view h (offset + 4 * i)) Q P _ _
        (read_word-Ensures view h v (offset + 4 * i) (omega (arith, small)))
        (λ bucket at word.
          Ensures-check P Q (not (bucket == 0) && (ltb bucket symoffset || leb 1000000 bucket)) _ _
            refl
            (λ fine.
              Ensures-weaken (Buckets offset symoffset (i + 1) rounds (max before bucket)) P Q _
                (highest_bucket-Ensures offset symoffset (i + 1) rounds (max before bucket)
                  (omega (arith, small)))
                (λ highest b. (bucket, word, ground arith, b))))

  -- The chain from `index` on ends before `count`, at the first word with the low bit set.
  abbrev pub Chain : ℕ → ℕ → ℕ → ℕ → Type 0
  Chain offset symoffset index count =
      (index < count)
      × (count ≤ 1000000)
      × ((k : ℕ)
          → index ≤ k
          → k < count
          → (word : ℕ) × HasWord view h (offset + 4 * (k - symoffset)) word
            × ((bit_and word 1 ≢ 0) ↔ (k + 1 ≡ count)))

  first_word :
      (offset symoffset index chain k count : ℕ)
      → HasWord view h (offset + 4 * (index - symoffset)) chain
      → k ≡ index
      → ((bit_and chain 1 ≢ 0) ↔ (index + 1 ≡ count))
      → (word : ℕ) × HasWord view h (offset + 4 * (k - symoffset)) word
        × ((bit_and word 1 ≢ 0) ↔ (k + 1 ≡ count))
  first_word offset symoffset index chain k count word same low = rw same (chain, word, low)

  Chain-more :
      (offset symoffset index chain count : ℕ)
      → HasWord view h (offset + 4 * (index - symoffset)) chain
      → bit_and chain 1 ≡ 0
      → Chain offset symoffset (index + 1) count
      → Chain offset symoffset index count
  Chain-more offset symoffset index chain count word even (later, fits, words) = (
    omega (arith, later),
    fits,
    λ k from to. elim (Bool-cases (k == index)) [
      | inl same ↦
          first_word offset symoffset index chain k count word ((==_iff k index).0 same)
            (λ odd. absurd (odd even), λ last. absurd (omega (arith, later, last)))
      | inr other ↦ words k (omega (arith, from, ==→ne k index other)) to
    ],
  )

  pub chain_end-Ensures :
      (offset symoffset fuel index : ℕ)
      → offset + 4000000 ≤ u64_max
      → 1000000 < index + fuel
      → index ≤ 1000000
      → Ensures
          (Chain offset symoffset index)
          (OfTable h)
          (chain_end view h offset symoffset fuel index)
  unfolding chain_end
  chain_end-Ensures offset symoffset zero index small enough below = absurd (omega arith)
  chain_end-Ensures offset symoffset (suc fuel) index small enough below =
      let P = Chain offset symoffset index in
      let Q = OfTable h in
      Ensures-check P Q (leb 1000000 index) _ _ refl (λ inside.
        Ensures->>= (HasWord view h (offset + 4 * (index - symoffset))) Q P _ _
          (read_word-Ensures view h v (offset + 4 * (index - symoffset)) (ground arith))
          (λ chain at word. elim (Bool-cases (bit_and chain 1 == 0)) [
            | inl even ↦ rw even (
                Ensures-weaken (Chain offset symoffset (index + 1)) P Q _
                  (chain_end-Ensures offset symoffset fuel (index + 1) small (omega (arith, enough))
                    (ground arith))
                  (λ count c.
                    Chain-more offset symoffset index chain count word
                      ((==_iff (bit_and chain 1) 0).0 even) c))
            | inr odd ↦ rw odd (
              omega arith,
              ground arith,
              λ k from to.
                  first_word offset symoffset index chain k (index + 1) word
                    (omega (arith, from, to)) (λ o. refl, λ last. ==→ne (bit_and chain 1) 0 odd),
            )
          ]))

  -- The count is the first hashed symbol where all buckets are empty, and otherwise the end of the
  -- chain of the highest one.
  abbrev pub Counts : ℕ → ℕ → ℕ → ℕ → Type 0
  Counts offset symoffset highest count =
      ((highest ≡ 0) × (count ≡ symoffset)) ⊎ ((highest ≢ 0) × Chain offset symoffset highest count)

  pub count_from-Ensures :
      (offset symoffset highest : ℕ)
      → offset + 4000000 ≤ u64_max
      → highest ≤ 1000000
      → Ensures
          (Counts offset symoffset highest)
          (OfTable h)
          (count_from view h offset symoffset highest)
  count_from-Ensures offset symoffset highest small below = elim (Bool-cases (highest == 0)) [
    | inl none_used ↦ rw (Ensures, none_used) (inl ((==_iff highest 0).0 none_used, refl))
    | inr used ↦
        (let along =
            Ensures-weaken (Chain offset symoffset highest) (Counts offset symoffset highest)
              (OfTable h) _
              (chain_end-Ensures offset symoffset 1000001 highest small (omega arith) below)
              (λ count c. inr (==→ne highest 0 used, c)) in
          rw (count_from, used) along)
  ]

  pub Buckets-le :
      (offset symoffset i rounds before highest : ℕ)
      → before ≤ 1000000
      → Buckets offset symoffset i rounds before highest
      → highest ≤ 1000000
  Buckets-le offset symoffset i zero before highest small b = omega (arith, b, small)
  Buckets-le offset symoffset i (suc rounds) before highest small (bucket, word, is, b) =
      Buckets-le offset symoffset (i + 1) rounds (max before bucket) highest (ground arith) b

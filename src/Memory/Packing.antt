-- ===== src/Memory/Packing.antt =====
-- Disjoint ranges inside an interval: their lengths add up to at most its length. The tables of the
-- memory accounting rest their totals on this.
use guide_xos_net.Prelude.{
  ℕ, ◌+◌, ◌-◌, ◌≤◌, ◌<◌, ◌≡◌, ◌⊎◌, refl, List, [], ◌∷◌, arith, min, max, sum, All, Pairs,
}
use native.Mathlib.Decide.{dec_lt}

module _ {ℓ} {A : Type ℓ} (base bytes : A → ℕ) where
  -- An entry of length 0 is apart from everything.
  abbrev pub Disjoint : A → A → Type 0
  Disjoint x y =
      (bytes x ≡ 0) ⊎ (bytes y ≡ 0) ⊎ (base x + bytes x ≤ base y) ⊎ (base y + bytes y ≤ base x)

  -- How much of [lo, hi) an entry covers.
  abbrev clip : ℕ → ℕ → A → ℕ
  clip lo hi x = min hi (base x + bytes x) - max lo (base x)

  clip_split :
      (lo hi : ℕ) (x : A) (ys : List A)
      → max lo (base x) < min hi (base x + bytes x)
      → All (Disjoint x) ys
      → sum (clip lo hi) ys ≡ sum (clip lo (base x)) ys + sum (clip (base x + bytes x) hi) ys
  unfolding sum
  clip_split lo hi x [] p d = refl
  clip_split lo hi x (y ∷ ys) p d = omega (arith, d.0, clip_split lo hi x ys p d.1)

  sum-clip-le : (xs : List A) (lo hi : ℕ) → Pairs Disjoint xs → sum (clip lo hi) xs ≤ hi - lo
  unfolding sum
  sum-clip-le [] lo hi d = omega arith
  sum-clip-le (x ∷ xs) lo hi d = elim (dec_lt (max lo (base x)) (min hi (base x + bytes x))) [
    | yes p ↦ omega (
      arith,
      clip_split lo hi x xs p d.0,
      sum-clip-le xs lo (base x) d.1,
      sum-clip-le xs (base x + bytes x) hi d.1,
    )
    | no q ↦ omega (arith, sum-clip-le xs lo hi d.1)
  ]

  abbrev pub Inside : ℕ → ℕ → A → Type 0
  Inside lo hi x = (bytes x ≡ 0) ⊎ ((lo ≤ base x) × (base x + bytes x ≤ hi))

  sum-clip : (xs : List A) (lo hi : ℕ) → All (Inside lo hi) xs → sum bytes xs ≡ sum (clip lo hi) xs
  unfolding sum
  sum-clip [] lo hi h = refl
  sum-clip (x ∷ xs) lo hi h = omega (arith, h.0, sum-clip xs lo hi h.1)

  -- Entries inside [lo, hi) that are pairwise disjoint cover at most hi - lo.
  pub packing :
      (xs : List A) (lo hi : ℕ) → Pairs Disjoint xs → All (Inside lo hi) xs → sum bytes xs ≤ hi - lo
  packing xs lo hi d h = omega (arith, sum-clip xs lo hi h, sum-clip-le xs lo hi d)

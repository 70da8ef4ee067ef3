-- ===== src/Prelude/Tables.antt =====
-- More laws of lists as fixed arrays: writes, sums over the entries, and entries apart.
use Prim.Native.Nat.{ℕ, zero, suc, ◌+◌, ◌≤◌, ◌<◌}
use mathlib.Core.Path.{◌≡◌, refl, ap, subst}
use mathlib.Core.Bool.{Bool, true, false}
use mathlib.Core.List.{List, [], ◌∷◌}
use mathlib.Core.Option.{Option, none, some}
use native.Mathlib.Omega.{arith}
use mathlib.Core.Logic.{◌≢◌, ◌⊎◌, inl, inr}
use guide_xos_net.Prelude.Tests.{Bool-cases}
use guide_xos_net.Prelude.Lists.{
  shift, get_elem?-set_self, get_elem?-lt, length, get_elem?, get_or, set, modify, replicate,
  find_slot, sum, All, Pairs, All-get, All-set, All-map, All-replicate,
}

module _ {ℓ} {A : Type ℓ} where
  -- A write that is apart from every entry keeps the entries apart.
  pub Pairs-set {κ} :
      {R : A → A → Type κ} (symm : (x y : A) → R x y → R y x) (xs : List A) (i : ℕ) (v : A)
      → All (R v) xs
      → Pairs R xs
      → Pairs R (set xs i v)
  Pairs-set symm [] i v h k = tt
  Pairs-set symm (x ∷ xs) zero v h k = (h.1, k.1)
  Pairs-set {R} symm (x ∷ xs) (suc i) v h k =
      (All-set (λ y. R x y) xs i v (symm v x h.0) k.0, Pairs-set symm xs i v h.1 k.1)

  pub Pairs-replicate {κ} : (R : A → A → Type κ) (n : ℕ) (a : A) → R a a → Pairs R (replicate n a)
  unfolding replicate
  Pairs-replicate R zero a r = tt
  Pairs-replicate R (suc n) a r = (All-replicate (R a) n a r, Pairs-replicate R n a r)

  -- A write exchanges one term of a sum.
  pub sum-set :
      (f : A → ℕ) (xs : List A) (i : ℕ) (v : A) {x : A}
      → get_elem? xs i ≡ some x
      → sum f (set xs i v) + f x ≡ sum f xs + f v
  unfolding sum
  sum-set f [] i v e = absurd (ground arith)
  sum-set f (y ∷ xs) zero v e = ground arith
  sum-set f (y ∷ xs) (suc i) v e = omega (arith, sum-set f xs i v e)

  pub sum-replicate : (f : A → ℕ) (n : ℕ) (a : A) → f a ≡ 0 → sum f (replicate n a) ≡ 0
  unfolding replicate sum
  sum-replicate f zero a e = refl
  sum-replicate f (suc n) a e = omega (arith, e, sum-replicate f n a e)

  -- One term is at most the sum.
  pub le-sum : (f : A → ℕ) (xs : List A) (i : ℕ) {x : A} → get_elem? xs i ≡ some x → f x ≤ sum f xs
  unfolding sum
  le-sum f [] i e = absurd (ground arith)
  le-sum f (y ∷ xs) zero e = ground arith
  le-sum f (y ∷ xs) (suc i) e = omega (arith, le-sum f xs i e)

  pub Pairs-map {κ μ} :
      {R : A → A → Type κ} {Q : A → A → Type μ} (f : (x y : A) → R x y → Q x y) (xs : List A)
      → Pairs R xs
      → Pairs Q xs
  Pairs-map f [] h = tt
  Pairs-map f (x ∷ xs) h = (All-map (f x) xs h.0, Pairs-map f xs h.1)

  -- A write of the only entry that passes is what the loop finds.
  pub find_slot-set :
      (p : A → Bool) (xs : List A) (i : ℕ) (v : A)
      → All (λ x. p x ≡ false) xs
      → p v ≡ true
      → i < length xs
      → find_slot p (set xs i v) ≡ some (i, v)
  unfolding find_slot
  find_slot-set p [] i v h t l = absurd (omega arith)
  find_slot-set p (x ∷ xs) zero v h t l = ground arith
  find_slot-set p (x ∷ xs) (suc i) v h t l = rw (h.0, find_slot-set p xs i v h.1 t (omega arith))

  -- If every entry counts at least 1, the sum is at least the length.
  pub length-le-sum : (f : A → ℕ) (xs : List A) → All (λ x. 1 ≤ f x) xs → length xs ≤ sum f xs
  unfolding sum
  length-le-sum f [] h = omega arith
  length-le-sum f (x ∷ xs) h = omega (arith, h.0, length-le-sum f xs h.1)

  pub sum-le-length : (f : A → ℕ) (xs : List A) → All (λ x. f x ≤ 1) xs → sum f xs ≤ length xs
  unfolding sum
  sum-le-length f [] h = omega arith
  sum-le-length f (x ∷ xs) h = omega (arith, h.0, sum-le-length f xs h.1)

  pub All-of {κ} : {P : A → Type κ} (f : (x : A) → P x) (xs : List A) → All P xs
  All-of f [] = tt
  All-of f (x ∷ xs) = (f x, All-of f xs)

  abbrev pub is_none : Option A → Bool
  is_none none = true
  is_none (some x) = false

  pub get_elem?-none : (xs : List A) (i : ℕ) → get_elem? xs i ≡ none → length xs ≤ i
  get_elem?-none [] i e = omega arith
  get_elem?-none (x ∷ xs) zero e = absurd (ground arith)
  get_elem?-none (x ∷ xs) (suc i) e = omega (arith, get_elem?-none xs i e)

  pub set-set : (xs : List A) (i : ℕ) (v w : A) → set (set xs i v) i w ≡ set xs i w
  set-set [] i v w = refl
  set-set (x ∷ xs) zero v w = refl
  set-set (x ∷ xs) (suc i) v w = ap (λ l. x ∷ l) (set-set xs i v w)

  pub set_same : (xs : List A) (i : ℕ) (v : A) → get_elem? xs i ≡ some v → set xs i v ≡ xs
  set_same [] i v e = refl
  set_same (x ∷ xs) zero v e = ground arith
  set_same (x ∷ xs) (suc i) v e = ap (λ l. x ∷ l) (set_same xs i v e)

  pub modify-eq-set :
      (xs : List A) (i : ℕ) (f : A → A) {x : A}
      → get_elem? xs i ≡ some x
      → modify xs i f ≡ set xs i (f x)
  modify-eq-set [] i f e = absurd (ground arith)
  modify-eq-set (x ∷ xs) zero f e = ground arith
  modify-eq-set (x ∷ xs) (suc i) f e = ap (λ l. x ∷ l) (modify-eq-set xs i f e)

  pub get_elem?-set_ne :
      (xs : List A) (i j : ℕ) (v : A) → i ≢ j → get_elem? (set xs i v) j ≡ get_elem? xs j
  get_elem?-set_ne [] i j v h = refl
  get_elem?-set_ne (x ∷ xs) zero zero v h = absurd (h refl)
  get_elem?-set_ne (x ∷ xs) zero (suc j) v h = refl
  get_elem?-set_ne (x ∷ xs) (suc i) zero v h = refl
  get_elem?-set_ne (x ∷ xs) (suc i) (suc j) v h = get_elem?-set_ne xs i j v (λ e. h (ap suc e))

  pub sum_zero : (f : A → ℕ) (xs : List A) → All (λ x. f x ≡ 0) xs → sum f xs ≡ 0
  unfolding sum
  sum_zero f [] h = refl
  sum_zero f (x ∷ xs) h = omega (arith, h.0, sum_zero f xs h.1)

  pub sum-eq-zero : (f : A → ℕ) (xs : List A) → sum f xs ≡ 0 → All (λ x. f x ≡ 0) xs
  unfolding sum
  sum-eq-zero f [] h = tt
  sum-eq-zero f (x ∷ xs) h = (omega arith, sum-eq-zero f xs (omega arith))

  -- So does a write of an entry that is apart from whatever the old one was apart from.
  pub Pairs-set_like {κ} :
      (R : A → A → Type κ) {x v : A} (f : (y : A) → R x y → R v y) (g : (y : A) → R y x → R y v)
      (xs : List A) (i : ℕ)
      → get_elem? xs i ≡ some x
      → Pairs R xs
      → Pairs R (set xs i v)
  Pairs-set_like R f g [] i e h = tt
  Pairs-set_like R {x} f g (y ∷ xs) zero e h =
      (All-map f xs (subst (λ z. All (R z) xs) (ground arith) h.0), h.1)
  Pairs-set_like R f g (y ∷ xs) (suc i) e h =
      (All-set (R y) xs i _ (g y (All-get (R y) xs i h.0 e)) h.0, Pairs-set_like R f g xs i e h.1)

  pub get_or-set_self :
      (xs : List A) (i : ℕ) (v d : A) → i < length xs → get_or (set xs i v) i d ≡ v
  get_or-set_self [] i v d h = elim h [ ]
  get_or-set_self (x ∷ xs) zero v d h = refl
  get_or-set_self (x ∷ xs) (suc i) v d h = get_or-set_self xs i v d (omega arith)

  pub get_or-set_ne :
      (xs : List A) (i j : ℕ) (v d : A) → i ≢ j → get_or (set xs i v) j d ≡ get_or xs j d
  get_or-set_ne [] i j v d h = refl
  get_or-set_ne (x ∷ xs) zero zero v d h = absurd (h refl)
  get_or-set_ne (x ∷ xs) zero (suc j) v d h = refl
  get_or-set_ne (x ∷ xs) (suc i) zero v d h = refl
  get_or-set_ne (x ∷ xs) (suc i) (suc j) v d h = get_or-set_ne xs i j v d (λ e. h (ap suc e))

  pub get_or-replicate : (n i : ℕ) (a : A) → get_or (replicate n a) i a ≡ a
  unfolding replicate
  get_or-replicate zero i a = refl
  get_or-replicate (suc n) zero a = refl
  get_or-replicate (suc n) (suc i) a = get_or-replicate n i a

  pub sum-le : (f g : A → ℕ) (h : (x : A) → f x ≤ g x) (xs : List A) → sum f xs ≤ sum g xs
  unfolding sum
  sum-le f g h [] = omega arith
  sum-le f g h (x ∷ xs) = omega (arith, h x, sum-le f g h xs)

  pub get_elem?-modify_self :
      (xs : List A) (i : ℕ) (f : A → A) {x : A}
      → get_elem? xs i ≡ some x
      → get_elem? (modify xs i f) i ≡ some (f x)
  get_elem?-modify_self [] i f e = absurd (ground arith)
  get_elem?-modify_self (x ∷ xs) zero f e = ground arith
  get_elem?-modify_self (x ∷ xs) (suc i) f e = get_elem?-modify_self xs i f e

  pub get_elem?-modify_ne :
      (xs : List A) (i j : ℕ) (f : A → A) → i ≢ j → get_elem? (modify xs i f) j ≡ get_elem? xs j
  get_elem?-modify_ne [] i j f h = refl
  get_elem?-modify_ne (x ∷ xs) zero zero f h = absurd (h refl)
  get_elem?-modify_ne (x ∷ xs) zero (suc j) f h = refl
  get_elem?-modify_ne (x ∷ xs) (suc i) zero f h = refl
  get_elem?-modify_ne (x ∷ xs) (suc i) (suc j) f h =
      get_elem?-modify_ne xs i j f (λ e. h (ap suc e))

  -- An entry after a write is the written one, or one that was there.
  pub get_elem?-modify_cases :
      (xs : List A) (i j : ℕ) (f : A → A) {y : A}
      → get_elem? (modify xs i f) j ≡ some y
      → ((x : A) × (i ≡ j) × (get_elem? xs i ≡ some x) × (y ≡ f x))
        ⊎ ((i ≢ j) × (get_elem? xs j ≡ some y))
  get_elem?-modify_cases [] i j f e = absurd (ground arith)
  get_elem?-modify_cases (x ∷ xs) zero zero f e = inl (x, refl, refl, ground arith)
  get_elem?-modify_cases (x ∷ xs) zero (suc j) f e = inr (omega arith, e)
  get_elem?-modify_cases (x ∷ xs) (suc i) zero f e = inr (omega arith, e)
  get_elem?-modify_cases (x ∷ xs) (suc i) (suc j) f e = elim (get_elem?-modify_cases xs i j f e) [
    | inl (z, p, q, r) ↦ inl (z, ap suc p, q, r)
    | inr (p, q) ↦ inr (omega arith, q)
  ]

  -- What the loop finds is the first entry that passes.
  pub find_slot-first :
      (p : A → Bool) (xs : List A) {i : ℕ} {x : A}
      → find_slot p xs ≡ some (i, x)
      → (k : ℕ) (y : A) → k < i
      → get_elem? xs k ≡ some y
      → p y ≡ false
  unfolding find_slot
  find_slot-first p [] e k y l at = absurd (ground arith)
  find_slot-first p (z ∷ xs) {i} {x} e k y l at = elim (Bool-cases (p z)) [
    | inl t ↦ absurd (nothing_before (ground arith) l)
    | inr f ↦
        go (find_slot p xs) (λ j w q m u n b. find_slot-first p xs {i = j} {x = w} q m u n b) k l at
          f (rw f at e)
  ]
    where
      nothing_before : i ≡ 0 → k < i → ⊥
      nothing_before z h = omega arith

      go :
          (o : Option (ℕ × A))
          → ((j : ℕ) (w : A)
              → o ≡ some (j, w)
              → (m : ℕ) (u : A) → m < j
              → get_elem? xs m ≡ some u
              → p u ≡ false)
          → (m : ℕ) → m < i
          → get_elem? (z ∷ xs) m ≡ some y
          → p z ≡ false
          → shift o ≡ some (i, x)
          → p y ≡ false
      go none ih m l at f q = absurd (ground arith)
      go (some (j, w)) ih zero l at f q = ground arith
      go (some (j, w)) ih (suc m) l at f q = ih j w refl m y (ground arith) at

  -- The slot of a table is written over, and no other one.
  abbrev pub Written : List A → List A → ℕ → A → Type ℓ
  Written xs ys i v =
      (get_elem? ys i ≡ some v) × ((k : ℕ) → i ≢ k → get_elem? ys k ≡ get_elem? xs k)

  pub set-Written :
      (xs : List A) (i : ℕ) (v : A) {x : A} → get_elem? xs i ≡ some x → Written xs (set xs i v) i v
  set-Written xs i v {x} e =
      (get_elem?-set_self xs i v (get_elem?-lt xs i x e), λ k n. get_elem?-set_ne xs i k v n)

  pub modify-Written :
      (xs : List A) (i : ℕ) (f : A → A) {x : A}
      → get_elem? xs i ≡ some x
      → Written xs (modify xs i f) i (f x)
  modify-Written xs i f e = (get_elem?-modify_self xs i f e, λ k n. get_elem?-modify_ne xs i k f n)

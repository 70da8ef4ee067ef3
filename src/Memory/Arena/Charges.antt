-- ===== src/Memory/Arena/Charges.antt =====
-- What is committed of a well-formed arena is at most what is reserved.
use guide_xos_net.Prelude.{
  ℕ, zero, suc, ◌+◌, ◌≤◌, ◌<◌, ◌≡◌, ◌≢◌, ◌⊎◌, inl, inr, refl, ap, ◌∙◌, false, some, List, [], ◌∷◌,
  arith, length, get_elem?, get_elem?-lt, sum, sum_zero, All, All-map, All-get, if◌then◌else◌, ◌==◌,
  ltb, leb, ◌&&◌, Bool-cases,
}
use guide_xos_net.Memory.Arena.State.{Reservation, Commitment, Arena}
use guide_xos_net.Memory.Arena.Valid.{
  ReservationOk, CommitmentOk, reserved_share, committed_share, slot_share, IsValid,
}
use guide_xos_net.Memory.Arena.Tables.{unnamed}

-- g 0 + … + g (n - 1)
total : ℕ → (ℕ → ℕ) → ℕ
total zero g = 0
total (suc n) g = g 0 + total n (λ i. g (suc i))

total-add : (n : ℕ) (g h : ℕ → ℕ) → total n (λ i. g i + h i) ≡ total n g + total n h
unfolding total
total-add zero g h = refl
total-add (suc n) g h = omega (arith, total-add n (λ i. g (suc i)) (λ i. h (suc i)))

total_zero : (n : ℕ) → total n (λ i. 0) ≡ 0
unfolding total
total_zero zero = refl
total_zero (suc n) = omega (arith, total_zero n)

-- One index adds its bytes.
total-one :
    (n slot from bytes : ℕ) (g : ℕ → ℕ)
    → ((i : ℕ) → g i ≡ (if slot == from + i then bytes else 0))
    → total n g ≡ (if leb from slot && ltb slot (from + n) then bytes else 0)
unfolding total
total-one zero slot from bytes g h = ground arith
total-one (suc n) slot from bytes g h =
    let ih =
      total-one n slot (suc from) bytes (λ i. g (suc i))
        (λ i. h (suc i) ∙ ap (λ t. if slot == t then bytes else 0) (omega arith)) in
    let here = h 0 in ground arith

-- The sums by slot add up to the sum.
total-slots :
    (n : ℕ) (cs : List Commitment)
    → All (λ c. (c.live ≡ false) ⊎ (c.reservation_slot < n)) cs
    → total n (λ i. sum (slot_share i) cs) ≡ sum committed_share cs
unfolding sum
total-slots n [] h = total_zero n
total-slots n (c ∷ cs) h =
    let one =
      total-one n c.reservation_slot 0 (committed_share c) (λ i. slot_share i c)
        (λ i. ground arith) in
    let ih = total-slots n cs h.1 in
    let add = total-add n (λ i. slot_share i c) (λ i. sum (slot_share i) cs) in
    let k = h.0 in ground arith

total-le-sum :
    (rs : List Reservation) (g : ℕ → ℕ)
    → ((i : ℕ) (r : Reservation) → get_elem? rs i ≡ some r → g i ≤ reserved_share r)
    → total (length rs) g ≤ sum reserved_share rs
unfolding total sum
total-le-sum [] g h = omega arith
total-le-sum (r ∷ rs) g h =
    omega (arith, h 0 r refl, total-le-sum rs (λ i. g (suc i)) (λ i x e. h (suc i) x e))

-- On a well-formed arena no more is committed than is reserved.
pub committed-le-reserved :
    (a : Arena) → IsValid a → a.total_committed_bytes ≤ a.total_reserved_bytes
committed-le-reserved a v = omega (
  arith,
  total-le-sum a.reservations (λ i. sum (slot_share i) a.commitments) (λ i r e. fits i r e),
  total-slots (length a.reservations) a.commitments
      (All-map (λ c h. in_range c h) a.commitments v.commitments_formed),
  v.reserved,
  v.committed,
)
  where
    in_range :
        (c : Commitment)
        → CommitmentOk a.reservations c
        → (c.live ≡ false) ⊎ (c.reservation_slot < length a.reservations)
    in_range c (inl d) = inl d
    in_range c (inr f) = inr (get_elem?-lt a.reservations c.reservation_slot f.owner f.at)

    zero_share :
        (i : ℕ) (c : Commitment) → (c.live ≡ false) ⊎ (c.reservation_slot ≢ i) → slot_share i c ≡ 0
    zero_share i c h = ground arith

    fits :
        (i : ℕ) (r : Reservation)
        → get_elem? a.reservations i ≡ some r
        → sum (slot_share i) a.commitments ≤ reserved_share r
    fits i r e = elim (Bool-cases r.live) [
      | inr dead ↦
          let z =
            sum_zero (slot_share i) a.commitments
              (All-map (λ c h. zero_share i c h) a.commitments (unnamed a i r v e dead)) in
          omega arith
      | inl live ↦
          elim (All-get (ReservationOk a.base a.length) a.reservations i v.reservations_formed e) [
            | inl d ↦ absurd (ground arith)
            | inr f ↦ ground (arith, v.charged i r e live, f.committed)
          ]
    ]

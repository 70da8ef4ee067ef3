-- ===== src/Memory/Map/Acquiring.antt =====
-- The map that an acquisition leaves behind, as it is read.
use guide_xos_net.Prelude.{
  ℕ, zero, suc, ◌*◌, ◌≤◌, ◌≡◌, ◌⊎◌, inl, inr, refl, sym, subst, true, none, some, arith, ltb, ◌==◌,
  if◌then◌else◌, Bool-cases, Option-cases,
}
use guide_xos_net.Memory.Map.{Descriptor, MemoryMap, map_growth_size, parse, descriptor}
use guide_xos_net.Memory.Map.Reading.{parse-descriptor}
use guide_xos_net.Memory.Map.Acquire.{
  Query, Firmware, MapStatus, map_ok, filled, accept, drop_buffer, Outcome, done, again, round,
  or_default, acquire_rounds, acquire, max_retries,
}

-- A map whose descriptors can all be read, or one of no descriptors.
pub record Readable (m : MemoryMap) : Type 0 where
  pub valid : m.valid ≡ true
  pub read :
      (m.descriptor_count ≡ 0)
      ⊎ ((at : ℕ → Descriptor) × (m.backing ≡ some at)
          × ((index : ℕ)
              → descriptor m index ≡ (
                  if ltb index m.descriptor_count
                  then some (at (index * m.descriptor_size))
                  else none)))

pub Outcome-cases :
    {S : Type 0} (o : Outcome S)
    → ((r : MapStatus × MemoryMap × S) × (o ≡ done r))
      ⊎ ((s : S) × (b : ℕ) × (m : ℕ) × (z : ℕ) × (o ≡ again s b m z))
Outcome-cases (done r) = inl (r, refl)
Outcome-cases (again s b m z) = inr (s, b, m, z, refl)

module _ {S : Type 0} (f : Firmware S) where
  accept-Readable :
      (q : Query S) (buffer required : ℕ)
      → (accept f q buffer required).0 ≡ map_ok
      → Readable (accept f q buffer required).1
  unfolding accept
  accept-Readable q buffer required h = elim (Option-cases (parse true q.bytes q.size)) [
    | inl e ↦ absurd (ground arith)
    | inr (count, e) ↦
        let fits : q.bytes ≤ required = ground arith in
        let m : accept f q buffer required ≡ (map_ok, filled f q required count, q.state) =
          ground arith in
        subst (λ r. Readable r.1) (sym m)
          (record {
            valid = refl;
            read = inr (
              q.contents,
              refl,
              λ index.
                  parse-descriptor (filled f q required count) q.contents index refl refl fits e,
            );
          })
  ]

  round-done :
      (s : S) (buffer map_bytes size : ℕ) (r : MapStatus × MemoryMap × S)
      → round f s buffer map_bytes size ≡ done r
      → r.0 ≡ map_ok
      → (q : Query S) × (b : ℕ) × (required : ℕ) × (r ≡ accept f q b required)
  unfolding round
  round-done s buffer map_bytes size r e h = elim (Option-cases (map_growth_size map_bytes size)) [
    | inl g ↦ absurd (ground arith)
    | inr (required, g) ↦ elim (Option-cases (drop_buffer f s buffer)) [
      | inl d ↦ absurd (ground arith)
      | inr (s1, d) ↦
          let a = f.allocate_pool s1 required in
          (f.get_memory_map a.0 required a.2, a.2, required, ground arith)
    ]
  ]

  rounds-Readable :
      (n : ℕ) (s : S) (buffer map_bytes size : ℕ)
      → (acquire_rounds f n s buffer map_bytes size).0 ≡ map_ok
      → Readable (acquire_rounds f n s buffer map_bytes size).1
  unfolding acquire_rounds
  rounds-Readable zero s buffer map_bytes size h = absurd (ground arith)
  rounds-Readable (suc n) s buffer map_bytes size h =
      elim (Outcome-cases (round f s buffer map_bytes size)) [
        | inl (r, e) ↦
            let good : r.0 ≡ map_ok = ground arith in
            let (q, b, required, x) = round-done s buffer map_bytes size r e good in
            rw (e, acquire_rounds, x)
              ((accept-Readable q b required (subst (λ r. r.0 ≡ map_ok) x good)))
        | inr (s', b, m, z, e) ↦ rw (e, acquire_rounds) (rounds-Readable n s' b m z (ground arith))
      ]

  -- A map that is acquired with OK is valid, and each of its descriptors can be read.
  pub acquire-Readable : (s : S) → (acquire f s).0 ≡ map_ok → Readable (acquire f s).1
  unfolding acquire
  acquire-Readable s h =
      let q = f.get_memory_map s 0 0 in
      elim (Bool-cases (q.bytes == 0)) [
        | inl z ↦ record { valid = ground arith; read = inl (ground arith) }
        | inr n ↦
            let e : acquire f s
                ≡ acquire_rounds f max_retries q.state 0 q.bytes (or_default f q.size) =
              ground arith in
            subst (λ r. Readable r.1) (sym e)
              (rounds-Readable max_retries q.state 0 q.bytes (or_default f q.size)
                (subst (λ r. r.0 ≡ map_ok) e h))
      ]

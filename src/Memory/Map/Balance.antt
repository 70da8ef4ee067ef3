-- ===== src/Memory/Map/Balance.antt =====
-- The pool buffers that an acquisition leaves behind.
use guide_xos_net.Prelude.{
  ℕ, zero, suc, ◌≡◌, ◌≢◌, ◌⊎◌, inl, inr, refl, sym, subst, ◌∙◌, Bool, true, false, none, some,
  arith, ltb, leb, ◌==◌, Bool-cases, Option-cases, not, ◌||◌, ◌&&◌,
}
use guide_xos_net.Memory.Map.{Descriptor, MemoryMap, map_growth_size, parse}
use guide_xos_net.Memory.Map.Acquire.{
  efi_success, Query, Firmware, MapStatus, map_ok, map_overflow, firmware_query, map_malformed,
  retry_exhausted, allocation, empty_map, give_up, accept, drop_buffer, Outcome, done, again, round,
  efi_buffer_too_small, or_default, acquire_rounds, acquire, max_retries,
}
use guide_xos_net.Memory.Map.Acquiring.{Outcome-cases}

-- The pool of the firmware, by its documentation: `out s b` tells whether the buffer at address b is
-- allocated. A query allocates and frees none. An allocation that succeeds gives the address of a
-- buffer that was not allocated, and one that fails changes nothing. Freeing a buffer that is allocated
-- succeeds; of freeing anything else nothing is known.
pub record Pool {S : Type 0} (f : Firmware S) (out : S → ℕ → Bool) : Type 0 where
  pub queried :
      (s : S) (bytes buffer b : ℕ) → out (f.get_memory_map s bytes buffer).state b ≡ out s b
  pub allocated :
      (s : S) (bytes : ℕ)
      → (f.allocate_pool s bytes).1 ≡ efi_success
      → (f.allocate_pool s bytes).2 ≢ 0
      → (out s (f.allocate_pool s bytes).2 ≡ false)
        × (out (f.allocate_pool s bytes).0 (f.allocate_pool s bytes).2 ≡ true)
        × ((b : ℕ) → (f.allocate_pool s bytes).2 ≢ b → out (f.allocate_pool s bytes).0 b ≡ out s b)
  pub refused :
      (s : S) (bytes : ℕ)
      → ((f.allocate_pool s bytes).1 ≢ efi_success) ⊎ ((f.allocate_pool s bytes).2 ≡ 0)
      → (b : ℕ) → out (f.allocate_pool s bytes).0 b ≡ out s b
  pub freed :
      (s : S) (buffer : ℕ)
      → out s buffer ≡ true
      → ((f.free_pool s buffer).1 ≡ efi_success)
        × (out (f.free_pool s buffer).0 buffer ≡ false)
        × ((b : ℕ) → buffer ≢ b → out (f.free_pool s buffer).0 b ≡ out s b)

module _ {S : Type 0} (f : Firmware S) (out : S → ℕ → Bool) (p : Pool f out) where
  -- The same buffers are allocated.
  abbrev pub Even : S → S → Type 0
  Even s t = (b : ℕ) → out t b ≡ out s b

  -- One buffer is allocated that was not, and no other differs.
  abbrev pub Left : S → S → ℕ → Type 0
  Left s t buffer =
      (buffer ≢ 0)
      × (out s buffer ≡ false)
      × (out t buffer ≡ true)
      × ((b : ℕ) → buffer ≢ b → out t b ≡ out s b)

  abbrev pub Balanced : S → MapStatus × MemoryMap × S → Type 0
  Balanced s r =
      ((r.0 ≡ map_ok)
        × ((r.1.backing ≡ none) × Even s r.2
            ⊎ ((at : ℕ → Descriptor) × (buffer : ℕ) × (r.1.backing ≡ some at) × Left s r.2 buffer)))
      ⊎ ((r.0 ≡ map_overflow) × (Even s r.2 ⊎ ((buffer : ℕ) × Left s r.2 buffer)))
      ⊎ ((r.0 ≢ map_ok) × (r.0 ≢ map_overflow) × Even s r.2)

  -- What a round starts from: the buffer of the one before, or none.
  Held : S → S → ℕ → Type 0
  Held s t buffer = ((buffer ≡ 0) × Even s t) ⊎ Left s t buffer

  Left-query :
      (s t : S) (bytes at buffer : ℕ)
      → Left s t buffer
      → Left s (f.get_memory_map t bytes at).state buffer
  Left-query s t bytes at buffer (n, was, is, other) =
      (n, was, p.queried t bytes at buffer ∙ is, λ b m. p.queried t bytes at b ∙ other b m)

  Left-free : (s t : S) (buffer : ℕ) → Left s t buffer → Even s (f.free_pool t buffer).0
  Left-free s t buffer (n, was, is, other) b = elim (Bool-cases (buffer == b)) [
    | inr m ↦ (p.freed t buffer is).2 b (ground arith) ∙ other b (ground arith)
    | inl m ↦
        let q : buffer ≡ b = ground arith in
        subst (λ x. out (f.free_pool t buffer).0 x ≡ out s x) q ((p.freed t buffer is).1 ∙ sym was)
  ]

  Even-allocate :
      (s t : S) (bytes : ℕ)
      → Even s t
      → (f.allocate_pool t bytes).1 ≡ efi_success
      → (f.allocate_pool t bytes).2 ≢ 0
      → Left s (f.allocate_pool t bytes).0 (f.allocate_pool t bytes).2
  Even-allocate s t bytes even good n =
      let a = p.allocated t bytes good n in
      (n, sym (even (f.allocate_pool t bytes).2) ∙ a.0, a.1, λ b m. a.2 b m ∙ even b)

  give_up-Balanced :
      (s t : S) (status : MapStatus) (buffer : ℕ)
      → status ≢ map_ok
      → status ≢ map_overflow
      → Left s t buffer
      → Balanced s (give_up f status t buffer)
  give_up-Balanced s t status buffer n o h = inr (inr (n, o, Left-free s t buffer h))

  accept-Balanced :
      (s : S) (q : Query S) (buffer required : ℕ)
      → Left s q.state buffer
      → Balanced s (accept f q buffer required)
  unfolding accept
  accept-Balanced s q buffer required h =
      let x = give_up-Balanced s q.state firmware_query buffer (λ e. cc) (λ e. cc) h in
      let y = give_up-Balanced s q.state map_malformed buffer (λ e. cc) (λ e. cc) h in
      elim (Bool-cases (q.status == efi_success)) [
        | inr bad ↦ rw bad x
        | inl good ↦ elim (Bool-cases (ltb required q.bytes)) [
          | inl long ↦ rw (good, long) y
          | inr fits ↦ elim (Option-cases (parse true q.bytes q.size)) [
            | inl e ↦ rw (good, fits, e) y
            | inr (count, e) ↦ rw (good, fits, e) (inl (refl, inr (q.contents, buffer, refl, h)))
          ]
        ]
      ]

  abbrev RoundBalanced : S → Outcome S → Type 0
  RoundBalanced s (done r) = Balanced s r
  RoundBalanced s (again t buffer m z) = Held s t buffer

  drop-Held :
      (s t : S) (buffer : ℕ)
      → Held s t buffer
      → (t1 : S) × (drop_buffer f t buffer ≡ some t1) × Even s t1
  unfolding Held
  drop-Held s t buffer (inl (z, even)) = (t, rw z refl, even)
  drop-Held s t buffer (inr h) =
      let x = p.freed t buffer h.2 in
      let n : (buffer == 0) ≡ false = let m = h.0 in ground arith in
      ((f.free_pool t buffer).0, rw (n, x.0) refl, Left-free s t buffer h)

  round-Balanced :
      (s t : S) (buffer map_bytes size : ℕ)
      → Held s t buffer
      → RoundBalanced s (round f t buffer map_bytes size)
  unfolding round Held
  round-Balanced s t buffer map_bytes size h =
      elim (Option-cases (map_growth_size map_bytes size)) [
        | inl g ↦
            ends (done (map_overflow, empty_map, t)) (rw (g, round) refl) (inr (inl (refl, over h)))
        | inr (required, g) ↦
            let (t1, d, even) = drop-Held s t buffer h in
            let a = f.allocate_pool t1 required in
            let q = f.get_memory_map a.0 required a.2 in
            elim (Bool-cases (not (a.1 == efi_success) || a.2 == 0)) [
              | inl bad ↦ ends (done (allocation, empty_map, a.0)) (rw (g, round, d, bad) refl) (
                  inr
                    (inr (λ e. cc, λ e. cc, λ b. p.refused t1 required (ground arith) b ∙ even b)))
              | inr good ↦
                  let hq : Left s q.state a.2 =
                    Left-query s a.0 required a.2 a.2
                      (Even-allocate s t1 required even (ground arith) (ground arith)) in
                  elim (Bool-cases (q.status == efi_buffer_too_small)) [
                    | inr enough ↦
                        ends (done (accept f q a.2 required)) (rw (g, round, d, good, enough) refl)
                          (accept-Balanced s q a.2 required hq)
                    | inl small ↦ elim (Bool-cases (leb q.bytes required)) [
                      | inl odd ↦
                          ends (done (give_up f retry_exhausted q.state a.2))
                            (rw (g, round, d, good, small, odd) refl)
                            (give_up-Balanced s q.state retry_exhausted a.2 (λ e. cc) (λ e. cc) hq)
                      | inr more ↦
                          ends (again q.state a.2 q.bytes (or_default f q.size))
                            (rw (g, round, d, good, small, more) refl) (inr hq)
                    ]
                  ]
            ]
      ]
    where
      ends :
          (o : Outcome S)
          → round f t buffer map_bytes size ≡ o
          → RoundBalanced s o
          → RoundBalanced s (round f t buffer map_bytes size)
      ends o e u = subst (RoundBalanced s) (sym e) u

      over : Held s t buffer → Even s t ⊎ ((b : ℕ) × Left s t b)
      over (inl (z, even)) = inl even
      over (inr l) = inr (buffer, l)

  rounds-Balanced :
      (n : ℕ) (s t : S) (buffer map_bytes size : ℕ)
      → Held s t buffer
      → Balanced s (acquire_rounds f n t buffer map_bytes size)
  unfolding acquire_rounds Held
  rounds-Balanced zero s t buffer map_bytes size (inl (z, even)) =
      rw z (inr (inr (λ e. cc, λ e. cc, even)))
  rounds-Balanced zero s t buffer map_bytes size (inr h) =
      let n : (buffer == 0) ≡ false = let m = h.0 in ground arith in
      rw n (give_up-Balanced s t retry_exhausted buffer (λ e. cc) (λ e. cc) h)
  rounds-Balanced (suc n) s t buffer map_bytes size h =
      let b = round-Balanced s t buffer map_bytes size h in
      elim (Outcome-cases (round f t buffer map_bytes size)) [
        | inl (r, e) ↦ rw (e, acquire_rounds) (subst (RoundBalanced s) e b)
        | inr (t', b', m, z, e) ↦
            rw (e, acquire_rounds) (rounds-Balanced n s t' b' m z (subst (RoundBalanced s) e b))
      ]

  -- With a firmware that keeps its pool as documented, `acquire` leaves exactly one buffer more allocated
  -- when it returns OK with a map that has a backing, none when it returns OK with an empty map, and
  -- none with any other status but OVERFLOW, with which one buffer may be left; every buffer that was
  -- allocated before still is, and no other differs.
  pub acquire-Balanced : (s : S) → Balanced s (acquire f s)
  unfolding acquire Held
  acquire-Balanced s =
      let q = f.get_memory_map s 0 0 in
      let even : Even s q.state = λ b. p.queried s 0 0 b in
      elim (Bool-cases (not (q.status == efi_buffer_too_small) && not (q.status == efi_success))) [
        | inl bad ↦ rw bad (inr (inr (λ e. cc, λ e. cc, even)))
        | inr good ↦ elim (Bool-cases (q.bytes == 0)) [
          | inr n ↦
              rw (good, n)
                (rounds-Balanced max_retries s q.state 0 q.bytes (or_default f q.size)
                  (inl (refl, even)))
          | inl z ↦ elim (Bool-cases (q.status == efi_success)) [
            | inl empty ↦ rw (good, z, empty) (inl (refl, inl (refl, even)))
            | inr odd ↦ rw (good, z, odd) (inr (inr (λ e. cc, λ e. cc, even)))
          ]
        ]
      ]

-- ===== src/MemSlot/Alloc.antt =====
-- c/src/mem_slot.c: what `slot_alloc` and `slot_free` promise, unit by unit.
use artorias.Prelude.{
  ℕ, ◌+◌, ◌-◌, ◌%◌, ◌^◌, ◌≤◌, ◌<◌, ◌≡◌, refl, sym, ◌∙◌, ◌⊎◌, inl, inr, true, false, none, some,
  arith, ◌==◌, ltb, leb, ◌||◌, ◌&&◌, replicate, length-replicate, get_or-replicate, Bool-cases,
}
use artorias.Prelude.Bits.{bit-zero}
use artorias.MemSlot.{
  Slot, slot_size, IsSlot, Run, slot_new, Outcome, failed, got, fault, alloc_found, slot_alloc,
  slot_free, unit_at, or_mask, mark_used_flag,
}
use artorias.MemSlot.Mark.{Marked, mark_used_flag-Marked, mark_free_flag-Marked, mark_flag_edge}
use artorias.MemSlot.Search.{Free, NoFit, Found, search-Found}

-- The specification of `slot_alloc s size`, by outcome: a refusal has a reason, a result is a free
-- range below the last unit that is now in use, and a fault means that the range found ends with
-- the last unit.
abbrev pub IsAlloc : Slot → ℕ → Outcome → Type 0
IsAlloc s size failed = (size ≡ 0) ⊎ (slot_size s < size) ⊎ NoFit s.flag size s.n
IsAlloc s size (got o s') =
    IsSlot s'
    × (s'.n ≡ s.n)
    × (0 < size)
    × (o + size < slot_size s)
    × Free s.flag o (o + size)
    × Marked 1 o (o + size) s.flag s'.flag
IsAlloc s size fault = (o : ℕ) × (o + size ≡ slot_size s) × Free s.flag o (o + size)

module _ (s : Slot) (is : IsSlot s) (size : ℕ) (some_size : 0 < size) where
  Found-IsAlloc : (r : Run) → Found s.flag size s.n r → IsAlloc s size (alloc_found s size (some r))
  Found-IsAlloc r f = elim (Bool-cases (leb size r.empty)) [
    | inr short ↦ rw short (no_long r f.long (ground arith))
    | inl enough ↦ rw enough (elim (Bool-cases (ltb (r.offset + size) (slot_size s))) [
      | inl inside ↦
          let (g, marked, m) =
            mark_used_flag-Marked s.flag r.offset size (ground (arith, is.size)) in
          let keep : IsSlot (record s { flag = g }) = record {
            size = m.size ∙ is.size;
            small = is.small;
            bytes = m.bytes is.bytes;
          } in
          rw marked (keep, refl, some_size, ground arith, λ p lo hi. f.free p lo (ground arith), m)
      | inr edge ↦
          let at_end : r.offset + size ≡ slot_size s = ground (arith, f.within) in
          rw (edge_fault r.offset at_end) (r.offset, at_end, λ p lo hi. f.free p lo (ground arith))
    ])
  ]
    where
      edge_fault : (o : ℕ) → o + size ≡ slot_size s → mark_used_flag s.flag o size ≡ none
      edge_fault o e =
          unfold mark_used_flag in mark_flag_edge or_mask 0xff s.flag o size (rw is.size e)

      no_long :
          (r : Run)
          → (size ≤ r.empty) ⊎ NoFit s.flag size s.n
          → r.empty < size
          → IsAlloc s size failed
      no_long r (inl h) short = absurd (omega arith)
      no_long r (inr h) short = inr (inr h)

-- On a well-formed slot, `slot_alloc` does what its outcome says: a refusal means size 0, a size
-- above the slot's, or that no free run that starts at a byte is long enough; a result is a free
-- range below the last unit, whose units are now in use while no other unit changed, and the slot
-- stays well formed; an access out of bounds means that the free range found ends with the last
-- unit.
pub slot_alloc-IsAlloc : (s : Slot) (size : ℕ) → IsSlot s → IsAlloc s size (slot_alloc s size)
unfolding slot_alloc
slot_alloc-IsAlloc s size is = elim (Bool-cases (ltb (slot_size s) size || (size == 0))) [
  | inl refused ↦ rw refused (refused_why (ground arith))
  | inr accepted ↦
      let some_size : 0 < size = ground arith in
      let (r, e, f) = search-Found s.flag size s.n some_size (omega (arith, is.size)) is.bytes in
      rw accepted (rw e (Found-IsAlloc s is size some_size r f))
]
  where
    refused_why : (slot_size s < size) ⊎ (size ≡ 0) → IsAlloc s size failed
    refused_why (inl h) = inr (inl h)
    refused_why (inr h) = inl h

-- On a well-formed slot, two allocations that succeed one after the other have no unit in common.
pub alloc-alloc_disjoint :
    (s t u : Slot) (m n o p : ℕ)
    → IsSlot s
    → slot_alloc s m ≡ got o t
    → slot_alloc t n ≡ got p u
    → (o + m ≤ p) ⊎ (p + n ≤ o)
alloc-alloc_disjoint s t u m n o p is first second =
    let a : IsAlloc s m (got o t) = rw first at (slot_alloc-IsAlloc s m is) in
    let b : IsAlloc t n (got p u) = rw second at (slot_alloc-IsAlloc t n a.0) in
    elim (Bool-cases (leb o p)) [
      | inl le ↦ elim (Bool-cases (leb (o + m) p)) [
        | inl apart ↦ inl (ground arith)
        | inr over ↦ absurd (
            omega (
              arith,
              a.5.inside p (ground arith) (ground arith),
              b.4 p (ground arith) (omega arith),
            ))
      ]
      | inr gt ↦ elim (Bool-cases (leb (p + n) o)) [
        | inl apart ↦ inr (ground arith)
        | inr over ↦ absurd (
            omega (
              arith,
              a.5.inside o (ground arith) (omega arith),
              b.4 o (ground arith) (ground arith),
            ))
      ]
    ]

-- On a well-formed slot, for a range that ends below the last unit, `slot_free` stays in bounds,
-- clears the units of the range, changes no other, and leaves the slot well formed.
slot_free-Marked :
    (s : Slot) (o size : ℕ)
    → IsSlot s
    → o + size < slot_size s
    → (t : Slot) × (slot_free s o size ≡ some t) × IsSlot t × Marked 0 o (o + size) s.flag t.flag
unfolding slot_free
slot_free-Marked s o size is h =
    let (g, freed, m) = mark_free_flag-Marked s.flag o size (rw is.size h) in
    let accepted : (ltb (slot_size s) o || ltb (slot_size s) ((o + size) % 2 ^ 32)) ≡ false =
      ground (arith, is.small) in
    (
      record { n = s.n; flag = g },
      rw (accepted, freed),
      record { size = m.size ∙ is.size; small = is.small; bytes = m.bytes is.bytes },
      m,
    )

-- On a well-formed slot, freeing the range that an allocation has just returned stays in bounds,
-- and every unit is as it was before the allocation.
pub slot_free-slot_alloc :
    (s t : Slot) (size o : ℕ)
    → IsSlot s
    → slot_alloc s size ≡ got o t
    → (u : Slot) × (slot_free t o size ≡ some u)
      × IsSlot u
      × ((p : ℕ) → unit_at u.flag p ≡ unit_at s.flag p)
slot_free-slot_alloc s t size o is e =
    let a : IsAlloc s size (got o t) = rw e at (slot_alloc-IsAlloc s size is) in
    let (u, freed, ok, m) = slot_free-Marked t o size a.0 (ground (arith, a.3, a.1)) in
    (
      u,
      freed,
      ok,
      λ p. elim (Bool-cases (leb o p && ltb p (o + size))) [
        | inl inside ↦
            m.inside p (ground arith) (ground arith) ∙ sym (a.4 p (ground arith) (ground arith))
        | inr outside ↦ m.outside p (ground arith) ∙ a.5.outside p (ground arith)
      ],
    )

-- For a count of bytes below 256, where `malloc` does not fail, `slot_new` returns a well-formed
-- slot of that many bytes whose units are all free.
slot_new-Free :
    (n : ℕ)
    → n < 256
    → (s : Slot) × (slot_new true n ≡ some s) × (s.n ≡ n) × IsSlot s × Free s.flag 0 (slot_size s)
unfolding slot_new
slot_new-Free n h = (
  record { n = n; flag = replicate n 0 },
  refl,
  refl,
  record { size = length-replicate n 0; small = h; bytes = λ i. rw get_or-replicate (omega arith) },
  λ p lo hi. rw get_or-replicate (bit-zero (7 - p % 8)),
)

-- A request for all units of a well-formed slot of at least one byte that is entirely free makes
-- `slot_alloc` access a byte outside the flags.
pub slot_alloc_whole :
    (s : Slot)
    → IsSlot s
    → 0 < s.n
    → Free s.flag 0 (slot_size s)
    → slot_alloc s (slot_size s) ≡ fault
slot_alloc_whole s is some_n free =
    whole (slot_alloc s (slot_size s)) (slot_alloc-IsAlloc s (slot_size s) is)
  where
    refused : (slot_size s ≡ 0) ⊎ (slot_size s < slot_size s) ⊎ NoFit s.flag (slot_size s) s.n → ⊥
    refused (inl h) = omega arith
    refused (inr (inl h)) = omega arith
    refused (inr (inr h)) = h 0 (omega arith) (λ p lo hi. free p lo (omega arith))

    whole : (r : Outcome) → IsAlloc s (slot_size s) r → r ≡ fault
    whole failed h = absurd (refused h)
    whole (got o t) h = absurd (omega (arith, h.3))
    whole fault h = refl

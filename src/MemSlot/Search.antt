-- ===== src/MemSlot/Search.antt =====
-- c/src/mem_slot.c: the search of `slot_alloc` for a run of free units.
use artorias.Prelude.{
  ℕ, zero, suc, ◌+◌, ◌-◌, ◌*◌, ◌/◌, ◌%◌, ◌≤◌, ◌<◌, ◌≡◌, refl, ◌⊎◌, ◌≢◌, inl, inr, ◌∙◌, some, List,
  arith, ◌==◌, ltb, leb, length, get_or, get_elem?-eq-get_or, Bool-cases,
}
use artorias.Prelude.Bits.{bit, bit-zero}
use artorias.BitScan.{bits_cl0_u8, bits_ct0_u8}
use artorias.BitScan.Byte.{
  bits_cl0_u8-lt, bits_cl0_u8-zero, bits_cl0_u8-one, bits_ct0_u8-lt, bits_ct0_u8-zero,
}
use artorias.MemSlot.{Run, search_byte, search_flags, unit_at}

-- The units from `lo` up to `hi` are free.
abbrev pub Free : List ℕ → ℕ → ℕ → Type 0
Free flag lo hi = (p : ℕ) → lo ≤ p → p < hi → unit_at flag p ≡ 0

-- No free run of `size` units starts at a byte and ends by the byte `i`.
abbrev pub NoFit : List ℕ → ℕ → ℕ → Type 0
NoFit flag size i = (a : ℕ) → a * 8 + size ≤ i * 8 → Free flag (a * 8) (a * 8 + size) → ⊥

-- The search has read `i` bytes without success: its run is the longest that ends there, among
-- those that start at a byte.
record Pending (flag : List ℕ) (size i : ℕ) (r : Run) : Type 0 where
  at_end : r.offset + r.empty ≡ i * 8
  longest : (a : ℕ) → a ≤ i → Free flag (a * 8) (i * 8) → r.offset ≤ a * 8
  no_fit : NoFit flag size i

record Searched (flag : List ℕ) (size i : ℕ) (r : Run) : Type 0 where
  free : Free flag r.offset (r.offset + r.empty)
  within : r.offset + r.empty ≤ i * 8
  state : (size ≤ r.empty) ⊎ Pending flag size i r

module _ (flag : List ℕ) (size i : ℕ) (some_size : 0 < size)
    (bytes : (j : ℕ) → get_or flag j 0 < 256) (r : Run) (short : r.empty < size)
    (run : Free flag r.offset (r.offset + r.empty)) (pending : Pending flag size i r) where
  abbrev b : ℕ
  b = get_or flag i 0

  unit_at-byte : (p : ℕ) → p / 8 ≡ i → unit_at flag p ≡ bit b (7 - p % 8)
  unit_at-byte p e = rw e

  -- The byte's first `len` units extend the run, if they are free.
  head-Free :
      (len : ℕ)
      → ((j : ℕ) → j < len → j < 8 → bit b (7 - j) ≡ 0)
      → len ≤ 8
      → Free flag r.offset (r.offset + (r.empty + len))
  head-Free len z small p lo hi = elim (Bool-cases (ltb p (r.offset + r.empty))) [
    | inl old ↦ run p lo (ground arith)
    | inr new ↦
        let e : p / 8 ≡ i = ground (arith, pending.at_end) in
        unit_at-byte p e ∙ z (p % 8) (ground (arith, pending.at_end)) (omega arith)
  ]

  set_unit : (l : ℕ) → l < 8 → bit b (7 - l) ≡ 1 → unit_at flag (i * 8 + l) ≡ 1
  set_unit l h set_bit =
      let e : (i * 8 + l) / 8 ≡ i = omega arith in
      let m : (i * 8 + l) % 8 ≡ l = omega arith in rw (e, m) set_bit

  -- Where the byte's first `l` units do not complete the run, and the next one is in use, no run
  -- that starts at a byte and ends in this byte is long enough.
  NoFit-next : (l : ℕ) → (l < 8 → bit b (7 - l) ≡ 1) → r.empty + l < size → NoFit flag size (i + 1)
  NoFit-next l stops few a fits free = elim (Bool-cases (leb (a * 8 + size) (i * 8))) [
    | inl old ↦ pending.no_fit a (ground arith) free
    | inr new ↦
        let before : r.offset ≤ a * 8 =
          pending.longest a (ground arith) (λ p lo hi. free p lo (ground arith)) in
        let over : i * 8 + l < a * 8 + size = ground (arith, pending.at_end) in
        let l_small : l < 8 = omega arith in
        omega (
          arith,
          free (i * 8 + l) (ground (arith, pending.at_end)) over,
          set_unit l l_small (stops l_small),
        )
  ]

  search_zero : b ≡ 0 → Searched flag size (i + 1) (record r { empty = r.empty + 8 })
  search_zero z = record {
    free = head-Free 8 (λ j _ h. rw z (bit-zero (7 - j))) (omega arith);
    within = omega (arith, pending.at_end);
    state = elim (Bool-cases (leb size (r.empty + 8))) [
      | inl found ↦ inl (ground arith)
      | inr not_yet ↦ inr (record {
        at_end = omega (arith, pending.at_end);
        longest = λ a le free. elim (Bool-cases (leb a i)) [
          | inl old ↦ pending.longest a (ground arith) (λ p lo hi. free p lo (omega arith))
          | inr new ↦ ground (arith, pending.at_end)
        ];
        no_fit = NoFit-next 8 (λ h. absurd (omega arith)) (ground arith);
      })
    ];
  }

  module _ (nonzero : b ≢ 0) where
    abbrev lead : ℕ
    lead = bits_cl0_u8 b

    abbrev trail : ℕ
    trail = bits_ct0_u8 b

    search_lead :
        size ≤ r.empty + lead → Searched flag size (i + 1) (record r { empty = r.empty + lead })
    search_lead enough = record {
      free =
          head-Free lead (λ j h _. bits_cl0_u8-zero b (bytes i) nonzero j h)
            (omega (arith, bits_cl0_u8-lt b (bytes i) nonzero));
      within = omega (arith, pending.at_end, bits_cl0_u8-lt b (bytes i) nonzero);
      state = inl enough;
    }

    search_restart :
        r.empty + lead < size
        → Searched flag size (i + 1) (record { offset = i * 8 + (8 - trail); empty = trail })
    search_restart few =
        let lead_small = bits_cl0_u8-lt b (bytes i) nonzero in
        let trail_small = bits_ct0_u8-lt b (bytes i) nonzero in
        let set_bit = bits_cl0_u8-one b (bytes i) nonzero in
        record {
          free = λ p lo hi.
              let e : p / 8 ≡ i = omega arith in
              unit_at-byte p e
              ∙ bits_ct0_u8-zero b (bytes i) nonzero (p % 8) (omega arith) (omega arith);
          within = omega arith;
          state = elim (Bool-cases (leb size trail)) [
            | inl found ↦ inl (ground arith)
            | inr not_yet ↦ inr (record {
              at_end = omega arith;
              longest = λ a le free. elim (Bool-cases (leb a i)) [
                | inl old ↦ absurd (
                    omega (
                      arith,
                      free (i * 8 + lead) (ground arith) (omega arith),
                      set_unit lead lead_small set_bit,
                    ))
                | inr new ↦ ground arith
              ];
              no_fit = NoFit-next lead (λ _. set_bit) few;
            })
          ];
        }

  search_byte-Searched : Searched flag size (i + 1) (search_byte size i b r)
  unfolding search_byte
  search_byte-Searched = elim (Bool-cases (b == 0)) [
    | inl z ↦ rw z (search_zero (ground arith))
    | inr nz ↦ rw nz (elim (Bool-cases (leb size (r.empty + bits_cl0_u8 b))) [
      | inl enough ↦ rw enough (search_lead (ground arith) (ground arith))
      | inr few ↦ rw few (search_restart (ground arith) (ground arith))
    ])
  ]

-- What the search ends with: a free run, long enough unless no run that starts at a byte is.
pub record Found (flag : List ℕ) (size n : ℕ) (r : Run) : Type 0 where
  pub free : Free flag r.offset (r.offset + r.empty)
  pub within : r.offset + r.empty ≤ n * 8
  pub long : (size ≤ r.empty) ⊎ NoFit flag size n

module _ (flag : List ℕ) (size n : ℕ) (some_size : 0 < size) (fits : n ≤ length flag)
    (bytes : (j : ℕ) → get_or flag j 0 < 256) where
  done_early :
      (i : ℕ) (r : Run) → i ≤ n → size ≤ r.empty → Searched flag size i r → Found flag size n r
  done_early i r h found s = record {
    free = s.free;
    within = omega (arith, s.within);
    long = inl found;
  }

  NoFit-of :
      (r : Run) → (size ≤ r.empty) ⊎ Pending flag size n r → (size ≤ r.empty) ⊎ NoFit flag size n
  NoFit-of r (inl h) = inl h
  NoFit-of r (inr p) = inr p.no_fit

  Pending-of :
      (i : ℕ) (r : Run)
      → r.empty < size
      → (size ≤ r.empty) ⊎ Pending flag size i r
      → Pending flag size i r
  Pending-of i r short (inl h) = absurd (omega arith)
  Pending-of i r short (inr p) = p

  search_flags-Found :
      (left i : ℕ) (r : Run)
      → i + left ≡ n
      → Searched flag size i r
      → (r' : Run) × (search_flags size flag left i r ≡ some r') × Found flag size n r'
  unfolding search_flags
  search_flags-Found zero i r e s =
      let e' : i ≡ n = omega arith in
      (
        r,
        refl,
        record {
          free = s.free;
          within = omega (arith, s.within);
          long = NoFit-of r (rw e' at s.state);
        },
      )
  search_flags-Found (suc left) i r e s = elim (Bool-cases (ltb r.empty size)) [
    | inl short ↦
        let next =
          search_byte-Searched flag size i some_size bytes r (ground arith) s.free
            (Pending-of i r (ground arith) s.state) in
        let rest =
          search_flags-Found left (i + 1) (search_byte size i (get_or flag i 0) r) (omega arith)
            next in
        rw (short, get_elem?-eq-get_or flag i 0 (omega arith)) rest
    | inr found ↦ rw found (r, refl, done_early i r (omega arith) (ground arith) s)
  ]

  pub search-Found :
      (r : Run) × (search_flags size flag n 0 (record { offset = 0; empty = 0 }) ≡ some r)
      × Found flag size n r
  search-Found =
      search_flags-Found n 0 (record { offset = 0; empty = 0 }) (omega arith)
        (record {
          free = λ p lo hi. absurd (omega arith);
          within = omega arith;
          state = inr (record {
            at_end = omega arith;
            longest = λ a h free. omega arith;
            no_fit = λ a h free. omega arith;
          });
        })

-- ===== src/MemPool.antt =====
-- c/src/mem_pool.c and c/src/mem_pool.h: the pool of blocks of fixed sizes. The memory is a map from
-- addresses to blocks; `free`d and unused addresses hold none. What `malloc` and `realloc` return
-- is an argument: an address, 0 for NULL, and the bytes found behind the header of a block. `none`
-- is a fault: an access through a pointer that holds no block, to the wrong member of the union `p`,
-- or behind the object that `malloc` returned.
pub mod Fresh
pub mod Chain
pub mod Alloc
pub mod Serve
pub mod Pick
pub mod Recycle
pub mod Realloc
pub mod Sample
mod Tests
use artorias.Prelude.{
  ℕ, zero, suc, ◌+◌, ◌-◌, ◌*◌, ◌/◌, ◌%◌, ◌^◌, ◌≤◌, ◌<◌, ◌≡◌, Bool, ◌||◌, Option, none, some, List,
  [], ◌∷◌, ◌++◌, ◌==◌, ltb, leb, if◌then◌else◌, length, get_elem?, get_or, set, ◌>>=◌,
}
use artorias.BinarySearch.{binary_search}

abbrev pub Ptr : Type 0
Ptr = ℕ

abbrev pub null : Ptr
null = 0

-- `as_mem_data_fixed_p_t`: a block in use points to its field, a free one to the next free one.
pub data Link : Type 0 where
  field : ℕ → Link
  next : Ptr → Link

-- `as_mem_data_fixed_t`
pub record Block : Type 0 where
  pub p : Link
  pub d : List ℕ

abbrev pub block : Link → List ℕ → Block
block p d = record { p = p; d = d }

-- `as_mem_pool_fixed_field_t`
pub record Field : Type 0 where
  pub size : ℕ
  pub header : Ptr

abbrev pub mk_field : ℕ → Ptr → Field
mk_field size header = record { size = size; header = header }

abbrev pub Heap : Type 0
Heap = Ptr → Option Block

pub write : Heap → Ptr → Option Block → Heap
write h a c b = if b == a then c else h b

-- `as_mem_pool_fixed_t`; `empty` and `used` are the bit patterns of an `int`.
pub record Pool : Type 0 where
  pub n : ℕ
  pub f : List Field
  pub empty : ℕ
  pub used : ℕ
  pub heap : Heap

-- What `malloc` or `realloc` returns for a number of bytes: an address, and the bytes there that
-- follow the header of a block.
pub record Grant : Type 0 where
  pub at : Ptr
  pub mem : List ℕ

abbrev pub Malloc : Type 0
Malloc = ℕ → Grant

-- `offsetof(as_mem_data_fixed_t, d)`
abbrev pub header_size : ℕ
header_size = 8

-- What `malloc_data_fixed` and `realloc_data_fixed` ask for: a sum of `size_t`.
pub asked : ℕ → ℕ
asked size = (header_size + size) % 2 ^ 64

-- `(size_t)-1`
abbrev pub size_max : ℕ
size_max = 2 ^ 64 - 1

abbrev pub size_at : List Field → ℕ → ℕ
size_at f i = (get_or f i (mk_field 0 null)).size

abbrev pub header_at : List Field → ℕ → Ptr
header_at f i = (get_or f i (mk_field 0 null)).header

-- `x += size` and `x -= size` on an `int` and a `size_t`.
pub add_int : ℕ → ℕ → ℕ
add_int x size = (x + size) % 2 ^ 32

pub sub_int : ℕ → ℕ → ℕ
sub_int x size = (x + 2 ^ 32 - size % 2 ^ 32) % 2 ^ 32

-- One round `i` of the sort in `memp_new`: `x` is `f[i].size`, and is exchanged with each later
-- size that is smaller.
pub sink : ℕ → List ℕ → ℕ × List ℕ
sink x [] = (x, [])
sink x (y ∷ ys) =
    let (m, rest) = sink (if ltb y x then y else x) ys in (m, (if ltb y x then x else y) ∷ rest)

pub sort_rounds : ℕ → List ℕ → List ℕ
sort_rounds zero xs = xs
sort_rounds (suc i) [] = []
sort_rounds (suc i) (x ∷ xs) = let (m, rest) = sink x xs in m ∷ sort_rounds i rest

pub fields_of : List ℕ → List Field
fields_of [] = mk_field size_max null ∷ []
fields_of (x ∷ xs) = mk_field x null ∷ fields_of xs

-- `memp_new`; `none` is NULL. The sort makes `n - 1` rounds, and `p->n` is a byte.
pub memp_new : List ℕ → Bool → Heap → Option Pool
memp_new fsize got heap =
    if ltb (length fsize) 1
    then none
    else if got
    then some (record {
      n = length fsize % 2 ^ 8;
      f = fields_of (sort_rounds (length fsize - 1) fsize);
      empty = 0;
      used = 0;
      heap = heap;
    })
    else none

-- The index `i` that `memp_alloc` finds for `size`.
pub pick : Pool → ℕ → Option ℕ
pick p size = do
  i ← binary_search (λ j. size_at p.f j == size) (λ j. ltb (size_at p.f j) size) p.n
  f ← get_elem? p.f i
  some (if ltb f.size size then i + 1 else i)

abbrev next_of : Link → Option Ptr
next_of (field k) = none
next_of (next q) = some q

abbrev field_of : Link → Option ℕ
field_of (field k) = some k
field_of (next q) = none

-- The branch for a size above every field: a block of its own, which no counter counts.
pub alloc_large : Pool → ℕ → Grant → Option (Ptr × Pool)
alloc_large p size m =
    if m.at == null
    then some (null, p)
    else if ltb (asked size) header_size
    then none
    else some (m.at, record p { heap = write p.heap m.at (some (block (field p.n) m.mem)) })

-- The branch for the field `i`: the head of its free list, or a new block.
pub alloc_field : Pool → ℕ → Grant → Field → Option (Ptr × Pool)
alloc_field p i m f =
    if f.header == null
    then if m.at == null
      then some (null, p)
      else if ltb (asked f.size) header_size
      then none
      else some (
        m.at,
        record p {
          heap = write p.heap m.at (some (block (field i) m.mem));
          used = add_int p.used f.size;
        },
      )
    else (do
      b ← p.heap f.header
      q ← next_of b.p
      some (
        f.header,
        record p {
          f = set p.f i (record f { header = q });
          heap = write p.heap f.header (some (block (field i) b.d));
          empty = sub_int p.empty f.size;
          used = add_int p.used f.size;
        },
      ))

pub memp_alloc : Pool → ℕ → Malloc → Option (Ptr × Pool)
memp_alloc p size m = if size == 0 then some (null, p) else (do
  i ← pick p size
  if leb p.n i
      then alloc_large p size (m (asked size))
      else (do f ← get_elem? p.f i; alloc_field p i (m (asked f.size)) f))

-- `memp_recycle` of the block `b` at `a`, which belongs to the field `k`.
pub recycle_field : Pool → Ptr → Block → ℕ → Field → Pool
recycle_field p a b k f =
    if f.size == size_max then record p { heap = write p.heap a none } else record p {
      f = set p.f k (record f { header = a });
      heap = write p.heap a (some (block (next f.header) b.d));
      empty = add_int p.empty f.size;
      used = sub_int p.used f.size;
    }

pub memp_recycle : Pool → Ptr → Option Pool
memp_recycle p a =
    if a == null
    then some p
    else (do b ← p.heap a; k ← field_of b.p; f ← get_elem? p.f k; some (recycle_field p a b k f))

-- `memcpy` of `n` bytes; `none` is an access behind either object.
pub copy_bytes : ℕ → List ℕ → List ℕ → Option (List ℕ)
copy_bytes zero src dst = some dst
copy_bytes (suc n) (x ∷ src) (y ∷ dst) = copy_bytes n src dst >>= λ r. some (x ∷ r)
copy_bytes _ _ _ = none

pub memcpy : Pool → Ptr → Ptr → ℕ → Option Pool
memcpy p to from n = do
  b ← p.heap from
  c ← p.heap to
  d ← copy_bytes n b.d c.d
  some (record p { heap = write p.heap to (some (block c.p d)) })

-- What `realloc` keeps: the old bytes, as far as the new object reaches.
overlay : List ℕ → List ℕ → List ℕ
overlay [] ys = ys
overlay (x ∷ xs) [] = []
overlay (x ∷ xs) (y ∷ ys) = x ∷ overlay xs ys

-- The common part of two branches of `memp_realloc`: allocate, copy `n` bytes, recycle.
pub move_block : Pool → Ptr → ℕ → ℕ → Malloc → Option (Ptr × Pool)
move_block p a size n m = do
  (na, p1) ← memp_alloc p size m
  if na == null
      then some (null, p1)
      else (do p2 ← memcpy p1 na a n; p3 ← memp_recycle p2 a; some (na, p3))

realloc_large : Pool → Ptr → Block → ℕ → Grant → Option (Ptr × Pool)
realloc_large p a b size m =
    if m.at == null
    then some (null, p)
    else if ltb (asked size) header_size
    then none
    else some (
      m.at,
      record p { heap = write (write p.heap a none) m.at (some (block b.p (overlay b.d m.mem))) },
    )

pub memp_realloc : Pool → Ptr → ℕ → Malloc → Option (Ptr × Pool)
memp_realloc p a size m =
    if a == null
    then some (null, p)
    else if size == 0
    then (memp_recycle p a >>= λ p'. some (null, p'))
    else (do
      b ← p.heap a
      k ← field_of b.p
      f ← get_elem? p.f k
      if f.size == size_max
          then (do
            last ← get_elem? p.f (p.n - 1)
            if leb size last.size
                then move_block p a size size m
                else realloc_large p a b size (m (asked size)))
          else if ltb f.size size
          then move_block p a size f.size m
          else some (a, p))

-- `while (p->f[i].header) { … as_free(…); }`, on fuel.
free_chain : ℕ → Heap → Ptr → Option Heap
free_chain zero h a = none
free_chain (suc fuel) h a =
    let rest = (do b ← h a; q ← next_of b.p; free_chain fuel (write h a none) q) in
    if a == null then some h else rest

-- `memp_destroy`: what is left in memory when the free lists of the first `p->n` fields are gone.
destroy_fields : ℕ → ℕ → List Field → Heap → Option Heap
destroy_fields fuel zero f h = some h
destroy_fields fuel (suc n) [] h = none
destroy_fields fuel (suc n) (x ∷ f) h = free_chain fuel h x.header >>= destroy_fields fuel n f

memp_destroy : ℕ → Pool → Option Heap
memp_destroy fuel p = destroy_fields fuel p.n p.f p.heap

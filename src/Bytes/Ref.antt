-- ===== src/Bytes/Ref.antt =====
-- c/src/lm_bytes.c, and `lcf_socket_sread_all` of c/src/lm_socket.c: a buffer that is read from a
-- descriptor, and the reference to its bytes. The stack of Lua is a list, its top first.
use artorias.Prelude.{
  ℕ, ◌-◌, ◌^◌, ◌<◌, ◌≡◌, refl, ◌≢◌, Bool, true, false, Option, none, some, List, [], ◌∷◌, ◌==◌,
  ◌&&◌, arith, if◌then◌else◌, length, get_elem?,
}
use artorias.RbTree.Store.{Ptr, null}
use artorias.World.{Res}
use artorias.Kernel.{Kernel, ebadfd}
use artorias.Bytes.{Bytes, Filled, filled, null_write, out_of_fuel, bytes_init, bytes_read_from_fd}
use artorias.Bytes.Content.{HasContent}
use artorias.Bytes.Read.{flat, Reads, bytes_read_from_fd-HasContent}

-- `as_lm_bytes_ref_t`: it begins at the first block.
pub record BytesRef : Type 0 where
  pub ori : Bytes
  pub b_offset : ℕ
  pub len : ℕ

-- The values that stand on the stack here.
pub data Value : Type 0 where
  integer : ℕ → Value
  table light_userdata : Value
  of_bytes : Bytes → Value
  of_ref : BytesRef → Value

-- What `sread_all` pushes: a count, the reference or nil, and nil or `errno`.
pub record ReadAll : Type 0 where
  pub count : ℕ
  pub bytes : Option BytesRef
  pub errno : Option ℕ

-- How a call comes back: with a result, by a Lua error, by an access through a bad address, or not with
-- this fuel.
pub data Call (A K : Type 0) : Type 0 where
  returns : A → K → Call A K
  raises : K → Call A K
  bad_access : Call A K
  no_fuel : Call A K

-- The check is for the metatable of buffers, which a reference does not have. In a buffer, the field at
-- the place of `len` is the address `mp` of its pool.
lcf_bytes_ref_get_length : ℕ → Value → Option ℕ
lcf_bytes_ref_get_length mp (of_bytes bs) = some mp
lcf_bytes_ref_get_length mp (of_ref br) = none
lcf_bytes_ref_get_length mp (integer n) = none
lcf_bytes_ref_get_length mp table = none
lcf_bytes_ref_get_length mp light_userdata = none

lcf_bytes_get_length : Value → Option ℕ
lcf_bytes_get_length (of_bytes bs) = some bs.used
lcf_bytes_get_length (of_ref br) = none
lcf_bytes_get_length (integer n) = none
lcf_bytes_get_length table = none
lcf_bytes_get_length light_userdata = none

-- What the state of Lua gives: whether the table of references and the worker's context are in the
-- registry, and `lua_settable` on a value, a key and a value, which raises an error or not.
pub record Lua (K : Type 0) : Type 0 where
  pub ref_table : Bool
  pub worker_ctx : Bool
  pub settable : Value → Value → Value → K → Option K

-- A userdata whose metatable has no `__newindex` cannot be indexed.
abbrev NoNewIndex : {K : Type 0} → Lua K → Type 0
NoNewIndex {K} lua =
    (bs : Bytes) (key v : Value) (k : K) → lua.settable (of_bytes bs) key v k ≡ none

-- `errno` reads the variable of the C library.
module _ {K : Type 0} (kernel : Kernel K) (memory : K → Bytes → ℕ → Bool) (lua : Lua K)
    (errno : K → ℕ) where
  abbrev settled : BytesRef → K → Option K → Call (Option BytesRef) K
  settled br k none = raises k
  settled br k (some k') = returns (some br) k'

  -- `lua_settable(L, -4)` with the reference as key and value: the fourth value from the top.
  abbrev set_ref : BytesRef → List Value → K → Call (Option BytesRef) K
  set_ref br stack k = elim (get_elem? (of_ref br ∷ of_ref br ∷ stack) 3) [
    | none ↦ bad_access
    | some t ↦ settled br k (lua.settable t (of_ref br) (of_ref br) k)
  ]

  -- The result `(size_t)-1` gives nil.
  abbrev ref_of : ℕ → Filled K → Call (Option BytesRef) K
  ref_of fd out_of_fuel = no_fuel
  ref_of fd null_write = bad_access
  ref_of fd (filled size bs k) =
      if size == 2 ^ 64 - 1
      then returns none k
      else (let br : BytesRef = record { ori = bs; b_offset = 0; len = size } in
          set_ref br (of_ref br ∷ of_bytes bs ∷ light_userdata ∷ table ∷ integer fd ∷ []) k)

  lcf_bytes_read_from_fd : ℕ → ℕ → K → Call (Option BytesRef) K
  lcf_bytes_read_from_fd fuel fd k =
      if lua.ref_table && lua.worker_ctx
      then ref_of fd (bytes_read_from_fd kernel memory fd fuel bytes_init k)
      else raises k

  abbrev push_all : Call (Option BytesRef) K → Call ReadAll K
  push_all (returns none k) = returns (record { count = 0; bytes = none; errno = some (errno k) }) k
  push_all (returns (some br) k) =
      returns (record { count = br.len; bytes = some br; errno = none }) k
  push_all (raises k) = raises k
  push_all bad_access = bad_access
  push_all no_fuel = no_fuel

  abbrev read_all_from : ℕ → Option Res → K → Call ReadAll K
  read_all_from fuel none k = bad_access
  read_all_from fuel (some r) k = push_all (lcf_bytes_read_from_fd fuel r.fd k)

  pub lcf_socket_sread_all : (Ptr → Option Res) → ℕ → Ptr → K → Call ReadAll K
  lcf_socket_sread_all ress fuel res k =
      if res == null
      then returns (record { count = 0; bytes = none; errno = some ebadfd }) k
      else read_all_from fuel (ress res) k

no_bytes : HasContent [] bytes_init
no_bytes = record { holds = refl; filled = tt; counted = refl; sized = refl; blocks = refl }

-- Let the table of references and the worker's context be in the registry of Lua, let `memp_alloc`
-- have memory, and let `lua_settable` raise an error for a buffer, whose metatable has no
-- `__newindex`. For a resource in memory whose descriptor gives chunks that are not empty and fit
-- the sizes asked for, and then the end of the file, all bytes together fewer than 2^64 - 1, and
-- more fuel than there are chunks, `lcf_socket_sread_all` takes all of the chunks and then raises
-- an error.
pub lcf_socket_sread_all-raises :
    {K : Type 0} (kernel : Kernel K) (memory : K → Bytes → ℕ → Bool) (lua : Lua K) (errno : K → ℕ)
    (ress : Ptr → Option Res) (fuel : ℕ) (res : Ptr) (r : Res) (xss : List (List ℕ)) (k k' : K)
    → NoNewIndex lua
    → lua.ref_table && lua.worker_ctx ≡ true
    → res ≢ null
    → ress res ≡ some r
    → ((k : K) (b : Bytes) (size : ℕ) → memory k b size ≡ true)
    → Reads kernel memory r.fd 64 k xss k'
    → length (flat xss) < 2 ^ 64 - 1
    → length xss < fuel
    → lcf_socket_sread_all kernel memory lua errno ress fuel res k ≡ raises k'
unfolding lcf_socket_sread_all lcf_bytes_read_from_fd
lcf_socket_sread_all-raises kernel memory lua errno ress fuel res r xss k k' no_index ready ne here
      there reads small enough =
    let (bs, run, c) =
      bytes_read_from_fd-HasContent kernel memory r.fd fuel xss [] bytes_init k k' reads there
        no_bytes (omega arith) enough in
    let not_null : (res == null) ≡ false = ground arith in
    let size_ok : (length (flat xss) == 2 ^ 64 - 1) ≡ false = ground arith in
    let br : BytesRef = record { ori = bs; b_offset = 0; len = length (flat xss) } in
    rw (not_null, here, ready, run, size_ok, no_index bs (of_ref br) (of_ref br) k') refl

-- ===== src/Bytes/Tests.antt =====
-- c/src/bytes.c on a descriptor that gives two chunks and the end of the file.
use artorias.Prelude.{
  ℕ, ltb, Bool, ◌≡◌, refl, Option, none, some, List, [], ◌∷◌, arith, ◌==◌, true, if◌then◌else◌,
}
use artorias.Kernel.{Got, got, read_error, send_error, Kernel, eagain}
use artorias.Bytes.{Bytes, filled, bytes_read_from_fd, bytes_offset}
use artorias.Bytes.Content.{HasContent}
use artorias.World.{Res, idle}
use artorias.RbTree.Store.{Ptr}
use artorias.Bytes.Ref.{
  Value, integer, table, light_userdata, of_bytes, of_ref, raises, Lua, lcf_socket_sread_all,
  lcf_socket_sread_all-raises,
}
use artorias.Bytes.Read.{NeverReturns, bytes_read_from_fd-HasContent, bytes_read_from_fd-none}

-- The replies to come; after them there is nothing to read.
abbrev next : List Got → Got × List Got
next [] = (read_error eagain, [])
next (r ∷ rs) = (r, rs)

abbrev kernel : Kernel (List Got)
kernel = record { read = λ k fd n. next k; send = λ k fd xs. (send_error eagain, k) }

-- Whether there is memory: for small buffers, and for all.
abbrev some_memory : List Got → Bytes → ℕ → Bool
some_memory k bs size = ltb bs.cnt 3

abbrev memory : List Got → Bytes → ℕ → Bool
memory k bs size = true

abbrev chunks : List (List ℕ)
chunks = (1 ∷ 2 ∷ 3 ∷ []) ∷ (4 ∷ []) ∷ []

abbrev replies : List Got
replies = got (1 ∷ 2 ∷ 3 ∷ []) ∷ got (4 ∷ []) ∷ got [] ∷ []

abbrev before : Bytes
before = record {
  size = 64;
  used = 2;
  cnt = 1;
  dl = record { size = 64; used = 2; d = 8 ∷ 9 ∷ [] } ∷ [];
}

before-HasContent : HasContent (8 ∷ 9 ∷ []) before
before-HasContent = record {
  holds = refl;
  filled = (refl, omega arith, tt);
  counted = refl;
  sized = refl;
  blocks = refl;
}

bytes_read_from_fd-HasContent_example :
    (bs' : Bytes) × (bytes_read_from_fd kernel memory 5 3 before replies ≡ filled 4 bs' [])
    × HasContent (8 ∷ 9 ∷ 1 ∷ 2 ∷ 3 ∷ 4 ∷ []) bs'
bytes_read_from_fd-HasContent_example =
    bytes_read_from_fd-HasContent kernel memory 5 3 chunks (8 ∷ 9 ∷ []) before replies []
      (_, refl, omega arith, omega arith, (_, refl, omega arith, omega arith, refl))
      (λ k b size. refl) before-HasContent (omega arith) (omega arith)

bytes_read_from_fd-none_example :
    NeverReturns kernel some_memory 5 [] (bytes_read_from_fd kernel some_memory 5 100 before [])
bytes_read_from_fd-none_example =
    bytes_read_from_fd-none kernel some_memory 5 100 before [] (λ size. refl)

abbrev two_blocks : Bytes
two_blocks = record {
  size = 192;
  used = 4;
  cnt = 2;
  dl =
      record { size = 64; used = 3; d = 1 ∷ 2 ∷ 3 ∷ [] }
      ∷ record { size = 128; used = 1; d = 4 ∷ [] }
      ∷ [];
}

fourth : bytes_offset two_blocks 3 ≡ some (1, 0)
unfolding bytes_offset
fourth = refl

abbrev sock_res : Res
sock_res = record { freef = true; fd = 5; status = idle; th = 101 }

-- A userdata cannot be indexed; a table can.
abbrev lua : Lua (List Got)
lua = record { ref_table = true; worker_ctx = true; settable = λ t key v k. set_in t k }
  where
    set_in : Value → List Got → Option (List Got)
    set_in table k = some k
    set_in light_userdata k = none
    set_in (integer n) k = none
    set_in (of_bytes bs) k = none
    set_in (of_ref br) k = none

abbrev ress : Ptr → Option Res
ress p = if p == 201 then some sock_res else none

lcf_socket_sread_all-raises_example :
    lcf_socket_sread_all kernel memory lua (λ k. 0) ress 3 201 replies ≡ raises []
lcf_socket_sread_all-raises_example =
    lcf_socket_sread_all-raises kernel memory lua (λ k. 0) ress 3 201 sock_res chunks replies []
      (λ bs key v k. refl) refl (λ e. absurd (omega arith)) refl (λ k b size. refl)
      (_, refl, omega arith, omega arith, (_, refl, omega arith, omega arith, refl)) (omega arith)
      (omega arith)

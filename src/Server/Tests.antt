-- ===== src/Server/Tests.antt =====
-- c/src/server.c with clients that give three bytes and take three at a time.
use artorias.Prelude.{◌≡◌, refl, some, List, [], ◌∷◌, arith}
use artorias.Worker.{pos}
use artorias.Kernel.{Got, got, read_error, send_error, Kernel, eagain}
use artorias.Kernel.Sample
use artorias.Kernel.Sample.{message, accepted, stream}
use artorias.Server.{simple_read_from_client, simple_write_to_client}
use artorias.Net.Sample.{net, begin, ledger}
use artorias.Server.Sockets.{make_server_socket, make_client_socket}
use artorias.Server.Ledger.{IsOpened, sockets-IsOpened}
use artorias.Server.Client.{
  IsWritten, simple_write_to_client-IsWritten, simple_read_from_client-count,
}

abbrev next : List Got → Got × List Got
next [] = (read_error eagain, [])
next (r ∷ rs) = (r, rs)

abbrev kernel : Kernel (List Got)
kernel = record { read = λ k fd n. next k; send = λ k fd xs. (send_error eagain, k) }

simple_write_to_client-IsWritten_example :
    IsWritten [] message
      (λ k. accepted k 7)
      (simple_write_to_client Sample.kernel 7 6 message ([], 1))
simple_write_to_client-IsWritten_example =
    simple_write_to_client-IsWritten Sample.kernel accepted stream 7 6 message ([], 1) (omega arith)
      (omega arith)

sockets-IsOpened_example :
    IsOpened (λ k. k.held) (3 ∷ []) (make_server_socket net 5555 begin)
    × IsOpened (λ k. k.held) (3 ∷ []) (make_client_socket net [] 5555 begin)
sockets-IsOpened_example = sockets-IsOpened net (λ k. k.held) ledger [] 5555 begin

simple_read_from_client-count_example :
    simple_read_from_client kernel 5 3 (got (1 ∷ 2 ∷ 3 ∷ []) ∷ got (4 ∷ []) ∷ []) ≡ some (pos 4, [])
simple_read_from_client-count_example =
    simple_read_from_client-count kernel 5 3 ((1 ∷ 2 ∷ 3 ∷ []) ∷ (4 ∷ []) ∷ []) (some eagain)
      (got (1 ∷ 2 ∷ 3 ∷ []) ∷ got (4 ∷ []) ∷ []) [] (_, refl, (_, refl, refl)) (omega arith)
      (omega arith)

-- ===== src/Master/Tests.antt =====
-- c/src/mw_server.c: two connections for two workers.
use artorias.Prelude.{◌≡◌, arith, refl, true, some, [], ◌∷◌}
use artorias.Net.Sample.{State, net, begin, connection, none_waits, waiting, enough, ledger, logged}
use artorias.Master.{handle_event, master_process}
use artorias.Worker.{pos}
use artorias.Server.Sockets.{make_server_socket, set_non_block}
use artorias.Master.Start.{Processes, in_parent, master_workers_server}
use artorias.Master.Start.Connected.{IsConnected, master_workers_server-IsConnected}
use artorias.Kernel.{eagain}
use artorias.Master.Drain.{IsDrained, handle_event-IsDrained}
use artorias.Master.Rounds.{IsTurn, master_process-IsTurn}

handle_event-IsDrained_example :
    IsDrained net 3
      (λ k. k.held)
      (λ k. k.log)
      waiting
      (21 ∷ 22 ∷ [])
      2
      1
      begin
      (handle_event net 3 (21 ∷ 22 ∷ []) 2 3 connection 1 begin)
handle_event-IsDrained_example =
    handle_event-IsDrained net (λ k. k.held) (λ k. k.log) waiting ledger logged 3 (21 ∷ 22 ∷ []) 2
      (omega arith) refl (λ k k' a. none_waits 3 k eagain k' a) 3 connection 1 begin refl refl
      (enough begin)

master_process-IsTurn_example :
    IsTurn (λ k. k.log) (21 ∷ 22 ∷ []) 2 0 begin (master_process net 3 (21 ∷ 22 ∷ []) 2 3 4 begin)
master_process-IsTurn_example =
    master_process-IsTurn net (λ k. k.held) (λ k. k.log) waiting ledger logged 3 (21 ∷ 22 ∷ []) 2
      (omega arith) refl 3 enough 4 begin

abbrev processes : Processes State
processes = record {
  socketpair = λ k. (some (21, 22), k);
  fork = λ k. (in_parent, k);
  listen = λ k fd backlog. (true, k);
}

made : make_server_socket net 5555 begin ≡ (pos 9, record begin { held = 9 ∷ 3 ∷ [] })
unfolding make_server_socket
made = refl

listens :
    processes.listen (set_non_block net 9 (record begin { held = 9 ∷ 3 ∷ [] })).1 9 500
    ≡ (true, record begin { held = 9 ∷ 3 ∷ [] })
unfolding set_non_block
listens = refl

starts_two : IsConnected 9 2 (master_workers_server net processes 5555 2 begin)
starts_two =
    master_workers_server-IsConnected net processes
      (record { pair = λ k. (21, 22, k, refl); forks = λ k. (k, refl) }) 5555 2 9 begin
      (record begin { held = 9 ∷ 3 ∷ [] }) (record begin { held = 9 ∷ 3 ∷ [] }) (omega arith) made
      listens

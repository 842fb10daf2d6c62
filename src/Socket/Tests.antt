-- ===== src/Socket/Tests.antt =====
-- c/src/lm_socket.c with a socket buffer that takes three bytes at a time and is full now and then.
use artorias.Prelude.{
  Bool, ℕ, ◌≡◌, refl, true, Option, none, some, List, [], ◌∷◌, ◌==◌, if◌then◌else◌, arith,
}
use artorias.RbTree.Store.{Ptr, null}
use artorias.World.{Res, idle, Thread, simple, ready, World, ended, crash, no_fuel, Outcome}
use artorias.Dlist.{links}
use artorias.Worker.{Memp, pos}
use artorias.Kernel.Sample.{kernel, accepted, stream, message}
use artorias.Socket.{StackValue, number, text, light, raises, lua_ok, send_loop, k_socket_send}
use artorias.Socket.Stream.{
  IsCounted, IsResumed, HasEnded, converse, send_loop-HasEnded, k_socket_send-IsCounted,
}
use artorias.Socket.Life.{Sock, custom, lcf_socket_new, lcf_socket_close}

abbrev res : Res
res = record { freef = true; fd = 7; status = idle; th = 101 }

abbrev ress : Ptr → Option Res
ress p = if p == 201 then some res else none

-- What a timer and then an event put on the stack, over the text that is sent.
abbrev late : List StackValue
late = text none ∷ number (pos 10) ∷ light 201 ∷ number (pos 2) ∷ []

-- One call with a yield, and a call that would go on.
k_socket_send-IsCounted_example :
    IsCounted [] message
      (λ k. accepted k 7)
      201
      (k_socket_send kernel ress 9 lua_ok (record { res = 201; buf = message; idx = 0 }) ([], 1))
    × IsResumed [] message
        (λ k. accepted k 7)
        (converse kernel ress 9 301 (late ∷ []) (
          k_socket_send kernel ress 9 lua_ok
            (record { res = 201; buf = message; idx = 0 })
            ([], 1)))
k_socket_send-IsCounted_example =
    k_socket_send-IsCounted kernel accepted stream ress 9 301 201 res late [] message ([], 1) refl
      (omega arith)

resumed_raises :
    converse kernel ress 9 301
      (late ∷ [])
      (k_socket_send kernel ress 9 lua_ok (record { res = 201; buf = message; idx = 0 }) ([], 1))
    ≡ (raises, (1 ∷ 2 ∷ 3 ∷ [], 2))
unfolding k_socket_send
resumed_raises = refl

send_loop-HasEnded_example :
    HasEnded
      (send_loop kernel ress 6 7 201 (record { res = 201; buf = message; idx = 0 }) ([], 1)).0
send_loop-HasEnded_example =
    send_loop-HasEnded kernel accepted stream ress 6 7 201
      (record { res = 201; buf = message; idx = 0 }) ([], 1) (omega arith) (omega arith)

abbrev memp : Memp
memp = record { new_thread = λ w. none; new_res = λ w. some (202, res) }

abbrev thread : Thread
thread = record {
  tid = 1;
  et = 0;
  pool = none;
  status = ready;
  mode = simple;
  mfd_res = 201;
  head = 201;
  tail = 201;
}

abbrev world : World
world = record {
  threads = λ p. if p == 101 then some thread else none;
  ress = ress;
  cells = λ p. none;
  nodes = λ p. if p == 201 then some (links null null) else none;
  io_root = null;
  sleep_root = null;
  stop = [];
  cur_tid = 1;
  closed = [];
  clock = 1000;
}

abbrev closed_in : {A : Type 0} → Outcome A → List ℕ
closed_in (ended a w) = w.closed
closed_in _ = 0 ∷ []

closed_once : closed_in (lcf_socket_close (record { res = 201; type = custom }) world) ≡ 7 ∷ []
unfolding lcf_socket_close
closed_once = refl

-- When the connection fails, the resource is recycled and stays in the socket: `__gc` reads it.
abbrev failed : Outcome (Bool × Sock) → Outcome Sock
failed (ended (ok, sock) w) = lcf_socket_close sock w
failed crash = no_fuel
failed no_fuel = no_fuel

closed_failed : failed (lcf_socket_new (λ f e. true) memp 101 none world) ≡ crash
unfolding lcf_socket_new lcf_socket_close
closed_failed = refl

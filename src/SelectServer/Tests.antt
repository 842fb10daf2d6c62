-- ===== src/SelectServer/Tests.antt =====
-- c/src/select_server.c: two clients, which have sent nothing.
use artorias.Kernel.{read_error, send_error, Kernel, eagain}
use artorias.Net.Sample.{State}

abbrev kernel : Kernel State
kernel = record {
  read = λ k fd n. (read_error eagain, k);
  send = λ k fd xs. (send_error eagain, k);
}

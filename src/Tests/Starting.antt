-- ===== src/Tests/Starting.antt =====
-- The programs' `main` functions at concrete inputs.
use client_server_signaling.Base.{◌≡◌, refl, arith, true, false, [], ◌∷◌, pos, minus_one, ℤ}
use client_server_signaling.Fault.{ok}
use client_server_signaling.Client.Requests.{decimal}
use client_server_signaling.Server.Main.{Startup, Accepted, stopped, server_main}
use client_server_signaling.Server.Main.Accepting.{server_main-serves}

-- A server that gets its socket at the port 12345.
abbrev startup : Startup
startup = record {
  socket_result = pos 3;
  setsockopt_result = pos 0;
  bind_result = λ port. pos 0;
  listen_result = pos 0;
  sigaction_result = pos 0;
}

abbrev connection : ℤ → Accepted
connection socket = record { running = true; client_socket = socket; still_running = true }

abbrev interrupt : Accepted
interrupt = record { running = true; client_socket = minus_one; still_running = false }

server_main-serves_example :
    server_main
      (decimal (pos 12345) ∷ [])
      startup
      (connection (pos 4) ∷ connection (pos 5) ∷ interrupt ∷ [])
    ≡ ok (stopped 12345 (pos 4 ∷ pos 5 ∷ []))
server_main-serves_example =
    server_main-serves 12345 startup (connection (pos 4) ∷ connection (pos 5) ∷ []) interrupt []
      (omega arith) (refl, (refl, tt)) refl

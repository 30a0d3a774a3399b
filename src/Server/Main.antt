-- ===== src/Server/Main.antt =====
-- `main` of src/server.cpp: its argument, the calls that make the listening socket, and the loop
-- that starts a thread for each connection.
pub mod Accepting
use client_server_signaling.Base.{
  ℕ, ◌+◌, ◌-◌, ◌%◌, ◌^◌, Text, Bool, true, false, not, List, [], ◌∷◌, if◌then◌else◌, ℤ, pos, negsuc,
  minus_one, int_eq, ◌==◌, length, none, some,
}
use client_server_signaling.Fault.{Result, ok, err, uncaught, ◌>>=◌}
use client_server_signaling.Wire.Arguments.{stoi, htons}

-- What the calls before the loop return.
pub record Startup : Type 0 where
  pub socket_result : ℤ
  pub setsockopt_result : ℤ
  pub bind_result : ℕ → ℤ
  pub listen_result : ℤ
  pub sigaction_result : ℤ

-- A round of the loop: the two reads of `running`, and what `accept` returns between them.
pub record Accepted : Type 0 where
  pub running : Bool
  pub client_socket : ℤ
  pub still_running : Bool

-- The sockets whose threads are started, in order, and whether the loop is left; at the end of the
-- list it waits in `accept`.
unfoldable pub accept_loop : List Accepted → List ℤ × Bool
accept_loop [] = ([], false)
accept_loop (a ∷ rest) =
    let (started, left) = accept_loop rest in
    if not a.running
    then ([], true)
    else if not a.still_running
    then ([], true)
    else if int_eq a.client_socket minus_one
    then ([], true)
    else (a.client_socket ∷ started, left)

-- `return 1` before anything is served; or, with the port that it is bound to, the threads started,
-- and whether the loop has been left: then they are joined, the socket is closed, and 0 returned.
pub data Served : Type 0 where
  refused : Served
  serving : ℕ → List ℤ → Served
  stopped : ℕ → List ℤ → Served

ended : ℕ → List ℤ × Bool → Served
ended port (started, left) = if left then stopped port started else serving port started

-- `arguments` are those after the program's name.
unfoldable pub server_main : List Text → Startup → List Accepted → Result Served
unfolding ended
server_main (argument ∷ []) s rounds = do
  number ← stoi argument
  let port = htons number
  (if int_eq s.socket_result minus_one
      then ok refused
      else if int_eq s.setsockopt_result minus_one
      then ok refused
      else if int_eq (s.bind_result port) minus_one
      then ok refused
      else if int_eq s.listen_result minus_one
      then ok refused
      else if int_eq s.sigaction_result minus_one
      then ok refused
      else ok (ended port (accept_loop rounds)))
server_main arguments s rounds = ok refused

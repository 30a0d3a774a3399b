-- ===== src/Server/Main/Accepting.antt =====
-- The threads that `main` starts, and the ports it is bound to.
use client_server_signaling.Base.{
  ℕ, ◌%◌, ◌^◌, ◌<◌, ◌≡◌, ◌≢◌, ◌∙◌, arith, Text, Bool, true, false, not, ◌&&◌, ◌||◌, List, [], ◌∷◌,
  ◌++◌, map, if◌then◌else◌, pos, minus_one, int_eq, All,
}
use client_server_signaling.Fault.{ok, err, uncaught}
use client_server_signaling.Wire.{is_space}
use client_server_signaling.Wire.Digits.{IsDigit}
use client_server_signaling.Wire.Arguments.{stoi-no_number}
use client_server_signaling.Client.Requests.{decimal}
use client_server_signaling.Client.Requests.Decimal.{stoi-decimal}
use client_server_signaling.Server.Main.{
  Startup, Accepted, accept_loop, refused, stopped, ended, server_main,
}

-- The round starts a thread.
abbrev pub starts : Accepted → Bool
starts a = a.running && (a.still_running && not (int_eq a.client_socket minus_one))

accept_loop-stops :
    (good : List Accepted) (bad : Accepted) (rest : List Accepted)
    → All (λ a. starts a ≡ true) good
    → starts bad ≡ false
    → accept_loop (good ++ bad ∷ rest) ≡ (map (λ a. a.client_socket) good, true)
unfolding accept_loop
accept_loop-stops [] bad rest h b = ground arith
accept_loop-stops (a ∷ good) bad rest h b = ground (arith, accept_loop-stops good bad rest h.1 b)

-- One of the calls before the loop fails.
abbrev pub fails : Startup → ℕ → Bool
fails s port =
    int_eq s.socket_result minus_one
    || int_eq s.setsockopt_result minus_one
    || int_eq (s.bind_result port) minus_one
    || int_eq s.listen_result minus_one
    || int_eq s.sigaction_result minus_one

server_main-calls :
    (n : ℕ) (s : Startup) (rounds : List Accepted)
    → n < 2 ^ 31
    → server_main (decimal (pos n) ∷ []) s rounds
      ≡ ok (if fails s (n % 2 ^ 16) then refused else ended (n % 2 ^ 16) (accept_loop rounds))
unfolding server_main
server_main-calls n s rounds h = rw (stoi-decimal n h) (ground arith)

-- Given a port in decimal, below 2^31, the server is bound to its low 16 bits. If one of the calls
-- on the socket fails it returns 1. If none does, each connection accepted before the first round
-- that fails or finds SIGINT gets a thread of its own, in the order of the connections, and none
-- after it does; then it returns 0.
pub server_main-serves :
    (n : ℕ) (s : Startup) (good : List Accepted) (bad : Accepted) (rest : List Accepted)
    → n < 2 ^ 31
    → All (λ a. starts a ≡ true) good
    → starts bad ≡ false
    → server_main (decimal (pos n) ∷ []) s (good ++ bad ∷ rest)
      ≡ ok (
          if fails s (n % 2 ^ 16)
          then refused
          else stopped (n % 2 ^ 16) (map (λ a. a.client_socket) good))
unfolding ended
server_main-serves n s good bad rest h g b =
    server_main-calls n s (good ++ bad ∷ rest) h ∙ rw (accept_loop-stops good bad rest g b)

-- An argument that starts with no digit, sign or space ends the server by an exception that
-- nothing catches: there is no message, and nothing is served.
pub server_main-no_number :
    (c : ℕ) (text : Text) (s : Startup) (rounds : List Accepted)
    → is_space c ≡ false
    → c ≢ b'-'
    → c ≢ b'+'
    → ¬ IsDigit c
    → server_main ((c ∷ text) ∷ []) s rounds ≡ err uncaught
unfolding server_main
server_main-no_number c text s rounds sp m p d = rw (stoi-no_number c text sp m p d)

-- ===== src/Protocol/Interrupt.antt =====
-- SIGINT in a client that has not taken the option to exit, and what the server makes of it.
use client_server_signaling.Base.{
  ◌+◌, ◌<◌, ◌≡◌, refl, Text, Bool, true, false, none, some, List, [], ◌∷◌, length, ℤ,
}
use client_server_signaling.Fault.{ok}
use client_server_signaling.User.{User}
use client_server_signaling.UserStore.{UserStore, StoreOp, apply_all, get_user, is_login}
use client_server_signaling.Wire.{socket_buffer_size, word_size}
use client_server_signaling.Wire.Words.{IsWord}
use client_server_signaling.Server.Session.{Session, Env, goes_on, breaks}
use client_server_signaling.Server.Call.Guards.{at_get_user, asks}
use client_server_signaling.Server.Loop.{Round, dispatch, on_recv, round, run_rounds, close_sockets}
use client_server_signaling.Server.Loop.Calls.{call_text, dispatch-call_unanswered}
use client_server_signaling.Client.State.{Client}
use client_server_signaling.Client.Menu.{Choice, exited, menu_round}

-- A round in which `recv` finds the connection closed.
abbrev pub hung_up : Env → List StoreOp → Bool → Round
hung_up env others still = record {
  others = others;
  running = true;
  received = none;
  still_running = still;
  env = env;
}

-- SIGINT comes to a client that waits for an option and has not taken the one to exit, and whose
-- name the server's store has as logged in. The next option, whatever it is, ends the process with
-- nothing sent. The server's thread finds the connection closed and ends without touching the
-- store, whatever would come later, so that the user is still logged in; and the server still asks
-- that user's socket when another client calls, who hears nothing if nothing comes back.
pub interrupt_stays :
    (o : Choice) (c : Client) (env env' : Env) (others : List StoreOp) (still : Bool)
    (rounds : List Round) (s s' : Session) (users : UserStore) (sdp : Text) (u : User) (fd : ℤ)
    → o.interrupted ≡ true
    → c.exit_selected ≡ false
    → is_login s.username (apply_all others users) ≡ ok true
    → IsWord s.username
    → length s.username < word_size
    → 6 + length s.username + length sdp < socket_buffer_size
    → get_user s.username (at_get_user env' (apply_all others users)) ≡ some u
    → u.socket_fd ≡ some fd
    → env'.callee_bytes ≡ []
    → (menu_round o c
        ≡ ok (record { client = record c { running = false }; sent = []; flow = exited }))
      × (run_rounds (hung_up env others still ∷ rounds) s users
          ≡ ok (record {
            session = s;
            users = apply_all others users;
            actions = close_sockets s;
            flow = breaks;
          }))
      × (dispatch env' s' (apply_all others users) (call_text s.username sdp)
          ≡ ok (record {
            session = s';
            users = apply_all env'.while_waiting (at_get_user env' (apply_all others users));
            actions = asks fd s.username sdp;
            flow = goes_on;
          }))
unfolding menu_round run_rounds round on_recv
interrupt_stays o c env env' others still rounds s s' users sdp u fd i e l hn ln lm found bound
      silent =
    (
      rw (i, e) refl,
      refl,
      dispatch-call_unanswered env' s' (apply_all others users) s.username sdp u fd hn ln lm l found
          bound silent,
    )

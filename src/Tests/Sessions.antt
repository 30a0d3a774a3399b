-- ===== src/Tests/Sessions.antt =====
-- A login with a wrong password, an exit, and an interrupt.
use client_server_signaling.Base.{
  if◌then◌else◌, ◌==◌, ltb, length, ◌≡◌, ◌≢◌, refl, arith, Text, codes, text_eq, true, false, some,
  [], ◌∷◌, take, pos,
}
use client_server_signaling.Fault.{ok, err, overread, overflow, ◌>>=◌}
use client_server_signaling.User.{User, user}
use client_server_signaling.UserStore.{
  UserStore, logs_out, find, get_user, login_user, log_out_user, is_login, apply_all,
}
use client_server_signaling.Wire.{socket_buffer_size}
use client_server_signaling.Wire.Arrays.{padded}
use client_server_signaling.Server.Session.{Session, Env, sends, goes_on, breaks}
use client_server_signaling.Server.Commands.{replies, login_reply, logout_reply, exit_reply}
use client_server_signaling.Server.Commands.Replies.{with_names}
use client_server_signaling.Server.Loop.{dispatch, round, run_rounds, close_sockets}
use client_server_signaling.Client.State.{Client, start}
use client_server_signaling.Client.Requests.{sign_up_login_user, pack}
use client_server_signaling.Client.Menu.{Choice, left, exited, menu_round}
use client_server_signaling.Client.Listener.{listen, stops}
use client_server_signaling.Server.Call.Guards.{at_get_user, asks}
use client_server_signaling.Server.Loop.Calls.{call_text}
use client_server_signaling.Protocol.Bounds.{round-pack}
use client_server_signaling.Protocol.Interrupt.{hung_up, interrupt_stays}
use client_server_signaling.Protocol.Sessions.{replied, heard, login_flags, exit_ends}
use client_server_signaling.Tests.Data.{
  bob, carol, secret, bob-IsWord, carol-IsWord, bob_user, store, session, env,
}
use client_server_signaling.Tests.Json.{peer}

abbrev bob_away : User
bob_away = user bob secret false (pos 7)

abbrev users : UserStore
users = (bob, bob_away) ∷ []

bob_found : get_user bob users ≡ some bob_away
unfolding get_user find text_eq
bob_found = refl

login_flags_example :
    (m : Text) × (sign_up_login_user (pos 2) bob carol (replied login_reply) start
      ≡ ok (record {
        client = record start { username = bob; password = carol; is_login = true };
        sent = m ∷ [];
      }))
    × (dispatch env session users m
        ≡ ok (replies (with_names session bob carol) (login_user bob carol users).0 login_reply))
    × (is_login bob (login_user bob carol users).0 ≡ ok false)
unfolding text_eq
login_flags_example =
    login_flags env session users bob carol bob_away start bob-IsWord carol-IsWord (omega arith)
      (omega arith) bob_found refl

abbrev named : Client
named = record start { username = bob; is_login = true }

bob_is_named : bob ≢ []
bob_is_named e = ground arith

abbrev exiting : Choice
exiting = record {
  option = pos 5;
  interrupted = false;
  first_word = [];
  second_word = [];
  reply = replied logout_reply;
  reply2 = replied exit_reply;
  kill_ok = true;
}

exit_ends_example :
    (menu_round exiting named
      ≡ ok (record {
        client = record named { running = false; is_login = false; exit_selected = true };
        sent = codes "LOGOUT bob" ∷ codes "EXIT EXIT" ∷ [];
        flow = left;
      }))
    × (run_rounds
          (heard env [] (codes "LOGOUT bob")
            ∷ heard env (logs_out carol ∷ []) (codes "EXIT EXIT")
            ∷ [])
          session
          users
        ≡ ok (record {
          session = session;
          users = apply_all (logs_out carol ∷ []) (log_out_user session.username users);
          actions =
              sends session.client_socket logout_reply socket_buffer_size
              ∷ sends session.client_socket exit_reply socket_buffer_size
              ∷ sends session.client_socket_fd (codes "EXIT") 5
              ∷ close_sockets session;
          flow = breaks;
        }))
    × (listen peer ((true, some (take 5 (padded (codes "EXIT") 5)), true) ∷ []) named
        ≡ ok (record { client = named; events = []; next = stops }))
unfolding apply_all
exit_ends_example =
    exit_ends peer env env [] (logs_out carol ∷ []) [] session users named true [] bob_is_named
      (omega arith) (omega arith) refl exiting refl refl refl refl refl refl refl

-- Bob's client is interrupted, and then he is called.
abbrev interrupting : Choice
interrupting = record exiting { interrupted = true }

abbrev silent : Env
silent = record env { callee_bytes = [] }

abbrev bobs : Session
bobs = record session { username = bob }

bob_online : is_login bob store ≡ ok true
unfolding is_login find text_eq
bob_online = refl

bob_there : get_user bob (at_get_user silent store) ≡ some bob_user
unfolding get_user find text_eq apply_all
bob_there = refl

interrupt_stays_example :
    (menu_round interrupting named
      ≡ ok (record { client = record named { running = false }; sent = []; flow = exited }))
    × (run_rounds (hung_up env [] true ∷ []) bobs store
        ≡ ok
            (record { session = bobs; users = store; actions = close_sockets bobs; flow = breaks }))
    × (dispatch silent session store (call_text bob (codes "v=0"))
        ≡ ok (record {
          session = session;
          users = store;
          actions = asks (pos 7) bob (codes "v=0");
          flow = goes_on;
        }))
unfolding apply_all
interrupt_stays_example =
    interrupt_stays interrupting named env silent [] true [] bobs session store (codes "v=0")
      bob_user (pos 7) refl refl bob_online bob-IsWord (omega arith) (omega arith) bob_there refl
      refl

round-pack_example :
    pack (codes "LOGOUT bob") >>= (λ message. round (heard env [] message) bobs store) ≡ (
      if ltb (length (codes "LOGOUT bob")) socket_buffer_size
      then dispatch env bobs (apply_all [] store) (codes "LOGOUT bob")
      else if length (codes "LOGOUT bob") == socket_buffer_size
      then err overread
      else err overflow)
round-pack_example = round-pack env [] bobs store (codes "LOGOUT bob") (omega arith)

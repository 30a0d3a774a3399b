-- ===== src/Tests/Interleaving.antt =====
-- Two threads: the first signs bob up and in; while the second calls him, the first logs him out.
use client_server_signaling.Base.{
  ◌≢◌, arith, ◌≡◌, refl, Text, codes, Bool, true, false, some, List, [], ◌∷◌, pos, minus_one, map,
  text_eq,
}
use client_server_signaling.Fault.{ok}
use client_server_signaling.User.{User, user}
use client_server_signaling.UserStore.{
  UserStore, find, modify, add_user, login_user, log_out_user, is_login, has_user, get_user,
  apply_all,
}
use client_server_signaling.Wire.{
  socket_buffer_size, c_string, read_buffer, begins, skip_space, word, literal, some_word,
  scan_word, take_word, scan_one, scan_named, scan_two,
}
use client_server_signaling.Server.Session.{initial, sends}
use client_server_signaling.Server.Commands.{
  handle_signup, handle_login, handle_logout, signup_reply, login_reply, logout_reply,
}
use client_server_signaling.Server.Commands.Replies.{request}
use client_server_signaling.Server.Call.{parse_call}
use client_server_signaling.Server.Loop.{dispatch}
use client_server_signaling.Server.System.{
  Thread, Phase, asked, found, inviting, receiving, System, boot, new_thread, turn, receive, serve,
  ask, proceed, after_turn, Reaches, stays, goes, accepts, runs,
}
use client_server_signaling.Server.Loop.Calls.{call_text}
use client_server_signaling.Server.System.Calls.{reachable-call_made}
use client_server_signaling.Server.System.Isolation.{turn-keeps_others}
use client_server_signaling.Tests.Data.{bob, carol, secret, receives_text}

abbrev pub first : Thread
first = new_thread (pos 4)

abbrev pub second : Thread
second = new_thread (pos 8)

abbrev two_threads : System
two_threads = record { users = []; threads = first ∷ second ∷ [] }

started : Reaches boot two_threads
started = goes _ _ _ (goes _ _ _ (stays boot) (accepts (pos 4) _)) (accepts (pos 8) _)

-- The first thread after its replies.
abbrev pub replied : List Text → Thread
replied messages = record {
  session = record (initial (pos 4)) { username = bob; password = secret };
  phase = receiving;
  actions = map (λ m. sends (pos 4) m socket_buffer_size) messages;
}

abbrev pub calling : Phase → Thread
calling phase = record { session = initial (pos 8); phase = phase; actions = [] }

abbrev pub users_with : Bool → UserStore
users_with islogin = (bob, user bob secret islogin minus_one) ∷ []

abbrev pub at : Bool → List Text → Phase → System
at islogin messages phase = record {
  users = users_with islogin;
  threads = replied messages ∷ calling phase ∷ [];
}

abbrev pub offer : Text
offer = codes "offer"

pub signs_up :
    turn (receives_text (request (codes "SIGNUP") bob secret)) first []
    ≡ ok (replied (signup_reply ∷ []), users_with false)
unfolding turn receive serve dispatch begins read_buffer c_string apply_all handle_signup scan_two
    take_word scan_word some_word word skip_space literal add_user modify text_eq after_turn
signs_up = refl

pub logs_in :
    turn
      (receives_text (request (codes "LOGIN") bob secret))
      (replied (signup_reply ∷ []))
      (users_with false)
    ≡ ok (replied (signup_reply ∷ login_reply ∷ []), users_with true)
unfolding turn receive serve dispatch begins read_buffer c_string apply_all handle_login scan_two
    take_word scan_word some_word word skip_space literal login_user find modify text_eq after_turn
logs_in = refl

pub calls :
    turn (receives_text (call_text bob offer)) second (users_with true)
    ≡ ok (calling (asked bob offer), users_with true)
unfolding turn receive serve ask begins read_buffer c_string parse_call scan_named scan_one
    take_word scan_word some_word word skip_space literal is_login find text_eq
calls = refl

pub logs_out :
    turn
      (receives_text (codes "LOGOUT bob"))
      (replied (signup_reply ∷ login_reply ∷ []))
      (users_with true)
    ≡ ok (replied (signup_reply ∷ login_reply ∷ logout_reply ∷ []), users_with false)
unfolding turn receive serve dispatch begins read_buffer c_string apply_all handle_logout
    log_out_user modify text_eq after_turn
logs_out = refl

pub finds :
    turn (receives_text []) (calling (asked bob offer)) (users_with false)
    ≡ ok (calling (found bob offer), users_with false)
unfolding turn proceed has_user find text_eq
finds = refl

signed_up : Reaches boot (at false (signup_reply ∷ []) receiving)
signed_up = goes _ _ _ started (runs [] (second ∷ []) _ _ _ _ _ signs_up)

abbrev midway : System
midway = at false (signup_reply ∷ login_reply ∷ logout_reply ∷ []) (found bob offer)

-- The second thread has seen that bob is logged in.
abbrev called : System
called = at true (signup_reply ∷ login_reply ∷ []) (asked bob offer)

calls_him : Reaches boot called
calls_him =
    goes _ _ _ (goes _ _ _ signed_up (runs [] (second ∷ []) _ _ _ _ _ logs_in))
      (runs (replied (signup_reply ∷ login_reply ∷ []) ∷ []) [] _ _ _ _ _ calls)

loses_him : Reaches called midway
loses_him =
    goes _ _ _
      (goes _ _ _ (stays called) (runs [] (calling (asked bob offer) ∷ []) _ _ _ _ _ logs_out))
      (runs (replied (signup_reply ∷ login_reply ∷ logout_reply ∷ []) ∷ []) [] _ _ _ _ _ finds)

reachable-call_made_example :
    (turn (receives_text []) (calling (asked bob offer)) (users_with true)
      ≡ ok (calling (found bob offer), users_with true))
    × ((u : User) × (get_user bob (users_with false) ≡ some u)
        × (turn (receives_text []) (calling (found bob offer)) (users_with false)
            ≡ ok (calling (inviting u bob offer), users_with false)))
reachable-call_made_example =
    reachable-call_made called midway (replied (signup_reply ∷ login_reply ∷ []) ∷ []) []
      (replied (signup_reply ∷ login_reply ∷ logout_reply ∷ []) ∷ []) [] (initial (pos 8)) [] bob
      offer (receives_text []) (receives_text []) calls_him refl loses_him refl

bob_is_not_carol : bob ≢ carol
bob_is_not_carol e = ground arith

turn-keeps_others_example : get_user carol (users_with true) ≡ get_user carol (users_with false)
turn-keeps_others_example =
    turn-keeps_others (receives_text (request (codes "LOGIN") bob secret))
      (replied (signup_reply ∷ [])) (replied (signup_reply ∷ login_reply ∷ [])) (users_with false)
      (users_with true) carol logs_in bob_is_not_carol

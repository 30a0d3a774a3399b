-- ===== src/Tests/Accounts.antt =====
-- Sign-ups, logins, logouts and whole threads at concrete inputs.
use client_server_signaling.Base.{
  ◌≡◌, ◌≢◌, refl, arith, Text, codes, text_eq, true, false, none, some, List, [], ◌∷◌, ◌++◌, pos,
}
use client_server_signaling.Fault.{ok, ◌>>=◌}
use client_server_signaling.User.{user}
use client_server_signaling.UserStore.{
  UserStore, find, modify, is_login, get_user, apply_all, add_user,
}
use client_server_signaling.UserStore.Logout.{made_up}
use client_server_signaling.Wire.{
  socket_buffer_size, c_string, read_buffer, begins, skip_space, word, literal, some_word,
  scan_word, take_word, scan_two,
}
use client_server_signaling.Server.Session.{sends, closes, Turn, breaks}
use client_server_signaling.Server.Commands.{
  handle_signup, handle_login, handle_exit, signup_reply, exit_reply,
}
use client_server_signaling.Server.Commands.Replies.{request, handle_signup_stores}
use client_server_signaling.Server.Commands.Accounts.{
  login_logout, login_logout_any_password, login_without_signup,
}
use client_server_signaling.Server.Commands.Closing.{closed}
use client_server_signaling.Server.Loop.{Round, run_rounds, round, on_recv, dispatch, close_sockets}
use client_server_signaling.Server.Loop.Closing.{expected, closed-run_rounds}
use client_server_signaling.Tests.Data.{
  bob, carol, secret, bob-IsWord, carol-IsWord, secret-IsWord, store, session, receives_text,
}

handle_signup_stores_example :
    (t : Turn) × (handle_signup session store (request (codes "SIGNUP") bob carol) ≡ ok t)
    × (get_user bob t.users ≡ some (user bob carol false (pos 5)))
    × ((j : Text) → j ≢ bob → get_user j t.users ≡ get_user j store)
    × (t.actions ≡ sends (pos 4) signup_reply socket_buffer_size ∷ [])
handle_signup_stores_example =
    handle_signup_stores session store bob carol bob-IsWord carol-IsWord (omega arith) (omega arith)

login_logout_any_password_example :
    (t : Turn) × (login_logout session store (request (codes "LOGIN") bob carol) ≡ ok t)
    × (is_login bob t.users ≡ ok false)
    × ((j : Text) → j ≢ bob → get_user j t.users ≡ get_user j store)
login_logout_any_password_example =
    login_logout_any_password session store bob carol bob-IsWord carol-IsWord (omega arith)
      (omega arith)

carol_missing : get_user carol store ≡ none
unfolding get_user find text_eq
carol_missing = refl

login_without_signup_example :
    (t : Turn) × ((do
      r ← login_logout session store (request (codes "LOGIN") carol secret)
      handle_login r.session r.users (codes "LOGIN" ++ 32 ∷ carol))
      ≡ ok t)
    × (is_login carol t.users ≡ ok true)
    × (get_user carol t.users ≡ some made_up)
login_without_signup_example =
    login_without_signup session store carol secret carol-IsWord secret-IsWord (omega arith)
      (omega arith) carol_missing

-- A sign-up and an exit.
abbrev rounds : List Round
rounds =
    receives_text (request (codes "SIGNUP") bob secret) ∷ receives_text (codes "EXIT EXIT") ∷ []

abbrev signed_up : UserStore → Turn
signed_up users = record {
  session = record session { username = bob; password = secret };
  users = users;
  actions =
      sends (pos 4) signup_reply socket_buffer_size
      ∷ sends (pos 4) exit_reply socket_buffer_size
      ∷ sends (pos 5) (codes "EXIT") 5
      ∷ closes (pos 4)
      ∷ closes (pos 4)
      ∷ [];
  flow = breaks;
}

run : run_rounds rounds session [] ≡ ok (signed_up ((bob, user bob secret false (pos 5)) ∷ []))
unfolding run_rounds round on_recv dispatch begins read_buffer c_string apply_all handle_signup
    handle_exit scan_two take_word scan_word some_word word skip_space literal add_user modify
    text_eq close_sockets
run = refl

closed-run_rounds_example :
    closed (signed_up ((bob, user bob secret false (pos 5)) ∷ [])).actions
    ≡ expected session (signed_up ((bob, user bob secret false (pos 5)) ∷ []))
closed-run_rounds_example = closed-run_rounds rounds session [] _ run

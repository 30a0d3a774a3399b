-- ===== src/Protocol/Sessions.antt =====
-- A login, and an exit, as the client, the thread of the server and the listener take part in them.
use client_server_signaling.Base.{
  ◌+◌, ◌<◌, ◌≡◌, ◌≢◌, refl, arith, Text, codes, text_eq, text_eq_refl, Bool, true, false, Option,
  some, List, [], ◌∷◌, ◌++◌, length, take, lt→ltb, pos, All-append,
}
use client_server_signaling.Fault.{ok}
use client_server_signaling.User.{User, set_islogin}
use client_server_signaling.UserStore.{
  UserStore, StoreOp, apply_all, get_user, login_user, log_out_user, is_login,
}
use client_server_signaling.UserStore.Lookup.{find-modify}
use client_server_signaling.Wire.{socket_buffer_size, word_size}
use client_server_signaling.Wire.Words.{IsWord, HasNoNul}
use client_server_signaling.Wire.Arrays.{padded, read_buffer_first}
use client_server_signaling.Server.Session.{Session, Env, sends, breaks}
use client_server_signaling.Server.Commands.{
  replies, login_reply, logout_reply, exit_reply, handle_logout, handle_exit,
}
use client_server_signaling.Server.Commands.Replies.{request, with_names, handle_login_lem}
use client_server_signaling.Server.Loop.{Round, dispatch, on_recv, round, run_rounds, close_sockets}
use client_server_signaling.Server.Loop.Kinds.{dispatch-login, dispatch-logout, dispatch-exit}
use client_server_signaling.Client.State.{Client, Reply}
use client_server_signaling.Client.Requests.{
  is_empty, pack, exchange, logout_user, exit_user, sign_up_login_user,
}
use client_server_signaling.Client.Requests.Packing.{pack-HasNoNul}
use client_server_signaling.Client.Menu.{Choice, left, select, menu_round}
use client_server_signaling.Client.Listener.{Peer, listen, stops}
use client_server_signaling.Client.Listener.Stream.{listen-exit}
use client_server_signaling.Protocol.{pack-request}

-- What the client's calls return for a text that the server sends.
abbrev pub replied : Text → Reply
replied text = record {
  send_ok = true;
  received = some (take socket_buffer_size (padded text socket_buffer_size));
}

-- A request that is packed, and an answer that fits the buffer, are exchanged.
exchange-replied :
    (m answer : Text)
    → pack m ≡ ok m
    → HasNoNul answer
    → length answer < socket_buffer_size
    → exchange m (replied answer) ≡ ok (some answer, m ∷ [])
unfolding exchange
exchange-replied m answer packed nn l =
    rw (packed, exchange, read_buffer_first answer socket_buffer_size socket_buffer_size nn l)

module _ (env : Env) (s : Session) (users : UserStore) (name password : Text) (u : User)
    (c : Client) (hn : IsWord name) (hp : IsWord password) (ln : length name < word_size)
    (lp : length password < word_size) (found : get_user name users ≡ some u)
    (logged_out : u.islogin ≡ some false) where
  is_login-login_user :
      is_login name (login_user name password users).0 ≡ ok (text_eq u.password password)
  unfolding is_login login_user get_user
  is_login-login_user = ground (
    arith,
    found,
    logged_out,
    find-modify name name (set_islogin (some true)) users,
    text_eq_refl name,
  )

  -- A client logs in to a user who is logged out, and the server's answer arrives: the client then
  -- takes itself for logged in, whatever the password; in the server's store the user is logged in
  -- exactly if the password is the right one.
  pub login_flags :
      (m : Text) × (sign_up_login_user (pos 2) name password (replied login_reply) c
        ≡ ok (record {
          client = record c {
            username = name;
            password = password;
            exit_selected = false;
            is_login = true;
          };
          sent = m ∷ [];
        }))
      × (dispatch env s users m
          ≡ ok
              (replies (with_names s name password) (login_user name password users).0 login_reply))
      × (is_login name (login_user name password users).0 ≡ ok (text_eq u.password password))
  unfolding sign_up_login_user
  login_flags =
      let m = request (codes "LOGIN") name password in
      let packed =
        pack-request (codes "LOGIN") name password (omega arith) (omega arith) hn hp ln lp in
      let told = exchange-replied m login_reply packed (omega arith) (omega arith) in
      (
        m,
        rw told (ground arith),
        rw (
          dispatch-login env s users (32 ∷ name ++ (32 ∷ password)),
          handle_login_lem s users name password hn hp,
          lt→ltb _ _ ln,
          lt→ltb _ _ lp,
        ),
        is_login-login_user,
      )

-- A round in which a text of the client arrives as its array.
abbrev pub heard : Env → List StoreOp → Text → Round
heard env others text = record {
  others = others;
  running = true;
  received = some (take socket_buffer_size (padded text socket_buffer_size));
  still_running = true;
  env = env;
}

pub round-heard :
    (env : Env) (others : List StoreOp) (s : Session) (users : UserStore) (text : Text)
    → HasNoNul text
    → length text < socket_buffer_size
    → round (heard env others text) s users ≡ dispatch env s (apply_all others users) text
unfolding round on_recv
round-heard env others s users text nn l =
    rw (read_buffer_first text socket_buffer_size socket_buffer_size nn l)

is_empty-filled : (t : Text) → t ≢ [] → is_empty t ≡ false
is_empty-filled [] h = absurd (h refl)
is_empty-filled (c ∷ t) h = refl

module _ (p : Peer) (env env' : Env) (others others' : List StoreOp) (rounds : List Round)
    (s : Session) (users : UserStore) (c : Client) (still : Bool)
    (later : List (Bool × Option Text × Bool)) (named : c.username ≢ []) (nn : HasNoNul c.username)
    (l : 7 + length c.username < socket_buffer_size)
    (sent : env'.send_ok s.client_socket ≡ true) where
  abbrev logout_text : Text
  logout_text = codes "LOGOUT " ++ c.username

  logout_nn : HasNoNul logout_text
  logout_nn = All-append (λ b. b ≢ 0) (codes "LOGOUT ") c.username (omega arith) nn

  after_logout :
      exit_user (replied logout_reply) (replied exit_reply) c
      ≡ ok (record {
        client = record c { is_login = false; exit_selected = true };
        sent = logout_text ∷ codes "EXIT EXIT" ∷ [];
      })
  unfolding exit_user logout_user
  after_logout =
      let packed = pack-HasNoNul logout_text logout_nn (omega arith) in
      let first = exchange-replied logout_text logout_reply packed (omega arith) (omega arith) in
      let packed' = pack-HasNoNul (codes "EXIT EXIT") (omega arith) (omega arith) in
      let second =
        exchange-replied (codes "EXIT EXIT") exit_reply packed' (omega arith) (omega arith) in
      rw (is_empty-filled c.username named, exit_user, logout_user, first, second) (ground arith)

  -- A user with a name takes the option to exit, SIGINT has not come, the two messages and the
  -- server's two answers arrive, and `kill` and the server's sends succeed: the menu is left, with
  -- `running` cleared, as by the signal; the client takes itself for logged out; the thread of the
  -- server logs out the name that its session has, closes its socket and ends, whatever would be
  -- sent to it later; and the client's listener stops at what the thread sends it.
  pub exit_ends :
      (o : Choice)
      → o.option ≡ pos 5
      → o.interrupted ≡ false
      → o.kill_ok ≡ true
      → o.reply ≡ replied logout_reply
      → o.reply2 ≡ replied exit_reply
      → c.running ≡ true
      → c.server_disconnected ≡ false
      → (menu_round o c
          ≡ ok (record {
            client = record c { running = false; is_login = false; exit_selected = true };
            sent = logout_text ∷ codes "EXIT EXIT" ∷ [];
            flow = left;
          }))
        × (run_rounds
              (heard env others logout_text ∷ heard env' others' (codes "EXIT EXIT") ∷ rounds)
              s
              users
            ≡ ok (record {
              session = s;
              users = apply_all others' (log_out_user s.username (apply_all others users));
              actions =
                  sends s.client_socket logout_reply socket_buffer_size
                  ∷ sends s.client_socket exit_reply socket_buffer_size
                  ∷ sends s.client_socket_fd (codes "EXIT") 5
                  ∷ close_sockets s;
              flow = breaks;
            }))
        × (listen p ((true, some (take 5 (padded (codes "EXIT") 5)), still) ∷ later) c
            ≡ ok (record { client = c; events = []; next = stops }))
  unfolding run_rounds handle_logout handle_exit menu_round select
  exit_ends o option interrupted kill_ok reply reply2 running connected = (
    rw (menu_round, select, option, interrupted, kill_ok, reply, reply2, after_logout)
        (ground arith),
    rw (
      round-heard env others s users logout_text logout_nn (omega arith),
      dispatch-logout env s (apply_all others users) (32 ∷ c.username),
      handle_logout,
      round-heard env' others' s (log_out_user s.username (apply_all others users))
          (codes "EXIT EXIT") (omega arith) (omega arith),
      dispatch-exit env' s (apply_all others' (log_out_user s.username (apply_all others users)))
          (codes " EXIT"),
      handle_exit,
      sent,
    ),
    listen-exit p c still later,
  )

-- ===== src/Tests/Calls.antt =====
-- Calls, and the life of a thread, at concrete inputs.
use client_server_signaling.Base.{◌≡◌, refl, arith, codes, text_eq, true, some, [], ◌∷◌, ◌++◌, pos}
use client_server_signaling.Fault.{ok, err, overflow}
use client_server_signaling.User.{User}
use client_server_signaling.UserStore.{find, is_login, get_user, login_user, apply_all}
use client_server_signaling.Server.Session.{Session, Env, initial, goes_on}
use client_server_signaling.Server.Call.{handle_call, invite, parse_call}
use client_server_signaling.Server.Call.Bounds.{parse_call-format, handle_call_truncated}
use client_server_signaling.Server.Call.Guards.{at_get_user, asks, forwards, handle_call_online}
use client_server_signaling.Server.Loop.{dispatch}
use client_server_signaling.Server.Loop.Calls.{call_text, accept_text, dispatch-call_accepted}
use client_server_signaling.Server.Commands.{replies, login_reply}
use client_server_signaling.Server.Commands.Replies.{request, with_names}
use client_server_signaling.Server.Loop.Reconnects.{login-dispatch_call}
use client_server_signaling.Tests.Data.{
  bob, secret, secret-IsWord, bob-IsWord, bob_user, store, session, env,
}

pub online : is_login bob store ≡ ok true
unfolding is_login find text_eq
online = refl

pub found : get_user bob (at_get_user env store) ≡ some bob_user
unfolding get_user find text_eq apply_all
found = refl

dispatch-call_accepted_example :
    dispatch env session store (call_text bob (codes "offer"))
    ≡ ok (record {
      session = session;
      users = apply_all [] (at_get_user env store);
      actions = asks (pos 7) bob (codes "offer") ++ forwards session (accept_text (codes "answer"));
      flow = goes_on;
    })
dispatch-call_accepted_example =
    dispatch-call_accepted env session store bob (codes "offer") bob_user (pos 7) bob-IsWord
      (omega arith) (omega arith) online found refl (codes "answer") refl (omega arith)
      (omega arith)

parsed : parse_call (call_text bob (codes "offer")) ≡ ok (bob, codes "offer")
parsed = parse_call-format bob (codes "offer") bob-IsWord (omega arith) (omega arith)

handle_call_online_example :
    (u : User) × (get_user bob (at_get_user env store) ≡ some u)
    × (handle_call env session store (call_text bob (codes "offer"))
        ≡ invite env session (at_get_user env store) u bob (codes "offer"))
handle_call_online_example =
    handle_call_online env session store (call_text bob (codes "offer")) bob (codes "offer") parsed
      online

handle_call_truncated_example :
    handle_call env session store (codes "CALL" ++ 32 ∷ bob) ≡ err overflow
handle_call_truncated_example = handle_call_truncated env session store bob bob-IsWord (omega arith)

-- Bob comes back on a connection whose second socket is 9; the store still has 7.
abbrev new_session : Session
new_session = record (initial (pos 8)) { client_socket_fd = pos 9 }

abbrev silent : Env
silent = record env { callee_bytes = [] }

known : get_user bob store ≡ some bob_user
unfolding get_user find text_eq
known = refl

login-dispatch_call_example :
    (dispatch env new_session store (request (codes "LOGIN") bob secret)
      ≡ ok
          (replies (with_names new_session bob secret) (login_user bob secret store).0 login_reply))
    × (dispatch silent session (login_user bob secret store).0 (call_text bob (codes "offer"))
        ≡ ok (record {
          session = session;
          users = apply_all [] (at_get_user silent (login_user bob secret store).0);
          actions = asks (pos 7) bob (codes "offer");
          flow = goes_on;
        }))
login-dispatch_call_example =
    login-dispatch_call bob secret store bob_user known refl env silent new_session session
      (codes "offer") (pos 7) bob-IsWord secret-IsWord (omega arith) (omega arith) (omega arith)
      refl tt tt refl

-- ===== src/Server/Commands/Closing.antt =====
-- No branch closes a socket or changes the thread's own socket.
use client_server_signaling.Base.{◌≡◌, refl, ap, arith, Text, List, [], ◌∷◌, ◌++◌, ℤ}
use client_server_signaling.Fault.{ok, >>=-eq-ok}
use client_server_signaling.UserStore.{UserStore}
use client_server_signaling.Server.Session.{
  Session, Env, Action, connects, sends, receives, closes, Turn,
}
use client_server_signaling.Server.Commands.{
  handle_client, handle_signup, handle_login, handle_logout, handle_exit, scan_client,
  connect_to_client,
}

-- The sockets that are closed, in order.
abbrev pub closed : List Action → List ℤ
closed [] = []
closed (closes fd ∷ acts) = fd ∷ closed acts
closed (connects fd ip port ∷ acts) = closed acts
closed (sends fd bytes size ∷ acts) = closed acts
closed (receives fd ∷ acts) = closed acts

pub closed-append : (xs ys : List Action) → closed (xs ++ ys) ≡ closed xs ++ closed ys
closed-append [] ys = refl
closed-append (closes fd ∷ xs) ys = ap (◌∷◌ fd) (closed-append xs ys)
closed-append (connects fd ip port ∷ xs) ys = closed-append xs ys
closed-append (sends fd bytes size ∷ xs) ys = closed-append xs ys
closed-append (receives fd ∷ xs) ys = closed-append xs ys

pub record IsPlainTurn (s : Session) (t : Turn) : Type 0 where
  pub closes_nothing : closed t.actions ≡ []
  pub same_socket : t.session.client_socket ≡ s.client_socket

pub scan_client-same_socket :
    (s t : Session) (text : Text) → scan_client s text ≡ ok t → t.client_socket ≡ s.client_socket
unfolding scan_client
scan_client-same_socket s t text h = ground arith

pub handle_client-IsPlainTurn :
    (env : Env) (s : Session) (users : UserStore) (text : Text) (t : Turn)
    → handle_client env s users text ≡ ok t
    → IsPlainTurn s t
unfolding handle_client connect_to_client
handle_client-IsPlainTurn env s users text t h =
    let (u, e, h') = >>=-eq-ok (scan_client s text) _ h in
    ground (arith, scan_client-same_socket s u text e)

module _ (s : Session) (users : UserStore) (text : Text) (t : Turn) where
  pub handle_signup-IsPlainTurn : handle_signup s users text ≡ ok t → IsPlainTurn s t
  unfolding handle_signup
  handle_signup-IsPlainTurn h = ground arith

  pub handle_login-IsPlainTurn : handle_login s users text ≡ ok t → IsPlainTurn s t
  unfolding handle_login
  handle_login-IsPlainTurn h = ground arith

pub handle_logout-IsPlainTurn :
    (s : Session) (users : UserStore) (t : Turn) → handle_logout s users ≡ ok t → IsPlainTurn s t
unfolding handle_logout
handle_logout-IsPlainTurn s users t h = ground arith

pub handle_exit-IsPlainTurn :
    (env : Env) (s : Session) (users : UserStore) (t : Turn)
    → handle_exit env s users ≡ ok t
    → IsPlainTurn s t
unfolding handle_exit
handle_exit-IsPlainTurn env s users t h = ground arith

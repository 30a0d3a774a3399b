-- ===== src/Server/Loop/Kinds.antt =====
-- Which branch a message of each kind takes.
use client_server_signaling.Base.{◌≡◌, refl, Text, codes, ◌++◌}
use client_server_signaling.UserStore.{UserStore}
use client_server_signaling.Wire.{begins}
use client_server_signaling.Server.Session.{Session, Env}
use client_server_signaling.Server.Commands.{
  handle_client, handle_signup, handle_login, handle_logout, handle_exit,
}
use client_server_signaling.Server.Call.{handle_call}
use client_server_signaling.Server.Loop.{dispatch}

module _ (env : Env) (s : Session) (users : UserStore) (rest : Text) where
  pub dispatch-client :
      dispatch env s users (codes "CLIENT" ++ rest)
      ≡ handle_client env s users (codes "CLIENT" ++ rest)
  unfolding dispatch begins
  dispatch-client = refl

  pub dispatch-signup :
      dispatch env s users (codes "SIGNUP" ++ rest) ≡ handle_signup s users (codes "SIGNUP" ++ rest)
  unfolding dispatch begins
  dispatch-signup = refl

  pub dispatch-login :
      dispatch env s users (codes "LOGIN" ++ rest) ≡ handle_login s users (codes "LOGIN" ++ rest)
  unfolding dispatch begins
  dispatch-login = refl

  pub dispatch-call :
      dispatch env s users (codes "CALL" ++ rest) ≡ handle_call env s users (codes "CALL" ++ rest)
  unfolding dispatch begins
  dispatch-call = refl

  pub dispatch-logout : dispatch env s users (codes "LOGOUT" ++ rest) ≡ handle_logout s users
  unfolding dispatch begins
  dispatch-logout = refl

  pub dispatch-exit : dispatch env s users (codes "EXIT" ++ rest) ≡ handle_exit env s users
  unfolding dispatch begins
  dispatch-exit = refl

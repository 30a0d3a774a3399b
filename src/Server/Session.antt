-- ===== src/Server/Session.antt =====
-- The locals of `client_handler`, what one round of its loop meets, and what a round does.
use client_server_signaling.Base.{ℕ, Text, Bool, false, List, [], ℤ, minus_one}
use client_server_signaling.UserStore.{UserStore, StoreOp}

pub record Session : Type 0 where
  pub client_socket : ℤ
  pub client_ip_address : Text
  pub client_port_int : ℤ
  pub client_socket_fd : ℤ
  pub username : Text
  pub password : Text
  pub haslogin : Bool

abbrev pub initial : ℤ → Session
initial client_socket = record {
  client_socket = client_socket;
  client_ip_address = [];
  client_port_int = minus_one;
  client_socket_fd = minus_one;
  username = [];
  password = [];
  haslogin = false;
}

-- What the system calls of one round return, and what other threads do to the store meanwhile.
pub record Env : Type 0 where
  pub socket_result : ℤ
  pub inet_pton_ok : Text → Bool
  pub connect_ok : Bool
  pub send_ok : ℤ → Bool
  -- the bytes that `recv` puts into `incoming_message`
  pub callee_bytes : Text
  -- by other threads: between `isLogin` and `hasUser`, between `hasUser` and `getUser`, and
  -- while the thread waits for the callee
  pub after_is_login : List StoreOp
  pub after_has_user : List StoreOp
  pub while_waiting : List StoreOp

-- A system call, in the order of the calls. `sends fd bytes size` sends `size` bytes, `bytes` first
-- and then NULs.
pub data Action : Type 0 where
  connects : ℤ → Text → ℤ → Action
  sends : ℤ → Text → ℕ → Action
  receives : ℤ → Action
  closes : ℤ → Action

-- Whether the loop goes on.
pub data Flow : Type 0 where
  goes_on breaks : Flow

pub record Turn : Type 0 where
  pub session : Session
  pub users : UserStore
  pub actions : List Action
  pub flow : Flow

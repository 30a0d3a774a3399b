-- ===== src/Tests/Data.antt =====
-- Two users and a call between them.
use client_server_signaling.Base.{refl, Text, codes, true, some, [], ◌∷◌, pos}
use client_server_signaling.User.{User, user}
use client_server_signaling.UserStore.{UserStore}
use client_server_signaling.Wire.Words.{IsWord, IsWord-check, plain_bytes}
use client_server_signaling.Server.Session.{Session, Env, initial}
use client_server_signaling.Server.Loop.{Round}
use client_server_signaling.Server.Loop.Calls.{accept_text}

abbrev pub bob : Text
bob = codes "bob"

abbrev pub carol : Text
carol = codes "carol"

abbrev pub secret : Text
secret = codes "secret"

pub bob-IsWord : IsWord bob
unfolding plain_bytes
bob-IsWord = IsWord-check b'b' (codes "ob") refl

pub carol-IsWord : IsWord carol
unfolding plain_bytes
carol-IsWord = IsWord-check b'c' (codes "arol") refl

pub secret-IsWord : IsWord secret
unfolding plain_bytes
secret-IsWord = IsWord-check b's' (codes "ecret") refl

abbrev pub bob_user : User
bob_user = user bob secret true (pos 7)

abbrev pub store : UserStore
store = (bob, bob_user) ∷ []

-- A thread whose client has sent its address.
abbrev pub session : Session
session = record (initial (pos 4)) { client_socket_fd = pos 5 }

abbrev pub env : Env
env = record {
  socket_result = pos 5;
  inet_pton_ok = λ ip. true;
  connect_ok = true;
  send_ok = λ fd. true;
  callee_bytes = accept_text (codes "answer");
  after_is_login = [];
  after_has_user = [];
  while_waiting = [];
}

abbrev pub receives_text : Text → Round
receives_text text = record {
  others = [];
  running = true;
  received = some text;
  still_running = true;
  env = env;
}

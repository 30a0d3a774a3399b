-- ===== src/Client/State.antt =====
-- The globals of src/client.cpp, and what the calls of one request return.
use client_server_signaling.Base.{ℕ, ◌==◌, if◌then◌else◌, Text, Bool, true, false, Option, List, []}

pub record Client : Type 0 where
  pub username : Text
  pub password : Text
  pub server_disconnected : Bool
  pub running : Bool
  pub exit_selected : Bool
  pub local_sdp : Text
  pub remote_sdp : Text
  pub is_login : Bool

abbrev pub start : Client
start = record {
  username = [];
  password = [];
  server_disconnected = false;
  running = true;
  exit_selected = false;
  local_sdp = [];
  remote_sdp = [];
  is_login = false;
}

-- The handler of SIGINT, which is signal 2.
abbrev pub signal_handler : ℕ → Client → Client
signal_handler sig c = if sig == 2 then record c { running = false } else c

-- Whether `send` succeeds, and the bytes that `recv` gives, `none` for -1.
pub record Reply : Type 0 where
  pub send_ok : Bool
  pub received : Option Text

-- The client afterwards, and the texts that it sent, each padded with NULs to the buffer's size.
pub record Done : Type 0 where
  pub client : Client
  pub sent : List Text

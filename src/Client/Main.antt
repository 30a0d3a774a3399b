-- ===== src/Client/Main.antt =====
-- `main` of src/client.cpp: its arguments, the connection to the server, and what it starts.
pub mod Reach
use client_server_signaling.Base.{
  ℕ, Text, Bool, true, false, not, Option, List, [], ◌∷◌, if◌then◌else◌, ℤ, minus_one, int_eq,
}
use client_server_signaling.Fault.{Result, ok, err, ◌>>=◌}
use client_server_signaling.Wire.Arguments.{stoi, htons}
use client_server_signaling.Rtp.{Buffer, media_handler}
use client_server_signaling.Client.State.{Client}
use client_server_signaling.Client.Requests.{send_ip_and_port_to_server}
use client_server_signaling.Client.Menu.{Choice, MenuTurn, open_menu}

-- What the calls before `media_handler` return. `connect_ok address port` is the call's success.
pub record Connecting : Type 0 where
  pub sigaction_result : ℤ
  pub socket_result : ℤ
  pub inet_pton_ok : Text → Bool
  pub connect_ok : Text → ℕ → Bool
  pub send_ok : Bool

-- Where `main` is: it has returned 1, or -1 after it closed its socket; it is in `media_handler`;
-- or the listener's thread has been started at a port and `open_menu` has come this far. The
-- first text is what the server was sent. At the end of the menu the socket is closed and the
-- thread is joined.
pub data Progress : Type 0 where
  refused : Progress
  unsent : Progress
  in_media : Text → List Text → Progress
  in_menu : Text → List Text → ℤ → MenuTurn → Progress

-- `media_handler`, the thread and the menu.
unfoldable pub serves :
    (Buffer → Buffer)
    → Text
    → ℤ
    → List (Option Text × Bool)
    → List Choice
    → Client
    → Result Progress
serves stamp message port media choices c = do
  (sent, left) ← media_handler stamp media
  (if left
      then (do t ← open_menu choices c; ok (in_menu message sent port t))
      else ok (in_media message sent))

-- `arguments` are those after the program's name: the server's address and port, and the client's.
unfoldable pub client_main :
    (Buffer → Buffer)
    → List Text
    → Connecting
    → List (Option Text × Bool)
    → List Choice
    → Client
    → Result Progress
unfolding serves
client_main stamp (server ∷ server_port ∷ address ∷ client_port ∷ []) s media choices c =
    if int_eq s.sigaction_result minus_one then ok refused else (do
      port ← stoi server_port
      own ← stoi client_port
      (if int_eq s.socket_result minus_one
          then ok refused
          else if not (s.inet_pton_ok server)
          then ok refused
          else if not (s.connect_ok server (htons port))
          then ok refused
          else (do
            message ← send_ip_and_port_to_server address own
            (if s.send_ok then serves stamp message own media choices c else ok unsent))))
client_main stamp arguments s media choices c = ok refused

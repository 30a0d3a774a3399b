-- ===== src/Tests/Leaving.antt =====
-- The process of the client: bob logs in while an INVITE arrives, or SIGINT comes.
use client_server_signaling.Base.{
  ◌≤◌, ◌≡◌, refl, arith, Text, codes, true, false, some, none, [], ◌∷◌, ◌++◌, minus_one, pos,
}
use client_server_signaling.Fault.{ok}
use client_server_signaling.Wire.{socket_buffer_size, c_string, read_buffer}
use client_server_signaling.Server.Call.{invite_text}
use client_server_signaling.Client.State.{start}
use client_server_signaling.Client.Requests.{sign_up_login_user, exchange, pack}
use client_server_signaling.Client.Menu.{menu_round, select}
use client_server_signaling.Client.Listener.{listen}
use client_server_signaling.Client.Process.{
  choosing, hearing, gone, ClientProcess, menu_step, listener_step, listener_moves,
}
use client_server_signaling.Client.Process.Mixed.{Mixed, mixed_none, menu_next, listener_next}
use client_server_signaling.Client.Process.Serial.{Serial, Mixed-Serial}
use client_server_signaling.Client.Process.Ending.{
  Unwinds, unwinds_none, unwinds_more, MenuEnds, ListenerEnds, Unwinds-ends,
}
use client_server_signaling.Tests.Data.{bob}
use client_server_signaling.Tests.Listening.{lenient, heard, hears_invite, logs_in, logged_in_turn}

-- The listener waits in `recv`, and the menu for an option.
abbrev before : ClientProcess
before = record { client = start; menu = choosing; listener = hearing; requests = []; events = [] }

abbrev after_invite : ClientProcess
after_invite = record before { client = heard.client; events = heard.events }

abbrev invite_bytes : Text
invite_bytes = invite_text bob (codes "v=0") ++ 0 ∷ []

invite_read : read_buffer socket_buffer_size invite_bytes ≡ ok (invite_text bob (codes "v=0"))
unfolding read_buffer c_string
invite_read = refl

message_of_before : listener_step lenient (pos 5) true (some invite_bytes) before ≡ ok after_invite
unfolding listener_step listen
message_of_before = rw (invite_read, hears_invite) refl

abbrev after_both : ClientProcess
after_both = record after_invite {
  client = record logged_in_turn.client { remote_sdp = heard.client.remote_sdp };
  requests = logged_in_turn.sent;
}

round_after_invite : menu_step logs_in after_invite ≡ ok after_both
unfolding menu_step menu_round select sign_up_login_user exchange pack c_string read_buffer
round_after_invite = refl

-- The message comes first.
both : Mixed lenient (logs_in ∷ []) (some invite_bytes ∷ []) before after_both
both =
    listener_next (pos 5) (some invite_bytes) (logs_in ∷ []) [] before after_invite after_both refl
      message_of_before
      (menu_next logs_in [] [] after_invite after_both after_both refl round_after_invite
        (mixed_none after_both))

Mixed-Serial_example : Serial lenient (logs_in ∷ []) (some invite_bytes ∷ []) before after_both
Mixed-Serial_example =
    Mixed-Serial lenient (logs_in ∷ []) (some invite_bytes ∷ []) before after_both both refl

abbrev interrupted : ClientProcess
interrupted = record before { client = record start { running = false } }

abbrev server_gone : ClientProcess
server_gone = record interrupted { listener = gone }

hears_nothing : listener_step lenient (pos 5) true none interrupted ≡ ok server_gone
unfolding listener_step listen
hears_nothing = refl

stops : Unwinds lenient interrupted 1 server_gone
stops =
    unwinds_more 0 interrupted server_gone unwinds_none
      (listener_moves (pos 5) true none interrupted server_gone (λ e. refl) refl hears_nothing)
      (λ e. ground arith)

Unwinds-ends_example :
    (1 ≤ 3) × MenuEnds logs_in server_gone × ListenerEnds lenient minus_one false none server_gone
Unwinds-ends_example =
    Unwinds-ends lenient interrupted server_gone 1 logs_in minus_one false none refl stops refl

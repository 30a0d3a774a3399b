-- ===== src/Tests/Listening.antt =====
-- The client's listener, requests and menu at concrete inputs.
use client_server_signaling.Base.{
  ◌≡◌, refl, arith, Text, codes, true, false, some, [], ◌∷◌, if◌then◌else◌, length, take, drop, pos,
  int_eq, ltb,
}
use client_server_signaling.Fault.{ok, err, overflow, ◌>>=◌}
use client_server_signaling.User.{user}
use client_server_signaling.UserStore.{add_user, login_user}
use client_server_signaling.Wire.{socket_buffer_size, ip_size, c_string, read_buffer}
use client_server_signaling.Wire.Words.{IsWord, IsWord-check, plain_bytes}
use client_server_signaling.Server.Call.{invite_text, parse_call}
use client_server_signaling.Server.Commands.{replies, signup_reply, login_reply, scan_client}
use client_server_signaling.Server.Commands.Replies.{with_names}
use client_server_signaling.Server.Loop.{dispatch}
use client_server_signaling.Client.State.{Client, start, Reply, Done}
use client_server_signaling.Client.Requests.{
  pack, exchange, register_request, sign_up_login_user, call_peer, client_request,
}
use client_server_signaling.Client.Menu.{Choice, MenuTurn, again}
use client_server_signaling.Client.Listener.{
  Peer, Heard, hear, listen, listens, stops, described, sets_remote, sets_local, answers,
}
use client_server_signaling.Client.Listener.Answers.{hear-invite_accepted}
use client_server_signaling.Client.Listener.Stream.{invite_packet, listen-invite_packet}
use client_server_signaling.Protocol.{
  scan_client-client_request, dispatch-register_request, parse_call-call_peer,
}
use client_server_signaling.Tests.Data.{bob, secret, bob-IsWord, secret-IsWord, store, session, env}

-- A library that gives the text itself for any member.
abbrev pub lenient : Peer
lenient = record {
  Json = Text;
  parse = some;
  string_at = λ key j. some j;
  accepts = λ sdp type. true;
}

described-lenient : described lenient (codes "offer") (codes "v=0") ≡ ok (codes "v=0")
unfolding described
described-lenient = refl

abbrev pub heard : Heard
heard = record {
  client = record start { remote_sdp = codes "v=0" };
  events =
      sets_remote (codes "v=0") (codes "offer")
      ∷ sets_local (codes "answer")
      ∷ answers (codes "ACCEPT ") socket_buffer_size
      ∷ [];
  next = listens;
}

pub hears_invite : hear lenient start (invite_text bob (codes "v=0")) ≡ ok heard
unfolding c_string
hears_invite =
    hear-invite_accepted lenient start bob (codes "v=0") (codes "v=0") bob-IsWord (omega arith)
      (omega arith) described-lenient (omega arith)

listen-invite_packet_example :
    listen lenient
      ((true, some (take socket_buffer_size (invite_packet bob (codes "v=0"))), true)
        ∷ (
          true,
          some
              (take socket_buffer_size (drop socket_buffer_size (invite_packet bob (codes "v=0")))),
          true,
        )
        ∷ [])
      start
    ≡ ok (record heard { next = stops })
listen-invite_packet_example =
    listen-invite_packet lenient start bob (codes "v=0") heard true [] (omega arith) (omega arith)
      hears_invite refl

-- An answer with which the server refuses nothing and grants nothing.
abbrev greeted : Reply
greeted = record { send_ok = true; received = some (codes "no") }

abbrev after_login : Done
after_login = record {
  client = record start { username = bob; password = secret; is_login = true };
  sent = codes "LOGIN bob secret" ∷ [];
}

logged_in : sign_up_login_user (pos 2) bob secret greeted start ≡ ok after_login
unfolding sign_up_login_user exchange pack c_string read_buffer
logged_in = refl

abbrev pub logs_in : Choice
logs_in = record {
  option = pos 2;
  interrupted = false;
  first_word = bob;
  second_word = secret;
  reply = greeted;
  reply2 = greeted;
  kill_ok = true;
}

abbrev pub logged_in_turn : MenuTurn
logged_in_turn = record { client = after_login.client; sent = after_login.sent; flow = again }

abbrev ip : Text
ip = codes "172.20.10.4"

ip-IsWord : IsWord ip
unfolding plain_bytes
ip-IsWord = IsWord-check b'1' (codes "72.20.10.4") refl

scan_client-client_request_example : scan_client session (client_request ip (pos 8080)) ≡ (
    if ltb (length ip) ip_size
    then ok (record session { client_ip_address = ip; client_port_int = pos 8080 })
    else err overflow)
scan_client-client_request_example =
    scan_client-client_request session ip 8080 ip-IsWord (omega arith)

dispatch-register_request_example :
    (pack (register_request (pos 1) bob secret) >>= dispatch env session store)
    ≡ ok (
        let t = with_names session bob secret in
        if int_eq (pos 1) (pos 1)
        then replies t (add_user (user bob secret false (pos 5)) store) signup_reply
        else replies t (login_user bob secret store).0 login_reply)
dispatch-register_request_example =
    dispatch-register_request env session store (pos 1) bob secret bob-IsWord secret-IsWord
      (omega arith) (omega arith)

abbrev caller : Client
caller = record start { local_sdp = codes "offer" }

parse_call-call_peer_example :
    (m : Text) × (call_peer bob true caller ≡ ok (record { client = caller; sent = m ∷ [] }))
    × (parse_call m ≡ ok (bob, codes "offer"))
parse_call-call_peer_example =
    parse_call-call_peer bob caller bob-IsWord (omega arith) (omega arith) (omega arith)

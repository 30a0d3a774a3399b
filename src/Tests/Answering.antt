-- ===== src/Tests/Answering.antt =====
-- A call through the caller, the server and the callee.
use client_server_signaling.Base.{
  ◌*◌, ◌≡◌, refl, arith, Text, codes, true, text_eq, some, [], ◌∷◌, take, drop, pos,
}
use client_server_signaling.Fault.{ok, err, uncaught}
use client_server_signaling.UserStore.{apply_all}
use client_server_signaling.Wire.{socket_buffer_size}
use client_server_signaling.Wire.Words.{plain_bytes}
use client_server_signaling.Wire.Arrays.{padded}
use client_server_signaling.Server.Session.{Env, sends, receives, goes_on}
use client_server_signaling.Server.Call.{invite_text}
use client_server_signaling.Server.Call.Guards.{at_get_user}
use client_server_signaling.Server.Loop.{dispatch}
use client_server_signaling.Server.Loop.Calls.{call_text, accept_text}
use client_server_signaling.Client.State.{Client, start}
use client_server_signaling.Client.Requests.{call_peer}
use client_server_signaling.Client.Listener.{
  described, listen, sets_remote, sets_local, answers, stops,
}
use client_server_signaling.Client.Listener.Stream.{invite_packet}
use client_server_signaling.Gathering.{complete, own_description, client_on_gathering}
use client_server_signaling.Protocol.Calls.{call_answered, call_ends_callee}
use client_server_signaling.Tests.Data.{bob, bob_user, bob-IsWord, store, session, env}
use client_server_signaling.Tests.Calls.{online, found}
use client_server_signaling.Tests.Json.{peer, laws, wide, wide_laws}
use client_server_signaling.Tests.Meeting.{no_nul}

abbrev callee : Client
callee = record start { local_sdp = codes "v=1" }

-- The offer of another client, and what the callee has gathered.
abbrev foreign : Text
foreign = 2 ∷ codes "v=0"

abbrev answer : Text
answer = own_description wide_laws (codes "answer") (codes "v=1")

-- The callee's array arrives whole.
abbrev answering : Env
answering = record env {
  callee_bytes = take socket_buffer_size (padded (accept_text answer) socket_buffer_size);
}

offer_described : described wide (codes "offer") foreign ≡ ok (codes "v=0")
unfolding described text_eq
offer_described = refl

answer_gathered :
    client_on_gathering wide_laws complete (some (codes "answer", codes "v=1")) start
    ≡ ok (record start { local_sdp = answer })
unfolding client_on_gathering
answer_gathered = refl

call_answered_example :
    (dispatch answering session store (call_text bob foreign)
      ≡ ok (record {
        session = session;
        users = apply_all [] (at_get_user env store);
        actions =
            sends (pos 7) (invite_text bob foreign) (socket_buffer_size * 2)
            ∷ receives (pos 7)
            ∷ sends session.client_socket_fd answering.callee_bytes socket_buffer_size
            ∷ [];
        flow = goes_on;
      }))
    × (listen wide
          ((true, some (take socket_buffer_size (invite_packet bob foreign)), true)
            ∷ (
              true,
              some (take socket_buffer_size (drop socket_buffer_size (invite_packet bob foreign))),
              true,
            )
            ∷ [])
          (record start { local_sdp = answer })
        ≡ ok (record {
          client = record start { local_sdp = answer; remote_sdp = foreign };
          events =
              sets_remote (codes "v=0") (codes "offer")
              ∷ sets_local (codes "answer")
              ∷ answers (accept_text answer) socket_buffer_size
              ∷ [];
          next = stops;
        }))
    × (listen wide ((true, some answering.callee_bytes, true) ∷ []) callee ≡ err uncaught)
unfolding plain_bytes
call_answered_example =
    call_answered answering session store bob bob_user (pos 7) bob-IsWord (omega arith) online found
      refl wide wide_laws start (record start { local_sdp = answer }) callee foreign (codes "v=0")
      (codes "answer") (codes "v=1") true true [] [] answer_gathered offer_described
      (no_nul foreign refl) (no_nul answer refl) (omega arith) (omega arith) refl

abbrev own : Text
own = own_description laws (codes "offer") (codes "v=0")

abbrev silent : Env
silent = record env { callee_bytes = [] }

gathered :
    client_on_gathering laws complete (some (codes "offer", codes "v=0")) start
    ≡ ok (record start { local_sdp = own })
unfolding client_on_gathering
gathered = refl

call_ends_callee_example :
    (m : Text) × (call_peer bob true (record start { local_sdp = own })
      ≡ ok (record { client = record start { local_sdp = own }; sent = m ∷ [] }))
    × (dispatch silent session store m
        ≡ ok (record {
          session = session;
          users = apply_all [] (at_get_user env store);
          actions =
              sends (pos 7) (invite_text bob own) (socket_buffer_size * 2) ∷ receives (pos 7) ∷ [];
          flow = goes_on;
        }))
    × (listen peer
          ((true, some (take socket_buffer_size (invite_packet bob own)), true) ∷ [])
          callee
        ≡ err uncaught)
unfolding plain_bytes
call_ends_callee_example =
    call_ends_callee silent session store bob bob_user (pos 7) bob-IsWord (omega arith) online found
      refl peer laws start (record start { local_sdp = own }) callee (codes "offer") (codes "v=0")
      true [] gathered (no_nul own refl) (omega arith) refl

-- ===== src/Protocol/Calls.antt =====
-- A call through all the programs: `call_peer` of the caller, or another client in its place, the
-- CALL branch of the server, and the listeners of the callee and of the caller.
use client_server_signaling.Base.{
  subst, length-append, All-append, ◌+◌, ◌*◌, ◌<◌, ◌≡◌, arith, Text, codes, Bool, true, Option,
  some, List, [], ◌∷◌, length, take, drop, ℤ, refl,
}
use client_server_signaling.Fault.{ok, err, uncaught}
use client_server_signaling.User.{User}
use client_server_signaling.UserStore.{UserStore, is_login, get_user, apply_all}
use client_server_signaling.Wire.{socket_buffer_size, word_size}
use client_server_signaling.Wire.Words.{IsWord, HasNoNul, plain-HasNoNul, c_string-HasNoNul}
use client_server_signaling.Wire.Arrays.{padded, read_buffer_first}
use client_server_signaling.Server.Session.{Session, Env, sends, receives, goes_on}
use client_server_signaling.Server.Call.{invite_text}
use client_server_signaling.Server.Call.Guards.{at_get_user}
use client_server_signaling.Server.Loop.{dispatch}
use client_server_signaling.Server.Loop.Calls.{
  call_text, accept_text, dispatch-call_answered, dispatch-call_unanswered,
}
use client_server_signaling.Client.State.{Client}
use client_server_signaling.Client.Requests.{call_request, call_peer}
use client_server_signaling.Client.Requests.Packing.{call_peer-sends}
use client_server_signaling.Client.Listener.{
  Peer, described, listen, sets_remote, sets_local, answers, listens, stops,
}
use client_server_signaling.Client.Listener.Answers.{
  hear-invite_accepted, hear-invite_throws, hear-accept_throws,
}
use client_server_signaling.Client.Listener.Stream.{
  invite_packet, listen-invite_packet, listen-invite_packet_err, listen-array_err,
}
use client_server_signaling.Gathering.{JsonLaws, complete, own_description, client_on_gathering}

invite_text-HasNoNul :
    (name sdp : Text) → IsWord name → HasNoNul sdp → HasNoNul (invite_text name sdp)
invite_text-HasNoNul name sdp hn hs =
    All-append _ (codes "INVITE ") _ (omega arith)
      (All-append _ name _ (plain-HasNoNul name hn.plain) (omega arith, hs))

module _ (env : Env) (s : Session) (users : UserStore) (name : Text) (u : User) (fd : ℤ)
    (hn : IsWord name) (ln : length name < word_size) (online : is_login name users ≡ ok true)
    (found : get_user name (at_get_user env users) ≡ some u) (bound : u.socket_fd ≡ some fd) where
  -- A client of another make calls a user who is logged in, has a socket and runs this client; its
  -- offer has the member "description" and a text that the callee's connection takes, both
  -- descriptions fit the messages, and the answer arrives as the callee's array. Then the server
  -- hands the offer over, and the callee's listener keeps it, answers with the description that its
  -- own callback has made, and stops, whatever comes later. The server sends the bytes of that
  -- answer to the caller: a listener of this client would end there by an exception, since the
  -- answer has no member "description".
  pub call_answered :
      (p : Peer) (laws : JsonLaws p) (before callee other : Client) (offer d type sdp : Text)
      (still still' : Bool) (later later' : List (Bool × Option Text × Bool))
      → client_on_gathering laws complete (some (type, sdp)) before ≡ ok callee
      → described p (codes "offer") offer ≡ ok d
      → HasNoNul offer
      → HasNoNul (own_description laws type sdp)
      → 8 + length name + length offer < socket_buffer_size
      → 7 + length (own_description laws type sdp) < socket_buffer_size
      → env.callee_bytes
        ≡ take socket_buffer_size
            (padded (accept_text (own_description laws type sdp)) socket_buffer_size)
      → (dispatch env s users (call_text name offer)
          ≡ ok (record {
            session = s;
            users = apply_all env.while_waiting (at_get_user env users);
            actions =
                sends fd (invite_text name offer) (socket_buffer_size * 2)
                ∷ receives fd
                ∷ sends s.client_socket_fd env.callee_bytes socket_buffer_size
                ∷ [];
            flow = goes_on;
          }))
        × (listen p
              ((true, some (take socket_buffer_size (invite_packet name offer)), true)
                ∷ (
                  true,
                  some (
                      take socket_buffer_size (drop socket_buffer_size (invite_packet name offer))),
                  still,
                )
                ∷ later)
              callee
            ≡ ok (record {
              client = record before {
                local_sdp = own_description laws type sdp;
                remote_sdp = offer;
              };
              events =
                  sets_remote d (codes "offer")
                  ∷ sets_local (codes "answer")
                  ∷ answers (accept_text (own_description laws type sdp)) socket_buffer_size
                  ∷ [];
              next = stops;
            }))
        × (listen p ((true, some env.callee_bytes, still') ∷ later') other ≡ err uncaught)
  unfolding client_on_gathering
  call_answered p laws before callee other offer d type sdp still still' later later' gathered hd nf
        na lo la bytes =
      let text = own_description laws type sdp in
      let fits : length (invite_text name offer) < socket_buffer_size =
        omega (arith, length-append name (32 ∷ offer)) in
      let e : record before { local_sdp = text } ≡ callee = cc in
      let nn : HasNoNul (accept_text text) = ground (arith, na) in
      let arrived =
        read_buffer_first (accept_text text) socket_buffer_size socket_buffer_size nn
          (omega arith) in
      let whole = c_string-HasNoNul text na in
      (
        dispatch-call_answered env s users name offer u fd hn ln (omega arith) online found bound
            text (rw bytes arrived),
        rw (← e) (
            listen-invite_packet p (record before { local_sdp = text }) name offer
              (record {
                client = record before { local_sdp = text; remote_sdp = offer };
                events =
                    sets_remote d (codes "offer")
                    ∷ sets_local (codes "answer")
                    ∷ answers (accept_text text) socket_buffer_size
                    ∷ [];
                next = listens;
              })
              still later (invite_text-HasNoNul name offer hn nf) fits
              (rw whole at (
                hear-invite_accepted p (record before { local_sdp = text }) name offer d hn ln fits
                  hd (rw whole (omega arith))))
              refl),
        rw bytes (
            listen-array_err p other (accept_text text) uncaught still' later' nn (omega arith)
              (hear-accept_throws p laws other type sdp la)),
      )

  -- A caller calls a client that is logged in, with the description that its own callback has made
  -- of what its library has gathered: the server hands it over whole, and the callee's process ends
  -- there by an exception that nothing catches, whatever would come later. The server, whose `recv`
  -- then gives nothing, sends the caller nothing.
  pub call_ends_callee :
      (p : Peer) (laws : JsonLaws p) (before caller callee : Client) (type sdp : Text)
      (still : Bool) (later : List (Bool × Option Text × Bool))
      → client_on_gathering laws complete (some (type, sdp)) before ≡ ok caller
      → HasNoNul (own_description laws type sdp)
      → 8 + length name + length (own_description laws type sdp) < socket_buffer_size
      → env.callee_bytes ≡ []
      → (m : Text) × (call_peer name true caller ≡ ok (record { client = caller; sent = m ∷ [] }))
        × (dispatch env s users m
            ≡ ok (record {
              session = s;
              users = apply_all env.while_waiting (at_get_user env users);
              actions =
                  sends fd
                    (invite_text name (own_description laws type sdp))
                    (socket_buffer_size * 2)
                  ∷ receives fd
                  ∷ [];
              flow = goes_on;
            }))
        × (listen p
              ((
                true,
                some (take socket_buffer_size (invite_packet name (own_description laws type sdp))),
                still,
              )
                ∷ later)
              callee
            ≡ err uncaught)
  unfolding client_on_gathering
  call_ends_callee p laws before caller callee type sdp still later gathered nn l silent =
      let text = own_description laws type sdp in
      let e : record before { local_sdp = text } ≡ caller = cc in
      let fits : length (invite_text name text) < socket_buffer_size =
        omega (arith, length-append name (32 ∷ text)) in
      (
        call_request name text,
        subst
            (λ c.
              call_peer name true c
              ≡ ok (record { client = c; sent = call_request name text ∷ [] }))
            e (call_peer-sends name (record before { local_sdp = text }) nn ln (omega arith)),
        dispatch-call_unanswered env s users name text u fd hn ln (omega arith) online found bound
            silent,
        listen-invite_packet_err p callee name text uncaught still later
            (invite_text-HasNoNul name text hn nn) fits
            (hear-invite_throws p laws callee name type sdp hn ln fits),
      )

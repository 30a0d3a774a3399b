-- ===== src/Client/Listener.antt =====
-- `server_handler`: the thread that takes the server's connection and serves its messages. The JSON
-- library and libdatachannel are not part of the program: `Peer` is what this file uses of them.
pub mod Stream
pub mod Answers
use client_server_signaling.Base.{
  ℕ, ◌+◌, ◌*◌, ◌≡◌, ◌≢◌, Text, codes, Bool, true, false, not, Option, none, some, List, [], ◌∷◌,
  ◌++◌, if◌then◌else◌, length, drop, ℤ, negsuc, minus_one, int_eq,
}
use client_server_signaling.Fault.{Result, ok, err, uncaught, ◌>>=◌}
use client_server_signaling.Wire.{
  socket_buffer_size, word_size, c_string, read_buffer, begins, scan_named, size_sub, strncpy,
  sprintf,
}
use client_server_signaling.Client.State.{Client}
use client_server_signaling.Client.Requests.{is_empty}

-- `parse` and `string_at` are `json::parse` and `j[key].get<std::string>()`, `none` where they
-- throw. `accepts sdp type` tells whether the calls that make a description of these and hand it to
-- the peer connection return.
pub record Peer : Type 1 where
  pub Json : Type 0
  pub parse : Text → Option Json
  pub string_at : Text → Json → Option Text
  pub accepts : Text → Text → Bool

-- In the order of the calls: what the peer connection is told, and what is sent, with its size.
pub data Event : Type 0 where
  sets_remote : Text → Text → Event
  sets_local : Text → Event
  answers : Text → ℕ → Event

pub data Listening : Type 0 where
  listens stops : Listening

pub record Heard : Type 0 where
  pub client : Client
  pub events : List Event
  pub next : Listening

or_throws {ℓ} : {A : Type ℓ} → Option A → Result A
or_throws none = err uncaught
or_throws (some a) = ok a

module _ (p : Peer) where
  open p use {Json, parse, string_at, accepts}

  -- `rtc::Description(j["description"].get<std::string>(), type)`, given to the connection.
  unfoldable pub described : Text → Text → Result Text
  unfolding or_throws
  described type sdp = do
    j ← or_throws (parse sdp)
    d ← or_throws (string_at (codes "description") j)
    (if accepts d type then ok d else err uncaught)

  unfoldable pub handle_invite : Client → Text → Result Heard
  handle_invite c text = do
    (user, sdp) ← scan_named (codes "INVITE") text
    d ← described (codes "offer") sdp
    answer ← sprintf socket_buffer_size (codes "ACCEPT " ++ c_string c.local_sdp)
    ok (record {
      client = record c { remote_sdp = sdp };
      events =
          sets_remote d (codes "offer")
          ∷ sets_local (codes "answer")
          ∷ answers answer socket_buffer_size
          ∷ [];
      next = listens;
    })

  unfoldable pub handle_accept : Client → Text → Result Heard
  handle_accept c text = do
    let len : ℕ = 6 + 1
    sdp ← strncpy socket_buffer_size (drop len text) (size_sub (length text) len)
    d ← described (codes "answer") sdp
    ok (record {
      client = record c { remote_sdp = sdp };
      events = sets_local (codes "offer") ∷ sets_remote d (codes "answer") ∷ [];
      next = listens;
    })

  -- The body of the loop, after `recv`.
  unfoldable pub hear : Client → Text → Result Heard
  hear c text =
      if is_empty text
      then ok (record { client = c; events = []; next = stops })
      else if begins (codes "EXIT") text
      then ok (record { client = c; events = []; next = stops })
      else if begins (codes "INVITE") text
      then handle_invite c text
      else if begins (codes "ACCEPT") text
      then handle_accept c text
      else ok (record { client = c; events = []; next = listens })

  -- The loop: for each `recv` the value of `running` before it, its bytes (`none` for -1), and the
  -- value of `running` at the end of the round. At the end of the list it waits.
  unfoldable pub listen : List (Bool × Option Text × Bool) → Client → Result Heard
  listen [] c = ok (record { client = c; events = []; next = listens })
  listen ((false, received, still) ∷ rs) c = ok (record { client = c; events = []; next = stops })
  listen ((true, none, still) ∷ rs) c = ok (record { client = c; events = []; next = stops })
  listen ((true, some bytes, still) ∷ rs) c = do
    text ← read_buffer socket_buffer_size bytes
    h ← hear c text
    elim h.next [
      | stops ↦ ok h
      | listens ↦
          if still
          then (do u ← listen rs h.client; ok (record u { events = h.events ++ u.events }))
          else ok (record h { next = stops })
    ]

-- What the calls before the loop return.
pub record Accepting : Type 0 where
  pub socket_result : ℤ
  pub setsockopt_result : ℤ
  pub bind_result : ℤ
  pub listen_result : ℤ
  pub running : Bool
  pub accept_result : ℤ

-- The early returns of `server_handler`, and whether the connection is closed at the end.
pub data Served : Type 0 where
  returned : Served
  serving : Client → List Event → Served
  closed : Client → List Event → Served

end_of_thread : Heard → Served
end_of_thread h = elim h.next [
  | listens ↦ serving h.client h.events
  | stops ↦ closed h.client h.events
]

pub server_handler : Peer → Accepting → List (Bool × Option Text × Bool) → Client → Result Served
unfolding end_of_thread
server_handler p a rs c =
    if int_eq a.socket_result minus_one
    then ok returned
    else if int_eq a.setsockopt_result minus_one
    then ok returned
    else if int_eq a.bind_result minus_one
    then ok returned
    else if int_eq a.listen_result minus_one
    then ok returned
    else if not a.running
    then ok returned
    else if int_eq a.accept_result minus_one
    then ok returned
    else (do h ← listen p rs c; ok (end_of_thread h))

-- ===== src/Gathering.antt =====
-- The callbacks that all programs give to libdatachannel: it tells them their local candidates and
-- that gathering is complete, and they make the text of their description.
pub mod Described
pub mod Meeting
use client_server_signaling.Base.{
  ◌≡◌, ◌≢◌, Text, codes, Bool, true, false, Option, none, some, List, [], ◌∷◌, ◌++◌,
}
use client_server_signaling.Fault.{Result, ok, err, uninitialised, ◌>>=◌}
use client_server_signaling.Client.State.{Client}
use client_server_signaling.Client.Listener.{Peer}

-- What is documented of the JSON library for the object that `main` makes of a description, with
-- the members "type" and "sdp": `parse` undoes `dump`, each member is read back, and a member that
-- is missing reads as null, of which `get<std::string>` throws.
pub record JsonLaws (p : Peer) : Type 0 where
  pub object : Text → Text → p.Json
  pub dump : p.Json → Text
  pub parse-dump : (j : p.Json) → p.parse (dump j) ≡ some j
  pub type_member : (type sdp : Text) → p.string_at (codes "type") (object type sdp) ≡ some type
  pub sdp_member : (type sdp : Text) → p.string_at (codes "sdp") (object type sdp) ≡ some sdp
  pub missing :
      (key type sdp : Text)
      → key ≢ codes "type"
      → key ≢ codes "sdp"
      → p.string_at key (object type sdp) ≡ none

-- `rtc::PeerConnection::GatheringState`
pub data GatheringState : Type 0 where
  new in_progress complete : GatheringState

-- A call of a callback: with a candidate, or with a state, while `localDescription()` is the type
-- and the text of a description, or empty.
pub data Notice : Type 0 where
  candidate : Text → Notice
  gathering : GatheringState → Option (Text × Text) → Notice

-- What the callbacks of offerer.cpp and answerer.cpp write; only the latter has `generated`.
pub record Local : Type 0 where
  pub sdp : Text
  pub candidates : List Text
  pub generated : Bool

abbrev pub no_notice : Local
no_notice = record { sdp = []; candidates = []; generated = false }

module _ {p : Peer} (laws : JsonLaws p) where
  -- `dump` of `{{"type", ...}, {"sdp", ...}}`
  abbrev pub own_description : Text → Text → Text
  own_description type sdp = laws.dump (laws.object type sdp)

  -- `description->` is undefined where there is no description.
  unfoldable pub on_gathering : GatheringState → Option (Text × Text) → Local → Result Local
  on_gathering complete none l = err uninitialised
  on_gathering complete (some (type, sdp)) l =
      ok (record l { sdp = own_description type sdp; generated = true })
  on_gathering new d l = ok l
  on_gathering in_progress d l = ok l

  unfoldable pub on_notice : Notice → Local → Result Local
  on_notice (candidate c) l = ok (record l { candidates = l.candidates ++ c ∷ [] })
  on_notice (gathering state d) l = on_gathering state d l

  unfoldable pub gather : List Notice → Local → Result Local
  gather [] l = ok l
  gather (n ∷ notices) l = on_notice n l >>= gather notices

  -- src/client.cpp has one of the callbacks.
  unfoldable pub client_on_gathering :
      GatheringState → Option (Text × Text) → Client → Result Client
  client_on_gathering complete none c = err uninitialised
  client_on_gathering complete (some (type, sdp)) c =
      ok (record c { local_sdp = own_description type sdp })
  client_on_gathering new d c = ok c
  client_on_gathering in_progress d c = ok c

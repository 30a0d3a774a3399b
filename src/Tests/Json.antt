-- ===== src/Tests/Json.antt =====
-- A stand-in for the JSON library that meets what is documented of it.
use client_server_signaling.Base.{
  ◌≡◌, ◌≢◌, refl, ap, arith, Text, codes, text_eq, text_eq_iff, ◌==◌, Bool, true, false, Option,
  none, some, [], ◌∷◌, ◌++◌, if◌then◌else◌, length, take, drop, take-append, drop-append,
}
use client_server_signaling.Client.Listener.{Peer}
use client_server_signaling.Gathering.{JsonLaws}

-- A text is the length of the first member, and both members.
abbrev member : Text → Text → Option Text
member key [] = none
member key (n ∷ s) =
    if text_eq key (codes "type")
    then some (take n s)
    else if text_eq key (codes "sdp")
    then some (drop n s)
    else none

abbrev pub peer : Peer
peer = record { Json = Text; parse = some; string_at = member; accepts = λ sdp type. true }

pub member_missing :
    (key type sdp : Text)
    → key ≢ codes "type"
    → key ≢ codes "sdp"
    → member key (length type ∷ (type ++ sdp)) ≡ none
member_missing key type sdp h k =
    ground (arith, text_eq_iff key (codes "type"), text_eq_iff key (codes "sdp"))

pub type_member_lem :
    (type sdp : Text) → member (codes "type") (length type ∷ (type ++ sdp)) ≡ some type
unfolding text_eq
type_member_lem type sdp = ap some (take-append type sdp)

pub sdp_member_lem :
    (type sdp : Text) → member (codes "sdp") (length type ∷ (type ++ sdp)) ≡ some sdp
unfolding text_eq
sdp_member_lem type sdp = ap some (drop-append type sdp)

abbrev pub laws : JsonLaws peer
laws = record {
  object = λ type sdp. length type ∷ (type ++ sdp);
  dump = λ j. j;
  parse-dump = λ j. refl;
  type_member = type_member_lem;
  sdp_member = sdp_member_lem;
  missing = member_missing;
}

-- Another, which also reads texts of other clients: they begin with a 2 and have the one member
-- "description".
abbrev wide_member : Text → Bool × Text → Option Text
wide_member key (true, s) = member key s
wide_member key (false, s) = if text_eq key (codes "description") then some s else none

abbrev wide_parse : Text → Option (Bool × Text)
wide_parse [] = none
wide_parse (c ∷ s) = some (c == 1, s)

abbrev wide_dump : Bool × Text → Text
wide_dump (true, s) = 1 ∷ s
wide_dump (false, s) = 2 ∷ s

abbrev pub wide : Peer
wide = record {
  Json = Bool × Text;
  parse = wide_parse;
  string_at = wide_member;
  accepts = λ sdp type. true;
}

pub wide_parse-wide_dump : (j : Bool × Text) → wide_parse (wide_dump j) ≡ some j
wide_parse-wide_dump (true, s) = refl
wide_parse-wide_dump (false, s) = refl

abbrev pub wide_laws : JsonLaws wide
wide_laws = record {
  object = λ type sdp. (true, length type ∷ (type ++ sdp));
  dump = wide_dump;
  parse-dump = wide_parse-wide_dump;
  type_member = type_member_lem;
  sdp_member = sdp_member_lem;
  missing = member_missing;
}

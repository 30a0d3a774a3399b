-- ===== src/Tests/Gathering.antt =====
-- Two programs gather their candidates and meet.
use client_server_signaling.Base.{
  ◌≡◌, refl, arith, Text, codes, true, none, some, List, [], ◌∷◌, ◌++◌, pos,
}
use client_server_signaling.Fault.{ok}
use client_server_signaling.Wire.Words.{plain_bytes}
use client_server_signaling.Client.Requests.{decimal}
use client_server_signaling.Handshake.{sends, sets_remote, adds, says}
use client_server_signaling.Handshake.Int32.{int_bytes}
use client_server_signaling.Handshake.Offerer
use client_server_signaling.Handshake.Answerer
use client_server_signaling.Handshake.Exchange.{Meet}
use client_server_signaling.Gathering.{
  in_progress, complete, Notice, candidate, gathering, no_notice, own_description, gather,
  on_notice, on_gathering,
}
use client_server_signaling.Gathering.Described.{local_of, gather_lem}
use client_server_signaling.Gathering.Meeting.{IsOwn, Offers, Replies, offerer-answerer-gathered}
use client_server_signaling.Tests.Json.{peer, laws}
use client_server_signaling.Tests.Meeting.{
  takes_all, no_nul, one, two, three, ip, offerer_env, answerer_env,
}

abbrev sdp : Text
sdp = codes "v=0"

abbrev offer : Text
offer = own_description laws (codes "offer") sdp

abbrev reply : Text
reply = own_description laws (codes "answer") sdp

-- The first candidate comes before gathering is complete, the second after the first `send`.
abbrev early : List Notice
early =
    gathering in_progress none ∷ candidate one ∷ gathering complete (some (codes "offer", sdp)) ∷ []

abbrev late : List Notice
late = candidate two ∷ []

abbrev replied : List Notice
replied = candidate three ∷ gathering complete (some (codes "answer", sdp)) ∷ []

gather_lem_example :
    gather laws early no_notice
    ≡ ok (record { sdp = offer; candidates = one ∷ []; generated = true })
gather_lem_example = gather_lem laws early (tt, (tt, (tt, tt)))

abbrev offering : Offerer.Env
offering = record offerer_env { local_sdp = offer; answer = some reply }

abbrev replying : Answerer.Env
replying = record answerer_env { offer_bytes = offer; generated = some reply }

offers : Offers laws offering early late (codes "offer") sdp
unfolding gather on_notice on_gathering
offers = record {
  documented = (tt, (tt, (tt, tt)));
  documented' = (tt, tt);
  complete = refl;
  before = local_of laws (some (codes "offer", sdp)) (one ∷ []);
  after = local_of laws (some (codes "offer", sdp)) (one ∷ two ∷ []);
  at_send = refl;
  at_count = refl;
  text = refl;
  candidates = refl;
}

replies : Replies laws replying replied [] (codes "answer") sdp
unfolding gather on_notice on_gathering
replies = record {
  documented = (tt, (tt, tt));
  documented' = tt;
  complete = refl;
  before = local_of laws (some (codes "answer", sdp)) (three ∷ []);
  after = local_of laws (some (codes "answer", sdp)) (three ∷ []);
  at_send = refl;
  at_count = refl;
  text = refl;
  candidates = refl;
}

IsOwn-offer : IsOwn laws Answerer.buffer_size (codes "offer") sdp
unfolding plain_bytes
IsOwn-offer = record { no_nul = no_nul offer refl; fits = omega arith; accepted = refl }

IsOwn-reply : IsOwn laws Offerer.buffer_size (codes "answer") sdp
unfolding plain_bytes
IsOwn-reply = record { no_nul = no_nul reply refl; fits = omega arith; accepted = refl }

meet : Meet takes_all offering replying ip 8080 reply three []
unfolding plain_bytes
meet = record {
  socket = refl;
  bind = refl;
  listen = refl;
  accept = refl;
  peer_socket = refl;
  inet_pton = refl;
  connect = refl;
  ip_fits = omega arith;
  is_port = omega arith;
  says_ok = refl;
  answer_sent = refl;
  answer_generated = refl;
  offer_sent = refl;
  own = refl;
  counts = refl;
  counts' = refl;
  candidate_sent = refl;
  candidates_sent = refl;
  is_first = record { no_nul = no_nul three refl; fits = omega arith; accepted = refl };
  no_nuls = (no_nul one refl, (no_nul two refl, tt));
  is_merged = record { no_nul = no_nul (one ++ two) refl; fits = omega arith; accepted = refl };
  countable = omega arith;
  countable' = omega arith;
}

offerer-answerer-gathered_example :
    (Offerer.offerer peer takes_all offering
      ≡ ok (record {
        events =
            sends offer
            ∷ sets_remote sdp (codes "answer")
            ∷ sends (int_bytes 2)
            ∷ sends one
            ∷ sends two
            ∷ adds three
            ∷ says (codes "hello")
            ∷ [];
        remote_cand_count = 1;
        end = Offerer.finished;
      }))
    × (Answerer.answerer peer takes_all (ip ∷ decimal (pos 8080) ∷ []) replying
        ≡ ok (record {
          events =
              sets_remote sdp (codes "offer")
              ∷ sends reply
              ∷ adds (one ++ two)
              ∷ sends (int_bytes 1)
              ∷ sends three
              ∷ [];
          remote_cand_count = 2;
          end = Answerer.finished;
        }))
offerer-answerer-gathered_example =
    offerer-answerer-gathered laws takes_all offering replying ip 8080 reply three [] early late
      replied [] (codes "offer") sdp (codes "answer") sdp offers replies IsOwn-offer IsOwn-reply
      meet

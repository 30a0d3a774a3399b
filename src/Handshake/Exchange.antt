-- ===== src/Handshake/Exchange.antt =====
-- The two programs against each other: what one sends is what the other receives.
use client_server_signaling.Base.{
  ℕ, ◌<◌, ◌^◌, ◌%◌, ◌≡◌, ◌≢◌, refl, Text, Bool, true, false, some, List, [], ◌∷◌, ◌++◌, map,
  minus_one, int_eq, lt→ltb, length, All, All-append, pos,
}
use client_server_signaling.Fault.{ok}
use client_server_signaling.Wire.{c_string}
use client_server_signaling.Wire.Words.{HasNoNul, c_string-HasNoNul, read_buffer_fits}
use client_server_signaling.Client.Listener.{Peer}
use client_server_signaling.Client.Requests.{decimal}
use client_server_signaling.Handshake.{Event, sends, adds, says, remote_description}
use client_server_signaling.Handshake.Int32.{int_bytes, of_bytes-int_bytes}
use client_server_signaling.Handshake.Offerer
use client_server_signaling.Handshake.Answerer

-- All candidates in one piece, as TCP may deliver them.
abbrev pub merged : List Text → Text
merged [] = []
merged (c ∷ cs) = c ++ merged cs

merged-HasNoNul : (cs : List Text) → All HasNoNul cs → HasNoNul (merged cs)
merged-HasNoNul [] h = tt
merged-HasNoNul (c ∷ cs) h = All-append (λ b. b ≢ 0) c (merged cs) h.0 (merged-HasNoNul cs h.1)

sends_whole : (cs : List Text) → All HasNoNul cs → map (λ c. sends (c_string c)) cs ≡ map sends cs
sends_whole [] h = refl
sends_whole (c ∷ cs) h = rw (c_string-HasNoNul c h.0, sends_whole cs h.1)

-- A description text that the JSON library and the peer connection of the other side take.
pub record IsDescription (p : Peer) (size : ℕ) (text : Text) (e : Event) : Type 0 where
  pub no_nul : HasNoNul text
  pub fits : length text < size
  pub json : p.Json
  pub parses : p.parse text ≡ some json
  pub describes : remote_description p json ≡ some e

-- A candidate text that the other side's buffer holds and its library takes.
pub record IsCandidate (accepts : Text → Bool) (size : ℕ) (text : Text) : Type 0 where
  pub no_nul : HasNoNul text
  pub fits : length text < size
  pub accepted : accepts text ≡ true

-- The calls of both programs succeed, and each `recv` gives what the other program has sent: the
-- descriptions and the counts whole, the answerer's candidate, and all of the offerer's in one piece.
pub record Meet (accepts : Text → Bool) (o : Offerer.Env) (a : Answerer.Env) (ip : Text) (port : ℕ)
    (answer first : Text) (rest : List Text) : Type 0 where
  pub socket : Offerer.negative o.socket_result ≡ false
  pub bind : Offerer.negative o.bind_result ≡ false
  pub listen : Offerer.negative o.listen_result ≡ false
  pub accept : Offerer.negative o.accept_result ≡ false
  pub peer_socket : int_eq a.socket_result minus_one ≡ false
  pub inet_pton : a.inet_pton_ok ip ≡ true
  pub connect : a.connect_ok ip (port % 2 ^ 16) ≡ true
  pub ip_fits : length ip < Answerer.ip_size
  pub is_port : port < 2 ^ 31
  pub says_ok : o.says_ok ≡ true
  pub answer_sent : o.answer ≡ some answer
  pub answer_generated : a.generated ≡ some answer
  pub offer_sent : a.offer_bytes ≡ o.local_sdp
  pub own : a.candidates ≡ first ∷ rest
  pub counts : o.count_bytes ≡ int_bytes (length a.candidates)
  pub counts' : a.count_bytes ≡ int_bytes (length o.candidates)
  pub candidate_sent : o.candidate_bytes ≡ first
  pub candidates_sent : a.candidate_bytes ≡ merged o.candidates
  pub is_first : IsCandidate accepts Offerer.buffer_size first
  pub no_nuls : All HasNoNul o.candidates
  pub is_merged : IsCandidate accepts Answerer.buffer_size (merged o.candidates)
  pub countable : length o.candidates < 2 ^ 32
  pub countable' : length a.candidates < 2 ^ 32

module _ (p : Peer) (accepts : Text → Bool) (o : Offerer.Env) (a : Answerer.Env) (ip : Text)
    (port : ℕ) (answer first : Text) (rest : List Text) (offered answered : Event)
    (m : Meet accepts o a ip port answer first rest)
    (is_offer : IsDescription p Answerer.buffer_size o.local_sdp offered)
    (is_answer : IsDescription p Offerer.buffer_size answer answered) where
  take_answer_lem : Offerer.take_answer p accepts answer ≡ some (answered ∷ [])
  unfolding Offerer.take_answer
  take_answer_lem = rw (is_answer.parses, Offerer.take_answer, is_answer.describes)

  abbrev pub offerer_run : Offerer.Run
  offerer_run = record {
    events =
        sends o.local_sdp
        ∷ answered
        ∷ sends (int_bytes (length o.candidates))
        ∷ (map sends o.candidates ++ adds first ∷ says o.message ∷ []);
    remote_cand_count = length a.candidates;
    end = Offerer.finished;
  }

  from_count :
      Offerer.exchange_candidates p accepts o (sends o.local_sdp ∷ answered ∷ []) ≡ ok offerer_run
  unfolding Offerer.exchange_candidates
  from_count =
      rw
        (
          m.candidate_sent,
          Offerer.exchange_candidates,
          read_buffer_fits Offerer.buffer_size first m.is_first.no_nul m.is_first.fits,
          m.is_first.accepted,
          m.says_ok,
          sends_whole o.candidates m.no_nuls,
          m.counts,
          of_bytes-int_bytes (length a.candidates) m.countable',
        )
        refl

  from_answer_lem : Offerer.from_answer p accepts o answer ≡ ok offerer_run
  unfolding Offerer.from_answer
  from_answer_lem =
      rw (take_answer_lem, Offerer.from_answer, c_string-HasNoNul o.local_sdp is_offer.no_nul)
        from_count

  offerer-meets : Offerer.offerer p accepts o ≡ ok offerer_run
  unfolding Offerer.offerer Offerer.from_answer Offerer.exchange_candidates
  offerer-meets =
      rw
        (
          m.socket,
          Offerer.offerer,
          m.bind,
          m.listen,
          m.accept,
          m.answer_sent,
          read_buffer_fits Offerer.buffer_size answer is_answer.no_nul is_answer.fits,
        )
        from_answer_lem

  abbrev pub answerer_run : Answerer.Run
  answerer_run = record {
    events =
        offered
        ∷ sends answer
        ∷ adds (merged o.candidates)
        ∷ sends (int_bytes (length a.candidates))
        ∷ sends first
        ∷ [];
    remote_cand_count = length o.candidates;
    end = Answerer.finished;
  }

  answer_lem : Answerer.answer p accepts a offered answer ≡ ok answerer_run
  unfolding Answerer.answer
  answer_lem =
      rw
        (
          m.candidates_sent,
          Answerer.answer,
          read_buffer_fits Answerer.buffer_size (merged o.candidates) m.is_merged.no_nul
              m.is_merged.fits,
          m.is_merged.accepted,
          m.own,
          c_string-HasNoNul answer is_answer.no_nul,
          m.counts',
          of_bytes-int_bytes (length o.candidates) m.countable,
        )
        refl

  take_offer_lem : Answerer.take_offer p accepts a ≡ ok answerer_run
  unfolding Answerer.take_offer
  take_offer_lem =
      rw
        (
          m.offer_sent,
          Answerer.take_offer,
          read_buffer_fits Answerer.buffer_size o.local_sdp is_offer.no_nul is_offer.fits,
          is_offer.parses,
          is_offer.describes,
          m.answer_generated,
        )
        answer_lem

  answerer-meets : Answerer.answerer p accepts (ip ∷ decimal (pos port) ∷ []) a ≡ ok answerer_run
  unfolding Answerer.answerer
  answerer-meets =
      rw
        (
          Answerer.atoi-decimal port m.is_port,
          Answerer.answerer,
          lt→ltb _ _ m.ip_fits,
          m.peer_socket,
          m.inet_pton,
          m.connect,
        )
        take_offer_lem

  -- Where all calls succeed, the texts hold no NUL, fit the buffers and are taken by the
  -- libraries, each program receives what the other has sent, and the offerer's candidates arrive
  -- in one piece, both programs come to their end: each gives its peer connection the other's
  -- description and reads the other's number of candidates. The offerer adds the answerer's first
  -- candidate; the answerer adds all of the offerer's, run together, as one candidate.
  pub offerer-answerer :
      (Offerer.offerer p accepts o ≡ ok offerer_run)
      × (Answerer.answerer p accepts (ip ∷ decimal (pos port) ∷ []) a ≡ ok answerer_run)
  offerer-answerer = (offerer-meets, answerer-meets)

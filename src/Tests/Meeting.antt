-- ===== src/Tests/Meeting.antt =====
-- An offerer with two candidates meets an answerer with one.
use client_server_signaling.Base.{
  ◌≡◌, ◌≢◌, refl, arith, Text, codes, text_eq, Bool, true, none, some, [], ◌∷◌, ◌++◌, if◌then◌else◌,
  pos,
}
use client_server_signaling.Fault.{ok}
use client_server_signaling.Wire.{c_string, read_buffer}
use client_server_signaling.Client.Listener.{Peer}
use client_server_signaling.Client.Requests.{decimal}
use client_server_signaling.Handshake.{sets_remote, remote_description}
use client_server_signaling.Handshake.Int32.{int_bytes}
use client_server_signaling.Handshake.Offerer
use client_server_signaling.Handshake.Answerer
use client_server_signaling.Rtp.{offerer_loop}
use client_server_signaling.SimpleOfferer
use client_server_signaling.SimpleOfferer.Candidates.{simple_offerer-adds_none}
use client_server_signaling.Handshake.Candidates.{answerer-no_candidate}
use client_server_signaling.Wire.Words.{plain_bytes, plain_bytes_sound, plain-HasNoNul, HasNoNul}

-- A peer whose descriptions are all of the type "offer", and whose JSON text is the description.
abbrev peer : Peer
peer = record {
  Json = Text;
  parse = λ text. some text;
  string_at = λ key j. some (if text_eq key (codes "type") then codes "offer" else j);
  accepts = λ sdp type. true;
}

abbrev pub takes_all : Text → Bool
takes_all candidate = true

abbrev offer : Text
offer = codes "offer"

abbrev reply : Text
reply = codes "reply"

abbrev pub one : Text
one = codes "one"

abbrev pub two : Text
two = codes "two"

abbrev pub three : Text
three = codes "three"

abbrev pub ip : Text
ip = codes "10.0.0.1"

abbrev pub offerer_env : Offerer.Env
offerer_env = record {
  socket_result = pos 3;
  bind_result = pos 0;
  listen_result = pos 0;
  accept_result = pos 4;
  local_sdp = offer;
  answer = some reply;
  candidates = one ∷ two ∷ [];
  count_bytes = int_bytes 1;
  candidate_bytes = three;
  message = codes "hello";
  says_ok = true;
}

abbrev pub answerer_env : Answerer.Env
answerer_env = record {
  socket_result = pos 3;
  inet_pton_ok = λ address. true;
  connect_ok = λ address port. true;
  offer_bytes = offer;
  generated = some reply;
  count_bytes = int_bytes 2;
  candidate_bytes = one ++ two;
  candidates = three ∷ [];
}

pub no_nul : (text : Text) → plain_bytes text ≡ true → HasNoNul text
no_nul text h = plain-HasNoNul text (plain_bytes_sound text h)

-- An answerer whose gathering never completes.
abbrev alone : Answerer.Env
alone = record answerer_env { generated = none; candidates = [] }

abbrev spinning : Answerer.Run
spinning = record {
  events = sets_remote offer offer ∷ [];
  remote_cand_count = 0;
  end = Answerer.spins;
}

spins : Answerer.answerer peer takes_all (ip ∷ decimal (pos 8080) ∷ []) alone ≡ ok spinning
unfolding Answerer.answerer Answerer.take_offer remote_description read_buffer c_string text_eq
spins = rw (Answerer.atoi-decimal 8080 (omega arith))

answerer-no_candidate_example : spinning.end ≢ Answerer.finished
answerer-no_candidate_example =
    answerer-no_candidate peer takes_all (ip ∷ decimal (pos 8080) ∷ []) alone spinning refl spins

-- A run of src/simple_offerer.cpp in which one candidate is announced.
abbrev offerer_input : SimpleOfferer.Env
offerer_input = record {
  bind_result = pos 0;
  sdp = reply;
  num_cand = pos 1;
  lines = one ∷ [];
  media = (none, true) ∷ [];
}

abbrev offerer_result : SimpleOfferer.Run
offerer_result = record {
  remote = some (sets_remote reply offer);
  candidates = [];
  packets = [];
  end = SimpleOfferer.finished;
}

runs : SimpleOfferer.simple_offerer peer takes_all (λ b. b) offerer_input ≡ ok offerer_result
unfolding SimpleOfferer.simple_offerer SimpleOfferer.after_description SimpleOfferer.after_loop
    SimpleOfferer.add_candidates remote_description text_eq offerer_loop
runs = refl

simple_offerer-adds_none_example : offerer_result.candidates ≡ []
simple_offerer-adds_none_example =
    simple_offerer-adds_none peer takes_all (λ b. b) offerer_input offerer_result runs (λ h. cc)
      (λ h. cc)

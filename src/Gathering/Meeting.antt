-- ===== src/Gathering/Meeting.antt =====
-- The offerer and the answerer with the descriptions and candidates that they have gathered.
use client_server_signaling.Base.{
  map, ℕ, ◌<◌, ◌≡◌, sym, ap, subst, ◌∙◌, Text, Bool, true, Option, none, some, All-append,
  if◌then◌else◌, List, [], ◌∷◌, ◌++◌, length, All, pos,
}
use client_server_signaling.Fault.{ok}
use client_server_signaling.Wire.Words.{HasNoNul}
use client_server_signaling.Client.Listener.{Peer}
use client_server_signaling.Client.Requests.{decimal}
use client_server_signaling.Handshake.{sends, sets_remote, adds, says}
use client_server_signaling.Handshake.Int32.{int_bytes}
use client_server_signaling.Handshake.Offerer
use client_server_signaling.Handshake.Answerer
use client_server_signaling.Handshake.Exchange.{IsDescription, Meet, offerer-answerer, merged}
use client_server_signaling.Gathering.{JsonLaws, Notice, Local, no_notice, own_description, gather}
use client_server_signaling.Gathering.Described.{
  IsDocumented, completed, candidates_of, local_of, gather_lem, remote_description-own,
}

module _ {p : Peer} (laws : JsonLaws p) where
  -- A description that a program makes of a type and a text, that the other side's buffer holds
  -- and its library takes.
  pub record IsOwn (size : ℕ) (type sdp : Text) : Type 0 where
    pub no_nul : HasNoNul (own_description laws type sdp)
    pub fits : length (own_description laws type sdp) < size
    pub accepted : p.accepts sdp type ≡ true

  IsDescription-own :
      (size : ℕ) (type sdp : Text)
      → IsOwn size type sdp
      → IsDescription p size (own_description laws type sdp) (sets_remote sdp type)
  IsDescription-own size type sdp own = record {
    no_nul = own.no_nul;
    fits = own.fits;
    json = laws.object type sdp;
    parses = laws.parse-dump (laws.object type sdp);
    describes = remote_description-own laws type sdp own.accepted;
  }

  -- The calls of the callbacks up to the first `send` of the offerer, and from there to its count
  -- of the candidates.
  pub record Offers (o : Offerer.Env) (ns ms : List Notice) (type sdp : Text) : Type 0 where
    pub documented : All IsDocumented ns
    pub documented' : All IsDocumented ms
    pub complete : completed ns none ≡ some (type, sdp)
    pub before : Local
    pub after : Local
    pub at_send : gather laws ns no_notice ≡ ok before
    pub at_count : gather laws (ns ++ ms) no_notice ≡ ok after
    pub text : o.local_sdp ≡ before.sdp
    pub candidates : o.candidates ≡ after.candidates

  -- What `while(!sdp_generated)` leaves with.
  abbrev pub generated_of : Local → Option Text
  generated_of l = if l.generated then some l.sdp else none

  -- The calls of the callbacks until the answerer leaves `while(!sdp_generated)`, and from there to
  -- its count of the candidates.
  pub record Replies (a : Answerer.Env) (ns ms : List Notice) (type sdp : Text) : Type 0 where
    pub documented : All IsDocumented ns
    pub documented' : All IsDocumented ms
    pub complete : completed ns none ≡ some (type, sdp)
    pub before : Local
    pub after : Local
    pub at_send : gather laws ns no_notice ≡ ok before
    pub at_count : gather laws (ns ++ ms) no_notice ≡ ok after
    pub text : a.generated ≡ generated_of before
    pub candidates : a.candidates ≡ after.candidates

  gathered_text :
      (ns : List Notice) (type sdp : Text) (l : Local)
      → All IsDocumented ns
      → completed ns none ≡ some (type, sdp)
      → gather laws ns no_notice ≡ ok l
      → (l.sdp ≡ own_description laws type sdp) × (l.generated ≡ true)
  gathered_text ns type sdp l documented complete done =
      let found = gather_lem laws ns documented in
      let eq : l ≡ local_of laws (some (type, sdp)) (candidates_of ns) = cc in
      (ap (λ x. x.sdp) eq, ap (λ x. x.generated) eq)

  gathered_answer :
      (generated : Option Text) (l : Local) (answer text : Text)
      → generated ≡ some answer
      → generated ≡ generated_of l
      → l.sdp ≡ text
      → l.generated ≡ true
      → answer ≡ text
  gathered_answer generated l answer text h k t g =
      let eq : generated_of l ≡ some l.sdp = rw g in cc

  gathered_candidates :
      (ns ms : List Notice) (l : Local)
      → All IsDocumented ns
      → All IsDocumented ms
      → gather laws (ns ++ ms) no_notice ≡ ok l
      → l.candidates ≡ candidates_of (ns ++ ms)
  gathered_candidates ns ms l h k done =
      let found = gather_lem laws (ns ++ ms) (All-append IsDocumented ns ms h k) in
      let eq : l ≡ local_of laws (completed (ns ++ ms) none) (candidates_of (ns ++ ms)) = cc in
      ap (λ x. x.candidates) eq

  -- Where gathering is complete at the offerer before its first `send` and at the answerer before
  -- it leaves its loop, the calls and the transport are as in the exchange of the two programs, and
  -- each description holds no NUL, fits the other's buffer and is taken by the other's library:
  -- both programs come to their end, each gives its peer connection exactly the type and the text
  -- that the other's library has generated, and the offerer sends each of its candidates.
  pub offerer-answerer-gathered :
      (accepts : Text → Bool) (o : Offerer.Env) (a : Answerer.Env) (ip : Text) (port : ℕ)
      (answer first : Text) (rest : List Text) (ns ms ks js : List Notice)
      (type sdp type' sdp' : Text)
      → Offers o ns ms type sdp
      → Replies a ks js type' sdp'
      → IsOwn Answerer.buffer_size type sdp
      → IsOwn Offerer.buffer_size type' sdp'
      → Meet accepts o a ip port answer first rest
      → (Offerer.offerer p accepts o
          ≡ ok (record {
            events =
                sends (own_description laws type sdp)
                ∷ sets_remote sdp' type'
                ∷ sends (int_bytes (length (candidates_of (ns ++ ms))))
                ∷ (map sends (candidates_of (ns ++ ms)) ++ adds first ∷ says o.message ∷ []);
            remote_cand_count = length (candidates_of (ks ++ js));
            end = Offerer.finished;
          }))
        × (Answerer.answerer p accepts (ip ∷ decimal (pos port) ∷ []) a
            ≡ ok (record {
              events =
                  sets_remote sdp type
                  ∷ sends (own_description laws type' sdp')
                  ∷ adds (merged (candidates_of (ns ++ ms)))
                  ∷ sends (int_bytes (length (candidates_of (ks ++ js))))
                  ∷ sends first
                  ∷ [];
              remote_cand_count = length (candidates_of (ns ++ ms));
              end = Answerer.finished;
            }))
  offerer-answerer-gathered accepts o a ip port answer first rest ns ms ks js type sdp type' sdp'
        offers replies own own' m =
      let t =
        gathered_text ns type sdp offers.before offers.documented offers.complete offers.at_send in
      let t' =
        gathered_text ks type' sdp' replies.before replies.documented replies.complete
          replies.at_send in
      let cs =
        offers.candidates
        ∙ gathered_candidates ns ms offers.after offers.documented offers.documented'
            offers.at_count in
      let cs' =
        replies.candidates
        ∙ gathered_candidates ks js replies.after replies.documented replies.documented'
            replies.at_count in
      let text : o.local_sdp ≡ own_description laws type sdp = offers.text ∙ t.0 in
      let text' : answer ≡ own_description laws type' sdp' =
        gathered_answer a.generated replies.before answer (own_description laws type' sdp')
          m.answer_generated replies.text t'.0 t'.1 in
      let offer =
        subst (λ x. IsDescription p Answerer.buffer_size x (sets_remote sdp type)) (sym text)
          (IsDescription-own Answerer.buffer_size type sdp own) in
      let reply =
        subst (λ x. IsDescription p Offerer.buffer_size x (sets_remote sdp' type')) (sym text')
          (IsDescription-own Offerer.buffer_size type' sdp' own') in
      let ends =
        offerer-answerer p accepts o a ip port answer first rest (sets_remote sdp type)
          (sets_remote sdp' type') m offer reply in
      (ends.0 ∙ rw (text, cs, cs'), ends.1 ∙ rw (text', cs, cs'))

-- ===== src/Gathering/Described.antt =====
-- What the callbacks leave, in every order of the library's calls.
use client_server_signaling.Base.{
  ◌≡◌, ◌∙◌, Text, true, false, Option, none, some, List, [], ◌∷◌, ◌++◌, append-nil, append_assoc,
  All,
}
use client_server_signaling.Fault.{ok}
use client_server_signaling.Client.Listener.{Peer}
use client_server_signaling.Handshake.{sets_remote, remote_description}
use client_server_signaling.Gathering.{
  JsonLaws, new, in_progress, complete, Notice, candidate, gathering, Local, no_notice,
  own_description, on_gathering, on_notice, gather,
}

-- The candidates among the calls, in their order.
abbrev pub candidates_of : List Notice → List Text
candidates_of [] = []
candidates_of (candidate c ∷ ns) = c ∷ candidates_of ns
candidates_of (gathering state d ∷ ns) = candidates_of ns

-- The description at the last call that says that gathering is complete, if it has one.
abbrev pub completed : List Notice → Option (Text × Text) → Option (Text × Text)
completed [] d = d
completed (candidate c ∷ ns) d = completed ns d
completed (gathering complete d ∷ ns) d' = completed ns d
completed (gathering new d ∷ ns) d' = completed ns d'
completed (gathering in_progress d ∷ ns) d' = completed ns d'

-- What is documented of the library: gathering is complete only with a description.
abbrev pub IsDocumented : Notice → Type 0
IsDocumented (candidate c) = Unit
IsDocumented (gathering complete none) = ⊥
IsDocumented (gathering complete (some d)) = Unit
IsDocumented (gathering new d) = Unit
IsDocumented (gathering in_progress d) = Unit

module _ {p : Peer} (laws : JsonLaws p) where
  -- The text and the flag that belong to a description.
  abbrev pub local_of : Option (Text × Text) → List Text → Local
  local_of d cs = record {
    sdp = elim d [ none ↦ [] | some (type, sdp) ↦ own_description laws type sdp ];
    candidates = cs;
    generated = elim d [ none ↦ false | some e ↦ true ];
  }

  gather-local_of :
      (ns : List Notice) (d : Option (Text × Text)) (cs : List Text)
      → All IsDocumented ns
      → gather laws ns (local_of d cs) ≡ ok (local_of (completed ns d) (cs ++ candidates_of ns))
  unfolding gather on_notice on_gathering
  gather-local_of [] d cs h = rw append-nil
  gather-local_of (candidate c ∷ ns) none cs h =
      gather-local_of ns none (cs ++ c ∷ []) h.1 ∙ rw (append_assoc cs (c ∷ []) (candidates_of ns))
  gather-local_of (candidate c ∷ ns) (some d) cs h =
      gather-local_of ns (some d) (cs ++ c ∷ []) h.1
      ∙ rw (append_assoc cs (c ∷ []) (candidates_of ns))
  gather-local_of (gathering complete none ∷ ns) d cs h = absurd h.0
  gather-local_of (gathering complete (some e) ∷ ns) none cs h = gather-local_of ns (some e) cs h.1
  gather-local_of (gathering complete (some e) ∷ ns) (some d) cs h =
      gather-local_of ns (some e) cs h.1
  gather-local_of (gathering new e ∷ ns) d cs h = gather-local_of ns d cs h.1
  gather-local_of (gathering in_progress e ∷ ns) d cs h = gather-local_of ns d cs h.1

  -- Whatever the order of the library's calls, where each that says that gathering is complete
  -- comes with a description: the candidates are all that were told, in their order, and the text
  -- is that of the last such description; before there is one the text is empty and the flag of
  -- answerer.cpp is not set.
  pub gather_lem :
      (ns : List Notice)
      → All IsDocumented ns
      → gather laws ns no_notice ≡ ok (local_of (completed ns none) (candidates_of ns))
  gather_lem ns h = gather-local_of ns none [] h

  -- A description as a program makes it is read back by the programs that ask for the members
  -- "sdp" and "type".
  pub remote_description-own :
      (type sdp : Text)
      → p.accepts sdp type ≡ true
      → remote_description p (laws.object type sdp) ≡ some (sets_remote sdp type)
  unfolding remote_description
  remote_description-own type sdp acc =
      rw (remote_description, laws.sdp_member type sdp, laws.type_member type sdp, acc)

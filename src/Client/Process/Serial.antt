-- ===== src/Client/Process/Serial.antt =====
-- The menu and the listener in any order, against `open_menu` and the listener's loop alone.
use client_server_signaling.Base.{
  ◌≡◌, ◌≢◌, refl, sym, ◌∙◌, ap, subst, arith, Text, true, Option, List, [], ◌∷◌, ◌++◌, append-nil,
  append_assoc,
}
use client_server_signaling.Fault.{ok}
use client_server_signaling.Client.Menu.{Choice, MenuFlow, MenuTurn, again, left, exited, open_menu}
use client_server_signaling.Client.Listener.{Peer, Heard, Listening, listens, stops, listen}
use client_server_signaling.Client.Process.{
  choosing, hearing, ClientProcess, after_round, after_message,
}
use client_server_signaling.Client.Process.Remote.{with_remote}
use client_server_signaling.Client.Process.Shared.{writes_remote}
use client_server_signaling.Client.Process.Apart.{listener_apart, menu_apart}
use client_server_signaling.Client.Process.Continued.{rounds, menu_cons, listener_cons}
use client_server_signaling.Client.Process.Mixed.{
  Mixed, mixed_none, menu_next, listener_next, Round, Message, menu_step-Round,
  listener_step-Message, out_of_menu, deaf, Mixed-running,
}

-- What the two do alone, each from the first state, put together.
pub record Serial (p : Peer) (os : List Choice) (ms : List (Option Text)) (w u : ClientProcess)
    : Type 0 where
  pub turn : MenuTurn
  pub heard : Heard
  pub menu_alone : open_menu os w.client ≡ ok turn
  pub listener_alone : listen p (rounds ms) w.client ≡ ok heard
  pub client_of : u.client ≡ with_remote heard.client.remote_sdp turn.client
  pub requests_of : u.requests ≡ w.requests ++ turn.sent
  pub events_of : u.events ≡ w.events ++ heard.events

again_iff : (flow : MenuFlow) → after_round flow ≡ choosing → flow ≡ again
again_iff again e = refl
again_iff left e = absurd (ground arith)
again_iff exited e = absurd (ground arith)

listens_iff : (next : Listening) → after_message next ≡ hearing → next ≡ listens
listens_iff listens e = refl
listens_iff stops e = absurd (ground arith)

menu_first :
    (p : Peer) (o : Choice) (os : List Choice) (ms : List (Option Text)) (w v u : ClientProcess)
    → Round o w v
    → (v.menu ≢ choosing → os ≡ [])
    → Serial p os ms v u
    → Serial p (o ∷ os) ms w u
menu_first p o os ms w v u s k rest =
    let t = s.turn in
    let v_client : v.client ≡ t.client = ap (λ (x : ClientProcess). x.client) s.after in
    let (r, done, r_client, r_sent) =
      menu_cons o os w.client t rest.turn s.done
        (λ q.
          k (λ q'. q (again_iff t.flow (ap (λ (x : ClientProcess). x.menu) (sym s.after) ∙ q'))))
        (subst (λ d. open_menu os d ≡ ok rest.turn) v_client rest.menu_alone) in
    let (h, done', h_remote, h_events) =
      listener_apart p o (rounds ms) w.client t rest.heard s.done
        (subst (λ d. listen p (rounds ms) d ≡ ok rest.heard) v_client rest.listener_alone) in
    record {
      turn = r;
      heard = h;
      menu_alone = done;
      listener_alone = done';
      client_of = cc (rest.client_of, h_remote, r_client);
      requests_of =
          cc (rest.requests_of, r_sent, s.after, append_assoc w.requests t.sent rest.turn.sent);
      events_of = cc (rest.events_of, h_events, s.after);
    }

listener_first :
    (p : Peer) (m : Option Text) (os : List Choice) (ms : List (Option Text))
    (w v u : ClientProcess)
    → w.client.running ≡ true
    → Message p m w v
    → (v.listener ≢ hearing → ms ≡ [])
    → Serial p os ms v u
    → Serial p os (m ∷ ms) w u
listener_first p m os ms w v u running s k rest =
    let h = s.heard in
    let c = w.client in
    let v_client : v.client ≡ h.client = ap (λ (x : ClientProcess). x.client) s.after in
    let still : listen p ((true, m, true) ∷ []) c ≡ ok h =
      ap (λ b. listen p ((true, m, b) ∷ []) c) (sym running) ∙ s.done in
    let (r, done, r_client, r_events) =
      listener_cons p m ms c h rest.heard still
        (λ q. k (λ q'.
          q (listens_iff h.next (ap (λ (x : ClientProcess). x.listener) (sym s.after) ∙ q'))))
        (subst (λ d. listen p (rounds ms) d ≡ ok rest.heard) v_client rest.listener_alone) in
    let (t, done', t_client, t_sent) = menu_apart h.client.remote_sdp os c rest.turn (
      subst (λ d. open_menu os d ≡ ok rest.turn)
        (v_client ∙ writes_remote p ((true, m, true) ∷ []) c h still) rest.menu_alone) in
    record {
      turn = t;
      heard = r;
      menu_alone = done';
      listener_alone = done;
      client_of = cc (rest.client_of, r_client, t_client);
      requests_of = cc (rest.requests_of, t_sent, s.after);
      events_of =
          cc (rest.events_of, r_events, s.after, append_assoc w.events h.events rest.heard.events);
    }

-- The two threads of a client do together what each does alone: options and messages that come
-- after one another in any order, none of them a fault and none clearing `running`, leave what
-- `open_menu` sends for those options and what the listener's loop does at those messages, each
-- run from the first state without the other, and the client of the one with the other side's
-- description from the other.
pub Mixed-Serial :
    (p : Peer) (os : List Choice) (ms : List (Option Text)) (w u : ClientProcess)
    → Mixed p os ms w u
    → u.client.running ≡ true
    → Serial p os ms w u
unfolding open_menu listen
Mixed-Serial p _ _ _ _ (mixed_none w) h = record {
  turn = record { client = w.client; sent = []; flow = again };
  heard = record { client = w.client; events = []; next = listens };
  menu_alone = refl;
  listener_alone = refl;
  client_of = refl;
  requests_of = sym (append-nil w.requests);
  events_of = sym (append-nil w.events);
}
Mixed-Serial p _ _ _ _ (menu_next o os ms w v u c e rest) h =
    menu_first p o os ms w v u (menu_step-Round o w v c e) (λ k. out_of_menu p os ms v u k rest)
      (Mixed-Serial p os ms v u rest h)
Mixed-Serial p _ _ _ _ (listener_next a m os ms w v u c e rest) h =
    let s = listener_step-Message p a m w v c e in
    listener_first p m os ms w v u
      (Mixed-running p os (m ∷ ms) w u (listener_next a m os ms w v u c e rest) h) s
      (λ k. deaf p os ms v u k rest) (Mixed-Serial p os ms v u rest h)

-- ===== src/Client/Main/Reach.antt =====
-- How far the client's `main` comes.
use client_server_signaling.Base.{
  ℕ, ◌%◌, ◌^◌, ◌<◌, ◌≡◌, sym, ap, ◌∙◌, inl, inr, Bool-cases, arith, Text, Bool, true, false, Option,
  some, List, [], ◌∷◌, map, lt→ltb, length, ℤ, pos, minus_one, int_eq,
}
use client_server_signaling.Fault.{ok, >>=-eq-ok}
use client_server_signaling.Wire.{socket_buffer_size}
use client_server_signaling.Rtp.{Buffer, media_handler}
use client_server_signaling.Rtp.Packets.{SetsSsrc, forwarded, media_handler-receiving}
use client_server_signaling.Rtp.Failing.{recv_fails, media_handler-left}
use client_server_signaling.Client.State.{Client}
use client_server_signaling.Client.Requests.{client_request, decimal, send_ip_and_port_to_server}
use client_server_signaling.Client.Requests.Decimal.{stoi-decimal}
use client_server_signaling.Client.Menu.{Choice, MenuTurn}
use client_server_signaling.Client.Main.{Connecting, in_media, in_menu, serves, client_main}

-- Every call before `media_handler` succeeds.
pub record IsConnected (s : Connecting) (server : Text) (port : ℕ) : Type 0 where
  pub sigaction : int_eq s.sigaction_result minus_one ≡ false
  pub socket : int_eq s.socket_result minus_one ≡ false
  pub inet_pton : s.inet_pton_ok server ≡ true
  pub connect : s.connect_ok server port ≡ true
  pub send : s.send_ok ≡ true

module _ (stamp : Buffer → Buffer) (s : Connecting) (server address : Text) (n own : ℕ)
    (choices : List Choice) (c : Client) (hn : n < 2 ^ 31) (ho : own < 2 ^ 31)
    (fits : length (client_request address (pos own)) < socket_buffer_size)
    (connected : IsConnected s server (n % 2 ^ 16)) where
  sends_request :
      send_ip_and_port_to_server address (pos own) ≡ ok (client_request address (pos own))
  unfolding send_ip_and_port_to_server
  sends_request = rw (lt→ltb _ _ fits)

  pub client_main-serves :
      (media : List (Option Text × Bool))
      → client_main stamp
          (server ∷ decimal (pos n) ∷ address ∷ decimal (pos own) ∷ [])
          s
          media
          choices
          c
        ≡ serves stamp (client_request address (pos own)) (pos own) media choices c
  unfolding client_main
  client_main-serves media = rw (
    connected.sigaction,
    client_main,
    stoi-decimal n hn,
    stoi-decimal own ho,
    connected.socket,
    connected.inet_pton,
    connected.connect,
    sends_request,
    connected.send,
  )

  -- Given two ports in decimal below 2^31 and an address that its message has room for, a client
  -- whose calls before `media_handler` succeed tells the server its address and its port, and is
  -- then in `media_handler`: however many datagrams arrive, as long as no `recv` fails the
  -- listener is not started and no option of the menu is read. The packets sent are the usable
  -- ones of these datagrams, stamped with the SSRC.
  pub client_main-receiving :
      (rs : List (Text × Bool))
      → SetsSsrc stamp
      → client_main stamp
          (server ∷ decimal (pos n) ∷ address ∷ decimal (pos own) ∷ [])
          s
          (map (λ (d, o). (some d, o)) rs)
          choices
          c
        ≡ ok (in_media (client_request address (pos own)) (forwarded rs))
  unfolding serves
  client_main-receiving rs sets =
      client_main-serves (map (λ (d, o). (some d, o)) rs)
      ∙ rw (serves, media_handler-receiving stamp sets rs)

  -- Given two ports in decimal below 2^31 and an address that its message has room for, a client
  -- whose calls before `media_handler` succeed has come to its menu only if some `recv` of
  -- `media_handler` failed.
  pub client_main-in_menu :
      (media : List (Option Text × Bool)) (message : Text) (sent : List Text) (port : ℤ)
      (t : MenuTurn)
      → client_main stamp
          (server ∷ decimal (pos n) ∷ address ∷ decimal (pos own) ∷ [])
          s
          media
          choices
          c
        ≡ ok (in_menu message sent port t)
      → recv_fails media ≡ true
  unfolding serves
  client_main-in_menu media message sent port t h =
      let e = sym (client_main-serves media) ∙ h in
      let ((packets, left), e1, e2) = >>=-eq-ok (media_handler stamp media) _ e in
      elim (Bool-cases left) [
        | inl q ↦ media_handler-left stamp media packets (e1 ∙ ap (λ l. ok (packets, l)) q)
        | inr q ↦ absurd (ground arith)
      ]

-- ===== src/Client/Process/Keeps.antt =====
-- What the menu keeps: the client's own description.
use client_server_signaling.Base.{
  if_cases, ◌≡◌, refl, ◌∙◌, subst, arith, Text, codes, ◌++◌, inl, inr, ℤ, Bool, if◌then◌else◌, [],
}
use client_server_signaling.Fault.{>>=-cases, Result, ok, err, ◌>>=◌, Result-cases}
use client_server_signaling.Wire.{word_size, socket_buffer_size, c_string, sprintf, store_word}
use client_server_signaling.Client.State.{Client, Reply, Done}
use client_server_signaling.Client.Requests.{
  is_empty, exchange, register_request, sign_up_login_user, logout_user, exit_user, call_peer,
  call_request,
}
use client_server_signaling.Client.Menu.{Choice, MenuTurn, select, after_select, menu_round}
use client_server_signaling.Client.Process.Remote.{answer_cases}

-- If it comes to its end, the client's description is still this one.
abbrev Keeps : Text → Result Done → Type 0
Keeps sdp (ok d) = d.client.local_sdp ≡ sdp
Keeps sdp (err f) = f ≡ f

abbrev Kept : Text → Result MenuTurn → Type 0
Kept sdp (ok t) = t.client.local_sdp ≡ sdp
Kept sdp (err f) = f ≡ f

Keeps-bind {ℓ} :
    {A : Type ℓ} (sdp : Text) (m : Result A) (f : A → Result Done)
    → ((a : A) → Keeps sdp (f a))
    → Keeps sdp (m >>= f)
Keeps-bind sdp m f h = >>=-cases (Keeps sdp) m f (λ why. refl) (λ a e. h a)

logout_user-Keeps :
    (name : Text) (r : Reply) (c : Client) → Keeps c.local_sdp (logout_user name r c)
unfolding logout_user
logout_user-Keeps name r c =
    Keeps-bind c.local_sdp (exchange (codes "LOGOUT " ++ name) r) _
      (answer_cases _ (λ sent. refl) (λ a sent. refl))

sign_up_login_user-Keeps :
    (option : ℤ) (name word : Text) (r : Reply) (c : Client)
    → Keeps c.local_sdp (sign_up_login_user option name word r c)
unfolding sign_up_login_user
sign_up_login_user-Keeps option name word r c =
    Keeps-bind c.local_sdp (exchange (register_request option name word) r) _
      (answer_cases _ (λ sent. refl) (λ a sent. refl))

call_peer-Keeps :
    (typed : Text) (send_ok : Bool) (c : Client) → Keeps c.local_sdp (call_peer typed send_ok c)
unfolding call_peer
call_peer-Keeps typed send_ok c = Keeps-bind c.local_sdp (store_word word_size typed) _ λ peer.
    Keeps-bind c.local_sdp (sprintf socket_buffer_size (call_request peer (c_string c.local_sdp))) _
      λ message. refl

logged_out_first-Keeps :
    (r : Reply) (c : Client)
    → Keeps c.local_sdp (
        if is_empty c.username
        then ok (record { client = c; sent = [] })
        else logout_user c.username r c)
logged_out_first-Keeps r c =
    if_cases (Keeps c.local_sdp) (is_empty c.username) _ _ refl (logout_user-Keeps c.username r c)

exit_user-Keeps : (r1 r2 : Reply) (c : Client) → Keeps c.local_sdp (exit_user r1 r2 c)
unfolding exit_user
exit_user-Keeps r1 r2 c =
    >>=-cases (Keeps c.local_sdp) _ _ (λ why. refl)
      λ d e.
        Keeps-bind c.local_sdp (exchange (codes "EXIT EXIT") r2) _
          (answer_cases _ (λ sent. kept d e) (λ a sent. kept d e))
  where
    kept :
        (d : Done)
        → (if is_empty c.username
            then ok (record { client = c; sent = [] })
            else logout_user c.username r1 c)
          ≡ ok d
        → d.client.local_sdp ≡ c.local_sdp
    kept d e = subst (Keeps c.local_sdp) e (logged_out_first-Keeps r1 c)

select-Keeps : (o : Choice) (c : Client) → Keeps c.local_sdp (select o c)
unfolding select
select-Keeps o c = ground (
  arith,
  sign_up_login_user-Keeps o.option o.first_word o.second_word o.reply c,
  call_peer-Keeps o.first_word o.reply.send_ok c,
  logout_user-Keeps c.username o.reply c,
  exit_user-Keeps o.reply o.reply2 c,
)

after_select-keeps :
    (o : Choice) (d : Done) → (after_select o d).client.local_sdp ≡ d.client.local_sdp
unfolding after_select
after_select-keeps o d = ground arith

selected-Kept :
    (o : Choice) (c : Client) → Kept c.local_sdp (do d ← select o c; ok (after_select o d))
selected-Kept o c = elim (Result-cases (select o c)) [
  | inr (f, e) ↦ rw e refl
  | inl (d, e) ↦ rw e (after_select-keeps o d ∙ subst (Keeps c.local_sdp) e (select-Keeps o c))
]

menu_round-Kept : (o : Choice) (c : Client) → Kept c.local_sdp (menu_round o c)
unfolding menu_round
menu_round-Kept o c = ground (arith, selected-Kept o c)

-- A round of the menu that comes to its end has not changed the client's own description.
pub menu_round-keeps :
    (o : Choice) (c : Client) (t : MenuTurn)
    → menu_round o c ≡ ok t
    → t.client.local_sdp ≡ c.local_sdp
menu_round-keeps o c t h = subst (Kept c.local_sdp) h (menu_round-Kept o c)

-- ===== src/Client/Process/Remote.antt =====
-- What the menu and the listener leave alone: the menu the two descriptions, the listener all but the
-- other side's.
use client_server_signaling.Base.{
  ◌≡◌, refl, ap, arith, Text, codes, Bool, Option, none, some, List, [], ◌++◌, inl, inr, ℤ,
  Bool-cases, if◌then◌else◌,
}
use client_server_signaling.Fault.{Result, ok, err, ◌>>=◌, Result-cases}
use client_server_signaling.Wire.{word_size, socket_buffer_size, c_string, sprintf, store_word}
use client_server_signaling.Client.State.{Client, Reply, Done}
use client_server_signaling.Client.Requests.{
  is_empty, exchange, register_request, sign_up_login_user, logout_user, exit_user, call_peer,
  call_request,
}
use client_server_signaling.Client.Menu.{Choice, MenuTurn, select, after_select, menu_round}

-- The client with another description of the other side.
abbrev pub with_remote : Text → Client → Client
with_remote sdp c = record c { remote_sdp = sdp }

abbrev done_with : Text → Result Done → Result Done
done_with sdp r = do d ← r; ok (record d { client = with_remote sdp d.client })

abbrev pub turn_with : Text → Result MenuTurn → Result MenuTurn
turn_with sdp r = do t ← r; ok (record t { client = with_remote sdp t.client })

-- There is an answer, or there is none.
pub answer_cases {ℓ} :
    (P : Option Text × List Text → Type ℓ)
    → ((sent : List Text) → P (none, sent))
    → ((answer : Text) (sent : List Text) → P (some answer, sent))
    → (x : Option Text × List Text) → P x
answer_cases P h h' (none, sent) = h sent
answer_cases P h h' (some answer, sent) = h' answer sent

-- Of two chains that begin alike.
done_with-bind {ℓ} :
    {A : Type ℓ} (sdp : Text) (m : Result A) (f g : A → Result Done)
    → ((a : A) → f a ≡ done_with sdp (g a))
    → m >>= f ≡ done_with sdp (m >>= g)
done_with-bind sdp (err why) f g h = refl
done_with-bind sdp (ok a) f g h = h a

-- Of a chain that begins with what another has done.
done_with-then :
    (sdp : Text) (m m' : Result Done) (f : Done → Result Done)
    → m' ≡ done_with sdp m
    → ((d : Done) → f (record d { client = with_remote sdp d.client }) ≡ done_with sdp (f d))
    → m' >>= f ≡ done_with sdp (m >>= f)
done_with-then sdp (err why) m' f e h = rw e refl
done_with-then sdp (ok d) m' f e h = rw e (h d)

logout_user-with_remote :
    (sdp name : Text) (r : Reply) (c : Client)
    → logout_user name r (with_remote sdp c) ≡ done_with sdp (logout_user name r c)
unfolding logout_user
logout_user-with_remote sdp name r c =
    done_with-bind sdp (exchange (codes "LOGOUT " ++ name) r) _ _
      (answer_cases _ (λ sent. refl) (λ a sent. refl))

sign_up_login_user-with_remote :
    (sdp : Text) (option : ℤ) (name word : Text) (r : Reply) (c : Client)
    → sign_up_login_user option name word r (with_remote sdp c)
      ≡ done_with sdp (sign_up_login_user option name word r c)
unfolding sign_up_login_user
sign_up_login_user-with_remote sdp option name word r c =
    done_with-bind sdp (exchange (register_request option name word) r) _ _
      (answer_cases _ (λ sent. refl) (λ a sent. refl))

call_peer-with_remote :
    (sdp typed : Text) (send_ok : Bool) (c : Client)
    → call_peer typed send_ok (with_remote sdp c) ≡ done_with sdp (call_peer typed send_ok c)
unfolding call_peer
call_peer-with_remote sdp typed send_ok c =
    done_with-bind sdp (store_word word_size typed) _ _ λ peer.
      done_with-bind sdp (sprintf socket_buffer_size (call_request peer (c_string c.local_sdp))) _ _
        λ message. refl

logged_out_first-with_remote :
    (sdp : Text) (r : Reply) (c : Client)
    → (if is_empty c.username
        then ok (record { client = with_remote sdp c; sent = [] })
        else logout_user c.username r (with_remote sdp c))
      ≡ done_with sdp (
          if is_empty c.username
          then ok (record { client = c; sent = [] })
          else logout_user c.username r c)
logged_out_first-with_remote sdp r c = elim (Bool-cases (is_empty c.username)) [
  | inl e ↦ rw e refl
  | inr e ↦ rw e (logout_user-with_remote sdp c.username r c)
]

exit_user-with_remote :
    (sdp : Text) (r1 r2 : Reply) (c : Client)
    → exit_user r1 r2 (with_remote sdp c) ≡ done_with sdp (exit_user r1 r2 c)
unfolding exit_user
exit_user-with_remote sdp r1 r2 c =
    done_with-then sdp _ _ _ (logged_out_first-with_remote sdp r1 c) λ d.
      done_with-bind sdp (exchange (codes "EXIT EXIT") r2) _ _
        (answer_cases _ (λ sent. refl) (λ a sent. refl))

select-with_remote :
    (sdp : Text) (o : Choice) (c : Client)
    → select o (with_remote sdp c) ≡ done_with sdp (select o c)
unfolding select
select-with_remote sdp o c = ground (
  arith,
  sign_up_login_user-with_remote sdp o.option o.first_word o.second_word o.reply c,
  call_peer-with_remote sdp o.first_word o.reply.send_ok c,
  logout_user-with_remote sdp c.username o.reply c,
  exit_user-with_remote sdp o.reply o.reply2 c,
)

after_select-with_remote :
    (sdp : Text) (o : Choice) (d : Done)
    → after_select o (record d { client = with_remote sdp d.client })
      ≡ record (after_select o d) { client = with_remote sdp (after_select o d).client }
unfolding after_select
after_select-with_remote sdp o d = ground arith

selected-with_remote :
    (sdp : Text) (o : Choice) (c : Client)
    → (do d ← select o (with_remote sdp c); ok (after_select o d))
      ≡ turn_with sdp (do d ← select o c; ok (after_select o d))
selected-with_remote sdp o c = rw (select-with_remote sdp o c) (elim (Result-cases (select o c)) [
  | inr (f, e) ↦ rw e refl
  | inl (d, e) ↦ rw e (ap ok (after_select-with_remote sdp o d))
])

-- One round of the menu does not look at the other side's description, nor change it.
pub menu_round-with_remote :
    (sdp : Text) (o : Choice) (c : Client)
    → menu_round o (with_remote sdp c) ≡ turn_with sdp (menu_round o c)
unfolding menu_round
menu_round-with_remote sdp o c = ground (arith, selected-with_remote sdp o c)

-- ===== src/Tests/Store.antt =====
-- The user store at concrete inputs.
use client_server_signaling.Base.{◌≡◌, ◌≢◌, arith, text_eq, true, false, List, [], ◌∷◌}
use client_server_signaling.Fault.{ok}
use client_server_signaling.UserStore.{
  StoreOp, adds, logins, logs_out, find, login_user, is_login, apply, apply_all,
}
use client_server_signaling.UserStore.Spec.{
  view, spec_run, view-apply_all, subject, login-after-add_user,
}
use client_server_signaling.UserStore.Unordered.{
  unordered, both_end, first_goes, second_goes, apply_all-Interleaves,
}
use client_server_signaling.Tests.Data.{bob, carol, secret, bob_user, store}

abbrev operations : List StoreOp
operations = logins bob secret ∷ logs_out carol ∷ []

view-apply_all_example : view (apply_all operations store) ≡ spec_run operations (view store)
view-apply_all_example = view-apply_all operations store

carol_is_not_bob : subject (logs_out carol) ≢ bob
carol_is_not_bob e = ground arith

login-after-add_user_example :
    let s = apply_all (logs_out carol ∷ []) (apply (adds bob_user) store) in
    let r = login_user bob secret s in
    (r.1 ≡ text_eq secret secret)
    × (r.1 ≡ true → is_login bob r.0 ≡ ok true)
    × (r.1 ≡ false → r.0 ≡ s)
login-after-add_user_example =
    login-after-add_user bob_user (logs_out carol ∷ []) secret store (carol_is_not_bob, tt)

abbrev bob_logs_in : StoreOp
bob_logs_in = logins bob secret

abbrev carol_signs_up : StoreOp
carol_signs_up = adds (record bob_user { username = carol })

bob_is_not_carol : subject bob_logs_in ≢ carol
bob_is_not_carol e = ground arith

apply_all-Interleaves_example :
    (unordered (apply_all (carol_signs_up ∷ bob_logs_in ∷ logs_out carol ∷ []) store)
      ≡ unordered
          (apply_all (carol_signs_up ∷ logs_out carol ∷ []) (apply_all (bob_logs_in ∷ []) store)))
    × (find carol (apply_all (carol_signs_up ∷ bob_logs_in ∷ logs_out carol ∷ []) store)
        ≡ find carol
            (apply_all (carol_signs_up ∷ logs_out carol ∷ []) (apply_all (bob_logs_in ∷ []) store)))
apply_all-Interleaves_example =
    apply_all-Interleaves (bob_logs_in ∷ []) (carol_signs_up ∷ logs_out carol ∷ [])
      (carol_signs_up ∷ bob_logs_in ∷ logs_out carol ∷ []) store carol
      (second_goes _ _ _ _ (first_goes _ _ _ _ (second_goes _ _ _ _ both_end)))
      ((bob_is_not_carol, tt), ((bob_is_not_carol, tt), tt))

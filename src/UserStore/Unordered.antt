-- ===== src/UserStore/Unordered.antt =====
-- The store without its order: stores that show the same user at every name are one. The operations
-- on src/UserStore.cpp's map are operations on it, and those on different names change places.
use mathlib.Core.Quot
use mathlib.Core.Quot.{Quot, Quot-set}
use client_server_signaling.Base.{
  ◌≡◌, ◌≢◌, refl, sym, ap, ◌∙◌, fun_ext, arith, Text, text_eq, text_eq_iff, true, false, Option,
  none, some, List, [], ◌∷◌, if◌then◌else◌, Option-cases, inl, inr, All,
}
use client_server_signaling.User.{User, set_islogin}
use client_server_signaling.UserStore.{
  UserStore, find, StoreOp, adds, logins, logs_out, apply, apply_all,
}
use client_server_signaling.UserStore.Lookup.{or_default}
use client_server_signaling.UserStore.Spec.{Accounts, view, spec_apply, view-apply, subject}

abbrev pub SameView : UserStore → UserStore → Type 0
SameView s t = view s ≡ view t

abbrev pub Users : Type 0
Users = Quot SameView

Users-set : IsSet Users
Users-set = Quot-set

User-set : IsSet (Option User)
User-set = hlevel

pub lookup : Text → Users → Option User
lookup j = Quot.lift User-set (find j) (λ s t h. ap (λ m. m j) h)

pub act : StoreOp → Users → Users
act op =
    Quot.lift Quot-set (λ s. Quot.mk (apply op s))
      (λ s t h. Quot.sound (view-apply op s ∙ ap (spec_apply op) h ∙ sym (view-apply op t)))

-- What an operation does at its own name; it does nothing elsewhere.
change : StoreOp → Option User → Option User
change (adds u) m = some u
change (logins name password) none = none
change (logins name password) (some it) =
    if text_eq it.password password then some (set_islogin (some true) it) else some it
change (logs_out name) m = some (set_islogin (some false) (or_default m))

spec_apply_lem :
    (op : StoreOp) (m : Accounts) (j : Text)
    → spec_apply op m j ≡ (if text_eq (subject op) j then change op (m (subject op)) else m j)
unfolding spec_apply change
spec_apply_lem (adds u) m j = refl
spec_apply_lem (logins name password) m j = elim (Option-cases (m name)) [
  | inl e ↦ ground (arith, text_eq_iff name j)
  | inr (it, e) ↦ ground (arith, text_eq_iff name j)
]
spec_apply_lem (logs_out name) m j = refl

-- Operations on different names change places.
spec_apply_comm :
    (op op' : StoreOp) (m : Accounts) (j : Text)
    → subject op ≢ subject op'
    → spec_apply op (spec_apply op' m) j ≡ spec_apply op' (spec_apply op m) j
spec_apply_comm op op' m j h = ground (
  arith,
  spec_apply_lem op (spec_apply op' m) j,
  spec_apply_lem op' (spec_apply op m) j,
  spec_apply_lem op m j,
  spec_apply_lem op' m j,
  spec_apply_lem op' m (subject op),
  spec_apply_lem op m (subject op'),
  text_eq_iff (subject op) j,
  text_eq_iff (subject op') j,
  text_eq_iff (subject op) (subject op'),
  text_eq_iff (subject op') (subject op),
)

pub act_comm :
    (op op' : StoreOp)
    → subject op ≢ subject op'
    → (b : Users) → act op (act op' b) ≡ act op' (act op b)
unfolding act
act_comm op op' h =
    Quot.ind (λ b. Quot-set _ _)
      (λ s. Quot.sound (
        fun_ext λ j.
          ap (λ m. m j) (view-apply op (apply op' s) ∙ ap (spec_apply op) (view-apply op' s))
          ∙ spec_apply_comm op op' (view s) j h
          ∙ sym (
              ap (λ m. m j) (view-apply op' (apply op s) ∙ ap (spec_apply op') (view-apply op s)))))

-- The operations of a thread, in its order.
pub act_all : List StoreOp → Users → Users
act_all [] b = b
act_all (op ∷ ops) b = act_all ops (act op b)

-- The third list interleaves the first two, each in its order.
pub data Interleaves : List StoreOp → List StoreOp → List StoreOp → Type 0 where
  both_end : Interleaves [] [] []
  first_goes :
      (op : StoreOp) (xs ys zs : List StoreOp)
      → Interleaves xs ys zs
      → Interleaves (op ∷ xs) ys (op ∷ zs)
  second_goes :
      (op : StoreOp) (xs ys zs : List StoreOp)
      → Interleaves xs ys zs
      → Interleaves xs (op ∷ ys) (op ∷ zs)

-- An operation on none of the names of a list.
abbrev pub Apart : List StoreOp → StoreOp → Type 0
Apart xs op = All (λ x. subject x ≢ subject op) xs

act_all_comm :
    (xs : List StoreOp) (op : StoreOp) (b : Users)
    → Apart xs op
    → act_all xs (act op b) ≡ act op (act_all xs b)
unfolding act_all
act_all_comm [] op b h = refl
act_all_comm (x ∷ xs) op b h =
    ap (act_all xs) (act_comm x op h.0 b) ∙ act_all_comm xs op (act x b) h.1

Apart-tail : (x : StoreOp) (xs ys : List StoreOp) → All (Apart (x ∷ xs)) ys → All (Apart xs) ys
Apart-tail x xs [] h = tt
Apart-tail x xs (y ∷ ys) h = (h.0.1, Apart-tail x xs ys h.1)

act_all-Interleaves :
    (xs ys zs : List StoreOp) (b : Users)
    → Interleaves xs ys zs
    → All (Apart xs) ys
    → act_all zs b ≡ act_all ys (act_all xs b)
unfolding act_all
act_all-Interleaves _ _ _ b both_end h = refl
act_all-Interleaves _ ys _ b (first_goes op xs _ zs i) h =
    act_all-Interleaves xs ys zs (act op b) i (Apart-tail op xs ys h)
act_all-Interleaves xs _ _ b (second_goes op _ ys zs i) h =
    act_all-Interleaves xs ys zs (act op b) i h.1 ∙ ap (act_all ys) (act_all_comm xs op b h.0)

-- The unordered store of a map.
abbrev pub unordered : UserStore → Users
unordered users = Quot.mk users

unordered-apply_all :
    (ops : List StoreOp) (users : UserStore)
    → unordered (apply_all ops users) ≡ act_all ops (unordered users)
unfolding apply_all act_all act
unordered-apply_all [] users = refl
unordered-apply_all (op ∷ ops) users = unordered-apply_all ops (apply op users)

-- However the operations of two threads that work on different names are interleaved, the map is,
-- but for the order of its entries, the one that the threads make one after the other, and every
-- name is found in it as in that one.
pub apply_all-Interleaves :
    (xs ys zs : List StoreOp) (users : UserStore) (j : Text)
    → Interleaves xs ys zs
    → All (Apart xs) ys
    → (unordered (apply_all zs users) ≡ unordered (apply_all ys (apply_all xs users)))
      × (find j (apply_all zs users) ≡ find j (apply_all ys (apply_all xs users)))
unfolding lookup
apply_all-Interleaves xs ys zs users j i h =
    let e =
      unordered-apply_all zs users
      ∙ act_all-Interleaves xs ys zs (unordered users) i h
      ∙ ap (act_all ys) (sym (unordered-apply_all xs users))
      ∙ sym (unordered-apply_all ys (apply_all xs users)) in
    (e, ap (lookup j) e)

-- What is looked up determines the unordered store.
pub Users-ext : (a b : Users) → ((j : Text) → lookup j a ≡ lookup j b) → a ≡ b
unfolding lookup
Users-ext =
    Quot.ind (λ a. hlevel (Users-set))
      (λ s. Quot.ind (λ b. hlevel (Users-set)) (λ t h. Quot.sound (fun_ext h)))

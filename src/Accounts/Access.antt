-- ===== src/Accounts/Access.antt =====
-- Who is signed in: resolveSession of control-plane/lib/auth.ts after loginCore and logoutCore of
-- control-plane/lib/cloud-auth.ts.
use papi.Common.{
  ℕ, ◌≡◌, refl, sym, ◌∙◌, ap, String, List, [], ◌∷◌, none, some, Bool, true, false, not, ◌&&◌,
  str_eq, str_eq_iff, str_eq_refl, select, any, find, arith, Bool-cases, Option-cases, inl, inr,
  find-holds,
}
use papi.Common.Result.{Result, ok, >>=-eq-ok, guard-eq-ok, or_throw-eq-ok}
use papi.Common.Number.{Number}
use papi.Accounts.Directory.{User, Session, Directory}
use papi.Accounts.Sessions.{
  create_session, is_over, is_live, is_user, session_user, resolve_hash, resolve_session, Login,
  authenticated, login_core, logout_core,
}

abbrev other_than : String → List Session → List Session
other_than hash sessions = select (λ s. not (str_eq s.token_hash hash)) sessions

session_user-logout :
    (now : ℕ) (hash : String) (users : List User) (p : Session → Bool) (sessions : List Session)
    → session_user now hash users (select p (other_than hash sessions)) ≡ none
unfolding session_user
session_user-logout now hash users p [] = refl
session_user-logout now hash users p (s ∷ sessions) =
    ground (arith, session_user-logout now hash users p sessions)

resolve_hash-logout :
    (hash : String) (now : ℕ) (d : Directory)
    → (resolve_hash hash now (record d { sessions = other_than hash d.sessions })).0 ≡ none
unfolding resolve_hash
resolve_hash-logout hash now d =
    (let gone = session_user-logout now hash d.users (λ s. not (is_over now hash s)) d.sessions in
      ground (arith, gone))

resolve_session-given :
    (hash_token : String → String) (token : String) (now : ℕ) (d : Directory)
    → str_eq token "" ≡ false
    → resolve_session hash_token (some token) now d ≡ resolve_hash (hash_token token) now d
unfolding resolve_session
resolve_session-given hash_token token now d full = rw (full, resolve_session)

-- After a logout with a token, the token signs nobody in, at any time.
pub logout_core-resolve :
    (hash_token : String → String) (token : String) (d d' : Directory) (now : ℕ)
    → str_eq token "" ≡ false
    → logout_core hash_token true (some token) d ≡ ok d'
    → (resolve_session hash_token (some token) now d').0 ≡ none
unfolding logout_core
logout_core-resolve hash_token token d d' now full e =
    (let left = record d { sessions = other_than (hash_token token) d.sessions } in
      let q : ok left ≡ ok d' = rw (full, logout_core) at e in
      let s : left ≡ d' = cc in
      ap (λ k. (resolve_session hash_token (some token) now k).0) (sym s)
      ∙ ap (λ r. r.0) (resolve_session-given hash_token token now left full)
      ∙ resolve_hash-logout (hash_token token) now d)

session_user_sound :
    (now : ℕ) (hash : String) (users : List User) (sessions : List Session) (u : User)
    → session_user now hash users sessions ≡ some u
    → (s : Session) × (find (is_user s.user_id) users ≡ some u)
      × (is_live now hash s ≡ true)
      × (any (λ t. is_live now hash t && str_eq t.user_id s.user_id) sessions ≡ true)
unfolding session_user
session_user_sound now hash users [] u e = absurd (ground arith)
session_user_sound now hash users (s ∷ sessions) u e = elim (Bool-cases (is_live now hash s)) [
  | inl live ↦ elim (Option-cases (find (is_user s.user_id) users)) [
    | inl gone ↦
        (let (t, found, alive, hit) = session_user_sound now hash users sessions u (ground arith) in
          (t, found, alive, ground arith))
    | inr (v, found) ↦ (s, (found ∙ ground arith), live, ground (arith, str_eq_refl s.user_id))
  ]
  | inr dead ↦
      (let (t, found, alive, hit) = session_user_sound now hash users sessions u (ground arith) in
        (t, found, alive, ground arith))
]

is_user-holds : (id : String) (u : User) → is_user id u ≡ true → (u.disabled ≡ false) × (u.id ≡ id)
is_user-holds id u h = ground (arith, str_eq_iff u.id id)

any-select :
    (p q : Session → Bool) (sessions : List Session)
    → any p (select q sessions) ≡ true
    → any p sessions ≡ true
any-select p q [] h = h
any-select p q (s ∷ sessions) h = ground (arith, any-select p q sessions)

-- A session of the user with the hash that has not run out.
abbrev pub belongs : ℕ → String → User → Session → Bool
belongs now hash u s = is_live now hash s && str_eq s.user_id u.id

resolve_hash_sound :
    (hash : String) (now : ℕ) (d d' : Directory) (u : User)
    → resolve_hash hash now d ≡ (some u, d')
    → (u.disabled ≡ false)
      × (any (belongs now hash u) d.sessions ≡ true)
      × (any (is_over now hash) d.sessions ≡ false)
      × (find (is_user u.id) d.users ≡ some u)
unfolding resolve_hash
resolve_hash_sound hash now d d' u e = elim (Bool-cases (any (is_over now hash) d.sessions)) [
  | inl over ↦
      (let q : (none, record d { sessions = select (λ s. not (is_over now hash s)) d.sessions })
            ≡ (some u, d') =
          rw over at e in
        let r : none ≡ some u = ap (λ o. o.0) q in absurd (ground arith))
  | inr live ↦
      (let q : (
        session_user now hash d.users (select (λ s. not (is_over now hash s)) d.sessions),
        record d { sessions = select (λ s. not (is_over now hash s)) d.sessions },
      )
            ≡ (some u, d') =
          rw live at e in
        let r = ap (λ o. o.0) q in
        let (s, found, alive, hit) =
          session_user_sound now hash d.users (select (λ s. not (is_over now hash s)) d.sessions) u
            r in
        let (able, id) =
          is_user-holds s.user_id u (find-holds (is_user s.user_id) d.users u found) in
        (
          able,
          any-select (belongs now hash u) (λ s. not (is_over now hash s)) d.sessions (rw id hit),
          live,
          ap (λ i. find (is_user i) d.users) id ∙ found,
        ))
]

-- Whoever a token signs in is a user of the table who is not disabled and has a session with the
-- token's hash that has not run out; no session with the hash has.
pub resolve_session_sound :
    (hash_token : String → String) (token : String) (now : ℕ) (d d' : Directory) (u : User)
    → resolve_session hash_token (some token) now d ≡ (some u, d')
    → (u.disabled ≡ false)
      × (any (belongs now (hash_token token) u) d.sessions ≡ true)
      × (any (is_over now (hash_token token)) d.sessions ≡ false)
      × (find (is_user u.id) d.users ≡ some u)
unfolding resolve_session
resolve_session_sound hash_token token now d d' u e = elim (Bool-cases (str_eq token "")) [
  | inl empty ↦
      (let q : (none, d) ≡ (some u, d') = rw (empty, resolve_session) at e in
        let r : none ≡ some u = ap (λ o. o.0) q in absurd (ground arith))
  | inr full ↦ resolve_hash_sound (hash_token token) now d d' u (rw (full, resolve_session) at e)
]

authenticated-some :
    (verify_password : String → String → Bool) (body : Login) (users : List User) (u : User)
    → authenticated verify_password body users ≡ some u
    → (find (λ v. str_eq v.email body.email) users ≡ some u)
      × (verify_password body.password u.password_hash ≡ true)
unfolding authenticated
authenticated-some verify_password body users u e =
    elim (Option-cases (find (λ v. str_eq v.email body.email) users)) [
      | inl gone ↦ absurd (ground arith)
      | inr (v, found) ↦ ground arith
    ]

-- A login succeeds only on a hosted edition and within the rate, for a user with the address, whose
-- password hash accepts the password, who is not disabled and has verified the address; it adds one
-- session for that user and changes nothing else.
pub login_core_sound :
    (hash_token : String → String) (verify_password : String → String → Bool) (hosted passes : Bool)
    (body : Result Login) (ttl_days : Number) (token : String) (now : ℕ) (d : Directory) (u : User)
    (d' : Directory)
    → login_core hash_token verify_password hosted passes body ttl_days token now d ≡ ok (u, d')
    → (login : Login) × (hosted ≡ true)
      × (passes ≡ true)
      × (body ≡ ok login)
      × (find (λ v. str_eq v.email login.email) d.users ≡ some u)
      × (verify_password login.password u.password_hash ≡ true)
      × (u.disabled ≡ false)
      × (u.email_verified ≡ true)
      × (d' ≡ create_session hash_token u.id ttl_days token now d)
unfolding login_core
login_core_sound hash_token verify_password hosted passes body ttl_days token now d u d' e =
    (let (is_hosted, e1) = guard-eq-ok hosted _ _ e in
      let (in_rate, e2) = guard-eq-ok passes _ _ e1 in
      let (login, read, e3) = >>=-eq-ok body _ e2 in
      let (v, who, e4) = or_throw-eq-ok (authenticated verify_password login d.users) _ _ e3 in
      let (able, e5) = guard-eq-ok (not v.disabled) _ _ e4 in
      let (verified, e6) = guard-eq-ok v.email_verified _ _ e5 in
      let same : v ≡ u = cc in
      let (found, accepted) = authenticated-some verify_password login d.users v who in
      (
        login,
        is_hosted,
        in_rate,
        read,
        found ∙ ap some same,
        rw (← same) accepted,
        rw (← same) (ground arith),
        rw (← same) verified,
        rw (← same) cc,
      ))

-- ===== src/Auth/SessionManager/Lifetime.antt =====
-- How long a session lives.
use nimbus_fs.Prelude.{
  ◌+◌, ◌-◌, leb, ltb, Bool, true, false, ◌&&◌, ◌||◌, not, if◌then◌else◌, ◌≡◌, refl, ap, ◌∙◌, inl,
  inr, none, some, Bool-cases, GoString, str_eq_refl, Time, whole_seconds, arith,
}
use nimbus_fs.Store.{
  Session, Store, ignoring, create_session, get_session, touch_session, delete_session,
}
use nimbus_fs.Store.Sessions.{
  as_stored, touched, get_session-create_session, get_session-touch_session,
  get_session-delete_session,
}
use nimbus_fs.Auth.SessionManager.{Cookie, idle_timeout, lifetime, create, validate, validate_found}

-- The session that Create stores.
abbrev new_session : GoString → Time → GoString → Bool → Session
new_session token now username remember = record {
  id = token;
  username = username;
  created_at = now;
  last_seen_at = now;
  expires_at = now + lifetime remember;
  remember = remember;
}

create-eq-some :
    (st st' : Store) (token username : GoString) (now : Time) (remember secure : Bool) (c : Cookie)
    → create st (some token) now username remember secure ≡ some (c, st')
    → create_session st (new_session token now username remember) ≡ some st'
unfolding create
create-eq-some st st' token username now remember secure c h = ground arith

-- The verdict on a session that was stored at `now` and is presented at `later`.
verdict :
    (st : Store) (token username : GoString) (now later : Time) (remember : Bool)
    → (validate_found st token later (as_stored (new_session token now username remember))).0
      ≡ (if leb later (whole_seconds now + lifetime remember) then some username else none)
verdict st token username now later true = ground arith
verdict st token username now later false = ground arith

validate-some :
    (st : Store) (token : GoString) (now : Time) (sess : Session)
    → get_session st token ≡ some sess
    → validate st token now ≡ validate_found st token now sess
unfolding validate
validate-some st token now sess h = rw (h, validate)

validate-none :
    (st : Store) (token : GoString) (now : Time)
    → get_session st token ≡ none
    → validate st token now ≡ (none, st)
unfolding validate
validate-none st token now h = rw (h, validate)

-- The first time a new session is presented, it is accepted up to thirty minutes after the second
-- in which it was created, or thirty days with "remember me", and never later.
pub validate-create :
    (st st' : Store) (token username : GoString) (now later : Time) (remember secure : Bool)
    (c : Cookie)
    → create st (some token) now username remember secure ≡ some (c, st')
    → (validate st' token later).0
      ≡ (if leb later (whole_seconds now + lifetime remember) then some username else none)
validate-create st st' token username now later remember secure c h =
    ap (λ r. r.0)
      (validate-some st' token later _ (
        get_session-create_session st st' (new_session token now username remember)
          (create-eq-some st st' token username now remember secure c h)))
    ∙ verdict st' token username now later remember

-- A session that is too old, or that has been idle for too long without "remember me".
abbrev pub is_over : Session → Time → Bool
is_over sess now =
    ltb sess.expires_at now || not sess.remember && ltb idle_timeout (now - sess.last_seen_at)

-- The last moment at which a session is accepted, after it was presented at `now`.
abbrev pub next_end : Session → Time → Time
next_end sess now =
    if sess.remember then whole_seconds sess.expires_at else whole_seconds now + idle_timeout

module _ (st : Store) (token : GoString) (sess : Session) (now later : Time)
    (w : st.writable ≡ true) (h : get_session st token ≡ some sess) where
  after_delete : (validate (ignoring st (delete_session st token)) token later).0 ≡ none
  after_delete =
      ap (λ r. r.0)
        (validate-none _ token later
          (get_session-delete_session st token token w ∙ rw (str_eq_refl token) refl))

  after_touch :
      (expires : Time)
      → get_session (ignoring st (touch_session st token now expires)) token
        ≡ some (touched now expires sess)
  after_touch expires =
      get_session-touch_session st token token now expires w ∙ rw (str_eq_refl token) (rw h refl)

  second_verdict :
      (st' : Store)
      → (validate_found st' token later
          (touched now (if sess.remember then sess.expires_at else now + idle_timeout) sess)).0
        ≡ (if leb later (next_end sess now) then some sess.username else none)
  second_verdict st' = ground arith

  -- If the database can be written: a session that Validate refuses is deleted, so it stays
  -- refused. One that it accepts is accepted again up to thirty minutes after the second of this
  -- call, or with "remember me" up to the end that it had.
  pub validate-validate : (validate (validate st token now).1 token later).0 ≡ (
      if is_over sess now
      then none
      else if leb later (next_end sess now)
      then some sess.username
      else none)
  validate-validate =
      ap (λ r. (validate r.1 token later).0) (validate-some st token now sess h) ∙ cases
    where
      accepted :
          (validate
            (ignoring st (
              touch_session st token now
                (if sess.remember then sess.expires_at else now + idle_timeout)))
            token
            later).0
          ≡ (if leb later (next_end sess now) then some sess.username else none)
      accepted = ap (λ r. r.0) (validate-some _ token later _ (after_touch _)) ∙ second_verdict _

      cases : (validate (validate_found st token now sess).1 token later).0 ≡ (
          if is_over sess now
          then none
          else if leb later (next_end sess now)
          then some sess.username
          else none)
      cases = elim (Bool-cases (ltb sess.expires_at now)) [
        | inl e ↦ rw e after_delete
        | inr e ↦
            rw e
              (elim (Bool-cases (not sess.remember && ltb idle_timeout (now - sess.last_seen_at))) [
                | inl e' ↦ rw e' after_delete
                | inr e' ↦ rw e' accepted
              ])
      ]

-- ===== src/Auth/SessionManager.antt =====
-- internal/auth/session.go: cookie sessions over the database. The token is an argument, as
-- crypto/rand gives it: `none` is its error. The clock is read once in each call.
pub mod Lifetime
use nimbus_fs.Prelude.{
  ℕ, ◌+◌, ◌-◌, ◌*◌, Bool, true, false, ◌&&◌, not, if◌then◌else◌, ltb, Option, none, some, GoString,
  codes, Time, minute, hour,
}
use nimbus_fs.Store.{
  Session, Store, ignoring, create_session, get_session, touch_session, delete_session,
  delete_sessions_for_user,
}

abbrev pub cookie_name : GoString
cookie_name = codes "nimbusfs_session"

-- IdleTimeout and RememberMeDuration.
abbrev pub idle_timeout : ℕ
idle_timeout = 30 * minute

abbrev pub remember_me_duration : ℕ
remember_me_duration = 30 * 24 * hour

-- http.Cookie. `expires` is `none` for a cookie of the browser session.
pub record Cookie : Type 0 where
  pub name : GoString
  pub value : GoString
  pub path : GoString
  pub http_only : Bool
  pub secure : Bool
  pub lax : Bool
  pub expires : Option Time

abbrev pub lifetime : Bool → ℕ
lifetime remember = if remember then remember_me_duration else idle_timeout

-- Create
unfoldable pub create :
    Store → Option GoString → Time → GoString → Bool → Bool → Option (Cookie × Store)
create st none now username remember secure = none
create st (some token) now username remember secure =
    elim (create_session st (record {
      id = token;
      username = username;
      created_at = now;
      last_seen_at = now;
      expires_at = now + lifetime remember;
      remember = remember;
    })) [
      | none ↦ none
      | some st' ↦ some (
        record {
          name = cookie_name;
          value = token;
          path = codes "/";
          http_only = true;
          secure = secure;
          lax = true;
          expires = if remember then some (now + lifetime remember) else none;
        },
        st',
      )
    ]

-- The part of Validate behind GetSession.
abbrev pub validate_found : Store → GoString → Time → Session → Option GoString × Store
validate_found st token now sess =
    if ltb sess.expires_at now
    then (none, ignoring st (delete_session st token))
    else if not sess.remember && ltb idle_timeout (now - sess.last_seen_at)
    then (none, ignoring st (delete_session st token))
    else (
      some sess.username,
      ignoring st (
          touch_session st token now
            (if sess.remember then sess.expires_at else now + idle_timeout)),
    )

-- Validate: the user of the session, if it is valid, and the store after the call.
unfoldable pub validate : Store → GoString → Time → Option GoString × Store
validate st token now = elim (get_session st token) [
  | none ↦ (none, st)
  | some sess ↦ validate_found st token now sess
]

-- Destroy
unfoldable pub destroy : Store → GoString → Option Store
destroy st token = delete_session st token

-- DestroyAllForUser
unfoldable pub destroy_all_for_user : Store → GoString → Option Store
destroy_all_for_user st username = delete_sessions_for_user st username

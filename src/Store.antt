-- ===== src/Store.antt =====
-- internal/store/store.go: the tables of the database, and one function for each SQL statement.
-- A statement that writes fails when the database is read-only, and when it would repeat a primary
-- key; other failures of the driver are not modelled. Times are stored in Unix seconds.
pub mod Sessions
pub mod Shares
use nimbus_fs.Prelude.{
  ℕ, suc, ◌+◌, ◌==◌, Bool, true, false, ◌&&◌, not, if◌then◌else◌, Option, none, some, List, [], ◌∷◌,
  ◌++◌, GoString, codes, str_eq, ℤ, pos, negsuc, ltb_ℤ, Time, unix, from_unix,
}

pub record SessionRow : Type 0 where
  pub id : GoString
  pub username : GoString
  pub created_at : ℤ
  pub last_seen_at : ℤ
  pub expires_at : ℤ
  pub remember : ℕ

pub record AuditRow : Type 0 where
  pub ts : ℤ
  pub username : GoString
  pub action : GoString
  pub path : GoString
  pub remote_addr : GoString
  pub detail : GoString

pub record AttemptRow : Type 0 where
  pub username : GoString
  pub remote_addr : GoString
  pub ts : ℤ
  pub success : ℕ

pub record ShareRow : Type 0 where
  pub token : GoString
  pub username : GoString
  pub path : GoString
  pub mode : GoString
  pub password_hash : GoString
  pub created_at : ℤ
  pub expires_at : ℤ

pub record Store : Type 0 where
  pub writable : Bool
  pub sessions : List SessionRow
  pub audit_log : List AuditRow
  pub login_attempts : List AttemptRow
  pub shares : List ShareRow

-- `none` is an error. A caller that ignores the error goes on with the store as it was.
abbrev pub ignoring : Store → Option Store → Store
ignoring s none = s
ignoring s (some s') = s'

abbrev pub when_writable : Store → Store → Option Store
when_writable s s' = if s.writable then some s' else none

-- WHERE and DELETE over the rows of a table.
module _ {A : Type 0} (test : A → Bool) where
  unfoldable pub first_row : List A → Option A
  first_row [] = none
  first_row (r ∷ rs) = if test r then some r else first_row rs

  unfoldable pub without_rows : List A → List A
  without_rows [] = []
  without_rows (r ∷ rs) = let rest = without_rows rs in if test r then rest else r ∷ rest

  unfoldable pub count_rows : List A → ℕ
  count_rows [] = 0
  count_rows (r ∷ rs) = let rest = count_rows rs in if test r then suc rest else rest

abbrev pub is_taken : {A : Type 0} → Option A → Bool
is_taken none = false
is_taken (some a) = true

-- boolToInt
abbrev pub bool_to_int : Bool → ℕ
bool_to_int true = 1
bool_to_int false = 0

pub record Session : Type 0 where
  pub id : GoString
  pub username : GoString
  pub created_at : Time
  pub last_seen_at : Time
  pub expires_at : Time
  pub remember : Bool

abbrev pub has_id : GoString → SessionRow → Bool
has_id id r = str_eq r.id id

-- The values that CreateSession inserts.
abbrev pub row_of_session : Session → SessionRow
row_of_session sess = record {
  id = sess.id;
  username = sess.username;
  created_at = unix sess.created_at;
  last_seen_at = unix sess.last_seen_at;
  expires_at = unix sess.expires_at;
  remember = bool_to_int sess.remember;
}

unfoldable pub create_session : Store → Session → Option Store
create_session s sess =
    if is_taken (first_row (has_id sess.id) s.sessions)
    then none
    else when_writable s (record s { sessions = row_of_session sess ∷ s.sessions })

unfoldable pub session_of_row : SessionRow → Session
session_of_row r = record {
  id = r.id;
  username = r.username;
  created_at = from_unix r.created_at;
  last_seen_at = from_unix r.last_seen_at;
  expires_at = from_unix r.expires_at;
  remember = not (r.remember == 0);
}

abbrev pub map_row : {A B : Type 0} → (A → B) → Option A → Option B
map_row f none = none
map_row f (some r) = some (f r)

unfoldable pub get_session : Store → GoString → Option Session
unfolding first_row session_of_row
get_session s id = map_row session_of_row (first_row (has_id id) s.sessions)

-- UPDATE sessions SET last_seen_at, expires_at WHERE id
unfoldable pub touch_rows : GoString → ℤ → ℤ → List SessionRow → List SessionRow
touch_rows id seen expires [] = []
touch_rows id seen expires (r ∷ rs) =
    (if has_id id r then record r { last_seen_at = seen; expires_at = expires } else r)
    ∷ touch_rows id seen expires rs

unfoldable pub touch_session : Store → GoString → Time → Time → Option Store
unfolding touch_rows
touch_session s id last_seen expires =
    when_writable s
      (record s { sessions = touch_rows id (unix last_seen) (unix expires) s.sessions })

unfoldable pub delete_session : Store → GoString → Option Store
unfolding without_rows
delete_session s id = when_writable s (record s { sessions = without_rows (has_id id) s.sessions })

unfoldable pub delete_sessions_for_user : Store → GoString → Option Store
unfolding without_rows
delete_sessions_for_user s username =
    when_writable s
      (record s { sessions = without_rows (λ r. str_eq r.username username) s.sessions })

unfoldable pub delete_expired_sessions : Store → Time → Option Store
unfolding without_rows
delete_expired_sessions s now =
    when_writable s
      (record s { sessions = without_rows (λ r. ltb_ℤ r.expires_at (unix now)) s.sessions })

unfoldable pub record_audit :
    Store → Time → GoString → GoString → GoString → GoString → GoString → Option Store
record_audit s now username action path remote_addr detail = when_writable s (record s {
  audit_log =
      record {
        ts = unix now;
        username = username;
        action = action;
        path = path;
        remote_addr = remote_addr;
        detail = detail;
      }
      ∷ s.audit_log;
})

unfoldable pub record_login_attempt : Store → Time → GoString → GoString → Bool → Option Store
record_login_attempt s now username remote_addr success = when_writable s (record s {
  login_attempts =
      record {
        username = username;
        remote_addr = remote_addr;
        ts = unix now;
        success = bool_to_int success;
      }
      ∷ s.login_attempts;
})

abbrev pub is_recent_failure : GoString → Time → AttemptRow → Bool
is_recent_failure remote_addr since r =
    str_eq r.remote_addr remote_addr && not (ltb_ℤ r.ts (unix since)) && r.success == 0

unfoldable pub recent_failed_attempts : Store → GoString → Time → ℕ
unfolding count_rows
recent_failed_attempts s remote_addr since =
    count_rows (is_recent_failure remote_addr since) s.login_attempts

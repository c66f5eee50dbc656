-- ===== src/Store/Sessions.antt =====
-- The session rows: what a statement does to the row that another one reads.
use nimbus_fs.Prelude.{
  ◌==◌, Bool, true, false, not, if◌then◌else◌, ◌≡◌, refl, subst, ap, ◌∙◌, Option, none, some, List,
  [], ◌∷◌, GoString, str_eq, str_eq_iff, str_eq_refl, ℤ, Time, unix, whole_seconds, from_unix-unix,
  arith, Bool-cases, inl, inr,
}
use nimbus_fs.Store.{
  SessionRow, Session, Store, has_id, first_row, without_rows, create_session, get_session, map_row,
  session_of_row, touch_rows, touch_session, delete_session, bool_to_int, row_of_session, ignoring,
}

first_row-touch_rows :
    (id j : GoString) (seen expires : ℤ) (rs : List SessionRow)
    → first_row (has_id j) (touch_rows id seen expires rs)
      ≡ map_row
          (λ r. if has_id id r then record r { last_seen_at = seen; expires_at = expires } else r)
          (first_row (has_id j) rs)
unfolding first_row touch_rows
first_row-touch_rows id j seen expires [] = refl
first_row-touch_rows id j seen expires (r ∷ rs) = elim (Bool-cases (str_eq r.id id)) [
  | inl e ↦ rw e (elim (Bool-cases (str_eq r.id j)) [
    | inl e' ↦ rw e' (rw e refl)
    | inr e' ↦ rw e' (first_row-touch_rows id j seen expires rs)
  ])
  | inr e ↦ rw e (elim (Bool-cases (str_eq r.id j)) [
    | inl e' ↦ rw e' (rw e refl)
    | inr e' ↦ rw e' (first_row-touch_rows id j seen expires rs)
  ])
]

first_row-without_rows :
    (id j : GoString) (rs : List SessionRow)
    → first_row (has_id j) (without_rows (has_id id) rs)
      ≡ (if str_eq id j then none else first_row (has_id j) rs)
unfolding first_row without_rows
first_row-without_rows id j [] = ground arith
first_row-without_rows id j (r ∷ rs) =
    ground (
      arith,
      first_row-without_rows id j rs,
      str_eq_iff r.id id,
      str_eq_iff r.id j,
      str_eq_iff id j,
    )

-- What the database keeps of a session: times in whole seconds.
abbrev pub as_stored : Session → Session
as_stored sess = record sess {
  created_at = whole_seconds sess.created_at;
  last_seen_at = whole_seconds sess.last_seen_at;
  expires_at = whole_seconds sess.expires_at;
}

session_of_row-row_of_session :
    (sess : Session) → session_of_row (row_of_session sess) ≡ as_stored sess
unfolding session_of_row
session_of_row-row_of_session sess = rw (from_unix-unix sess.created_at) (
    rw (from_unix-unix sess.last_seen_at)
      (rw (from_unix-unix sess.expires_at) (remember_kept sess.remember)))
  where
    remember_kept :
        (b : Bool)
        → ◌≡◌ {A = Session}
            (record (as_stored sess) { remember = not (bool_to_int b == 0) })
            (record (as_stored sess) { remember = b })
    remember_kept true = refl
    remember_kept false = refl

-- INSERT puts the row first, and only into a table without its key.
pub created :
    (s s' : Store) (sess : Session)
    → create_session s sess ≡ some s'
    → s' ≡ record s { sessions = row_of_session sess ∷ s.sessions }
unfolding create_session
created s s' sess h = ground arith

-- A session that is read after it was created has the fields that it was created with, its times
-- in whole seconds.
pub get_session-create_session :
    (s s' : Store) (sess : Session)
    → create_session s sess ≡ some s'
    → get_session s' sess.id ≡ some (as_stored sess)
unfolding get_session
get_session-create_session s s' sess h =
    rw (created s s' sess h)
      (unfold first_row in rw (str_eq_refl sess.id) (ap some (session_of_row-row_of_session sess)))

first_row-id :
    (j : GoString) (rs : List SessionRow) (r : SessionRow)
    → first_row (has_id j) rs ≡ some r
    → str_eq r.id j ≡ true
unfolding first_row
first_row-id j [] r h = cc
first_row-id j (x ∷ rs) r h = elim (Bool-cases (str_eq x.id j)) [
  | inl e ↦
      let same : x ≡ r = ground arith in subst (λ (t : SessionRow). str_eq t.id j ≡ true) same e
  | inr e ↦ first_row-id j rs r (ground arith)
]

abbrev pub touched : Time → Time → Session → Session
touched seen expires sess = record sess {
  last_seen_at = whole_seconds seen;
  expires_at = whole_seconds expires;
}

touch_one :
    (id j : GoString) (seen expires : Time) (o : Option SessionRow)
    → ((r : SessionRow) → o ≡ some r → str_eq r.id j ≡ true)
    → map_row session_of_row (
        map_row
          (λ (r : SessionRow).
            if has_id id r
            then record r { last_seen_at = unix seen; expires_at = unix expires }
            else r)
          o)
      ≡ (if str_eq id j
          then map_row (touched seen expires) (map_row session_of_row o)
          else map_row session_of_row o)
unfolding session_of_row
touch_one id j seen expires none h = ground arith
touch_one id j seen expires (some r) h = elim (Bool-cases (str_eq id j)) [
  | inl e ↦
      let hit : str_eq r.id id ≡ true =
        ground (arith, h r refl, str_eq_iff r.id j, str_eq_iff r.id id, str_eq_iff id j) in
      rw e (rw hit (rw (from_unix-unix seen) (rw (from_unix-unix expires) refl)))
  | inr e ↦
      let miss : str_eq r.id id ≡ false =
        ground (arith, h r refl, str_eq_iff r.id j, str_eq_iff r.id id, str_eq_iff id j) in
      rw e (rw miss refl)
]

-- UPDATE changes the two times of the row with that id, and no other row.
pub get_session-touch_session :
    (s : Store) (id j : GoString) (seen expires : Time)
    → s.writable ≡ true
    → get_session (ignoring s (touch_session s id seen expires)) j
      ≡ (if str_eq id j then map_row (touched seen expires) (get_session s j) else get_session s j)
unfolding get_session touch_session
get_session-touch_session s id j seen expires w = rw w (
    ap (map_row session_of_row) (first_row-touch_rows id j (unix seen) (unix expires) s.sessions)
    ∙ touch_one id j seen expires (first_row (has_id j) s.sessions) (first_row-id j s.sessions))

-- After a session is deleted its id finds none, and every other id finds what it found before, if
-- the database can be written.
pub get_session-delete_session :
    (s : Store) (id j : GoString)
    → s.writable ≡ true
    → get_session (ignoring s (delete_session s id)) j
      ≡ (if str_eq id j then none else get_session s j)
unfolding get_session delete_session
get_session-delete_session s id j w =
    rw w (rw (first_row-without_rows id j s.sessions) (ground arith))

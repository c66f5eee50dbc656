-- ===== src/Store/Shares.antt =====
-- The shares table of internal/store/store.go.
use nimbus_fs.Prelude.{
  ◌+◌, ◌*◌, ◌==◌, leb, Bool, ◌&&◌, if◌then◌else◌, ◌≡◌, refl, ap, Option, none, some, List, [], ◌∷◌,
  GoString, str_eq, str_eq_refl, ℤ, pos, ltb_ℤ, Time, second, epoch, unix, from_unix, whole_seconds,
  from_unix-unix, arith,
}
use nimbus_fs.Store.{ShareRow, Store, is_taken, when_writable, map_row, first_row, without_rows}

-- `expires_at` is the zero Time, 0, if the share never expires.
pub record Share : Type 0 where
  pub token : GoString
  pub username : GoString
  pub path : GoString
  pub mode : GoString
  pub password_hash : GoString
  pub created_at : Time
  pub expires_at : Time

abbrev pub has_token : GoString → ShareRow → Bool
has_token token r = str_eq r.token token

-- The number that stands for the expiry: 0 for none.
abbrev pub stored_expiry : Time → ℤ
stored_expiry t = if t == 0 then pos 0 else unix t

-- The values that CreateShare inserts.
abbrev pub row_of_share : Share → ShareRow
row_of_share sh = record {
  token = sh.token;
  username = sh.username;
  path = sh.path;
  mode = sh.mode;
  password_hash = sh.password_hash;
  created_at = unix sh.created_at;
  expires_at = stored_expiry sh.expires_at;
}

unfoldable pub create_share : Store → Share → Option Store
create_share s sh =
    if is_taken (first_row (has_token sh.token) s.shares)
    then none
    else when_writable s (record s { shares = row_of_share sh ∷ s.shares })

-- scanShare
abbrev pub share_of_row : ShareRow → Share
share_of_row r = record {
  token = r.token;
  username = r.username;
  path = r.path;
  mode = r.mode;
  password_hash = r.password_hash;
  created_at = from_unix r.created_at;
  expires_at = if ltb_ℤ (pos 0) r.expires_at then from_unix r.expires_at else 0;
}

unfoldable pub get_share : Store → GoString → Option Share
get_share s token = map_row share_of_row (first_row (has_token token) s.shares)

-- ORDER BY created_at DESC
unfoldable pub insert_by_age : Share → List Share → List Share
insert_by_age sh [] = sh ∷ []
insert_by_age sh (x ∷ xs) =
    let rest = insert_by_age sh xs in
    if leb x.created_at sh.created_at then sh ∷ x ∷ xs else x ∷ rest

unfoldable pub shares_of : GoString → List ShareRow → List Share
unfolding insert_by_age
shares_of username [] = []
shares_of username (r ∷ rs) =
    let rest = shares_of username rs in
    if str_eq r.username username then insert_by_age (share_of_row r) rest else rest

unfoldable pub list_shares_for_user : Store → GoString → List Share
unfolding shares_of
list_shares_for_user s username = shares_of username s.shares

abbrev pub is_owned_by : GoString → GoString → ShareRow → Bool
is_owned_by token username r = str_eq r.token token && str_eq r.username username

unfoldable pub delete_share : Store → GoString → GoString → Option Store
delete_share s token username =
    when_writable s (record s { shares = without_rows (is_owned_by token username) s.shares })

-- What is read back of an expiry.
abbrev pub read_expiry : Time → Time
read_expiry t = if leb ((epoch + 1) * second) t then whole_seconds t else 0

expiry_kept :
    (t : Time)
    → (if ltb_ℤ (pos 0) (stored_expiry t) then from_unix (stored_expiry t) else 0) ≡ read_expiry t
unfolding unix from_unix
expiry_kept t = ground arith

share_of_row-row_of_share :
    (sh : Share)
    → share_of_row (row_of_share sh) ≡ record sh {
      created_at = whole_seconds sh.created_at;
      expires_at = read_expiry sh.expires_at;
    }
share_of_row-row_of_share sh =
    rw (from_unix-unix sh.created_at) (rw (expiry_kept sh.expires_at) refl)

created_share :
    (s s' : Store) (sh : Share)
    → create_share s sh ≡ some s'
    → s' ≡ record s { shares = row_of_share sh ∷ s.shares }
unfolding create_share
created_share s s' sh h = ground arith

-- A share that is read after it was created has the fields that it was created with, its times in
-- whole seconds: but an expiry up to the first second of 1970 is read as none, so that the share
-- never expires.
pub get_share-create_share :
    (s s' : Store) (sh : Share)
    → create_share s sh ≡ some s'
    → get_share s' sh.token
      ≡ some (record sh {
        created_at = whole_seconds sh.created_at;
        expires_at = read_expiry sh.expires_at;
      })
unfolding get_share
get_share-create_share s s' sh h =
    rw (created_share s s' sh h)
      (unfold first_row in rw (str_eq_refl sh.token) (ap some (share_of_row-row_of_share sh)))

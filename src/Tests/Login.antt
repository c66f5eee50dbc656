-- ===== src/Tests/Login.antt =====
-- Examples of internal/store, internal/auth and internal/config.
use nimbus_fs.Prelude.{
  Bool, true, false, ◌+◌, ◌*◌, ◌≡◌, ◌↔◌, refl, if◌then◌else◌, leb, Option, none, some, [], ◌∷◌,
  GoString, codes, str_eq, second, minute, epoch, whole_seconds, unix, from_unix, ok,
}
use nimbus_fs.Prelude.Dict.{get, put, remove}
use nimbus_fs.Config.{default, Config, validate_iff, IsUsable, no_auth_method}
use nimbus_fs.Config
use nimbus_fs.Store.{Store, Session, row_of_session, create_session, get_session, first_row}
use nimbus_fs.Store.Sessions.{as_stored}
use nimbus_fs.Store.Shares.{
  Share, row_of_share, create_share, get_share, read_expiry, get_share-create_share,
}
use nimbus_fs.Auth.SessionManager.{Cookie, lifetime, cookie_name, create, validate}
use nimbus_fs.Auth.SessionManager.Lifetime.{is_over, next_end, validate-create, validate-validate}
use nimbus_fs.Auth.Device.{
  Random, Challenge, DeviceStore, approved, empty, new_challenge, new, sweep, sweep_entries, insert,
  by_code, by_poll_token, approve, consume, unless_expired, max_verify_attempts,
}
use nimbus_fs.Auth.Device.Invariant.{Inv, Step, Reach, Reach-Inv}
use nimbus_fs.Auth.Device.Attempts.{
  register_times, five_failures, consume_single_use, by_poll_token-approve,
}
use nimbus_fs.Tests.Fixture.{noon, store}

abbrev session : Session
session = record {
  id = codes "t1";
  username = codes "ann";
  created_at = noon;
  last_seen_at = noon;
  expires_at = noon + 30 * minute;
  remember = false;
}

abbrev with_session : Store
with_session = record store { sessions = row_of_session session ∷ [] }

session_stored : create_session store session ≡ some with_session
unfolding create_session first_row
session_stored = refl

abbrev cookie : Cookie
cookie = record {
  name = cookie_name;
  value = codes "t1";
  path = codes "/";
  http_only = true;
  secure = false;
  lax = true;
  expires = none;
}

created :
    create store (some (codes "t1")) noon (codes "ann") false false ≡ some (cookie, with_session)
unfolding create create_session first_row
created = refl

validate-create_example : (validate with_session (codes "t1") (noon + minute)).0 ≡ (
    if leb (noon + minute) (whole_seconds noon + lifetime false) then some (codes "ann") else none)
validate-create_example =
    validate-create store with_session (codes "t1") (codes "ann") noon (noon + minute) false false
      cookie created

session_found : get_session with_session (codes "t1") ≡ some (as_stored session)
unfolding get_session first_row str_eq from_unix unix
session_found = refl

validate-validate_example :
    (validate (validate with_session (codes "t1") noon).1 (codes "t1") (noon + minute)).0 ≡ (
      if is_over (as_stored session) noon
      then none
      else if leb (noon + minute) (next_end (as_stored session) noon)
      then some (codes "ann")
      else none)
validate-validate_example =
    validate-validate with_session (codes "t1") (as_stored session) noon (noon + minute) refl
      session_found

-- A share that expires at the start of 1970.
abbrev share : Share
share = record {
  token = codes "tok";
  username = codes "ann";
  path = codes "/d";
  mode = codes "both";
  password_hash = [];
  created_at = noon;
  expires_at = epoch * second;
}

abbrev with_share : Store
with_share = record store { shares = row_of_share share ∷ [] }

share_stored : create_share store share ≡ some with_share
unfolding create_share first_row
share_stored = refl

get_share-create_share_example :
    get_share with_share (codes "tok")
    ≡ some (record share {
      created_at = whole_seconds noon;
      expires_at = read_expiry (epoch * second);
    })
get_share-create_share_example = get_share-create_share store with_share share share_stored

never_expires : read_expiry (epoch * second) ≡ 0
never_expires = refl

abbrev folder : GoString → Option Bool
folder p = some true

validate_iff_example : (nimbus_fs.Config.validate folder default ≡ ok tt) ↔ IsUsable folder default
validate_iff_example = validate_iff folder default

abbrev random : Random
random = record { nonce = codes "n"; code_raw = codes "abcdefghij"; token = codes "poll" }

abbrev challenge : Challenge
challenge = new_challenge random (codes "ann") noon

abbrev devices : DeviceStore
devices = insert empty challenge

devices-Reach : Reach devices
unfolding new sweep sweep_entries
devices-Reach = Reach.next Reach.start (Step.starts random (codes "ann") noon challenge refl)

Reach-Inv_example : Inv devices
Reach-Inv_example = Reach-Inv devices-Reach

five_failures_example :
    by_code (register_times max_verify_attempts devices (codes "abcdefgh")) (codes "abcdefgh") noon
    ≡ none
five_failures_example = five_failures devices (codes "abcdefgh") noon devices-Reach

consume_single_use_example :
    (by_poll_token (consume devices (codes "poll")) (codes "poll") noon ≡ none)
    × (by_code (consume devices (codes "poll")) (codes "abcdefgh") noon ≡ none)
unfolding get put remove str_eq
consume_single_use_example =
    consume_single_use devices (codes "poll") 0 challenge noon devices-Reach refl refl

by_poll_token-approve_example :
    by_poll_token (approve devices (codes "abcdefgh")).1 (codes "poll") noon
    ≡ unless_expired noon (some (0, record challenge { status = approved }))
unfolding get put remove str_eq
by_poll_token-approve_example =
    by_poll_token-approve devices (codes "abcdefgh") (codes "poll") 0 0 challenge challenge noon
      refl refl refl refl

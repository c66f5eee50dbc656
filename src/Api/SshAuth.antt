-- ===== src/Api/SshAuth.antt =====
-- internal/api/sshauth.go: the login by SSH key, of which the browser starts and polls, and the
-- command line fetches the challenge and answers it. A handler runs to its end before the next one.
pub mod Calls
pub mod Signed
use nimbus_fs.Prelude.{
  ℕ, ◌-◌, ◌/◌, leb, Bool, true, false, ◌||◌, if◌then◌else◌, Option, none, some, List, [], ◌∷◌, map,
  GoString, codes, str_eq, minute, second, Result, ok, err,
}
use nimbus_fs.Config.{is_empty}
use nimbus_fs.Fsops.Access.{Identity}
use nimbus_fs.Fsops.Impersonate.{LookupError, lookup_identity}
use nimbus_fs.Store.{Store, recent_failed_attempts}
use nimbus_fs.Auth.SessionManager.{Cookie, create}
use nimbus_fs.Auth.Device.{
  Status, approved, pending, Challenge, DeviceStore, device_code_ttl, new, by_code, by_poll_token,
  register_attempt, approve, consume,
}
use nimbus_fs.Auth.Keys.{PublicKey, KeysError, load_authorized_keys}
use nimbus_fs.Api.{
  Request, Response, ssh_started, ssh_pending, ssh_approved, ssh_signed, ssh_device, Env, App,
  Handler, write_json, write_error, set_cookie, client_ip, audited,
}
use nimbus_fs.Api.Middleware.{csrf_cookie}
use nimbus_fs.Api.Login.{max_login_attempts_per_minute}

-- sshRespondRequest
pub record RespondRequest : Type 0 where
  pub code : GoString
  pub public_key : GoString
  pub sig_format : GoString
  pub signature : GoString

abbrev pub code_unknown : Response
code_unknown = write_error 404 (codes "code expired or unknown")

-- keyIsAuthorized
unfoldable pub key_is_authorized : PublicKey → List PublicKey → Bool
key_is_authorized candidate [] = false
key_is_authorized candidate (k ∷ ks) = str_eq k candidate || key_is_authorized candidate ks

-- The test of SSHPoll, which does not fold the case of the header.
abbrev pub is_https : Request → Bool
is_https r = r.tls || str_eq (r.header (codes "X-Forwarded-Proto")) (codes "https")

module _ {S : Type 0} (env : Env S) where
  abbrev pub started : App S → Option (Challenge × DeviceStore) → Response × App S
  started app none = (write_error 500 (codes "could not start ssh login"), app)
  started app (some (c, devices)) = (
    write_json 200 (ssh_started c.user_code c.poll_token (device_code_ttl / second)),
    record app { devices = devices },
  )

  abbrev pub start_keyed : GoString → App S → Result KeysError (List PublicKey) → Response × App S
  start_keyed username app (err e) =
      (write_error 400 (codes "no usable SSH keys configured for this account"), app)
  start_keyed username app (ok ks) =
      started app (new app.devices env.device_random username env.now)

  abbrev pub start_known : GoString → App S → Result LookupError Identity → Response × App S
  start_known username app (err e) = (write_error 400 (codes "unknown system user"), app)
  start_known username app (ok id) =
      start_keyed username app (load_authorized_keys env.key_files username)

  unfoldable pub start_with : GoString → Handler S
  start_with username r app =
      if is_empty username
      then (write_error 400 (codes "username is required"), app)
      else if leb max_login_attempts_per_minute
          (recent_failed_attempts app.store (client_ip r) (env.now - minute))
      then (write_error 429 (codes "too many login attempts, try again later"), app)
      else start_known username app (lookup_identity env.accounts username)

  abbrev pub start_decoded : Option GoString → Handler S
  start_decoded none r app = (write_error 400 (codes "username is required"), app)
  start_decoded (some username) r app = start_with username r app

  -- SSHStart, with the user name of the decoded body.
  unfoldable pub ssh_start : Option GoString → Handler S
  ssh_start body r app =
      if env.config.auth.ssh_keys
      then start_decoded body r app
      else (write_error 404 (codes "ssh key auth is disabled"), app)

  abbrev pub session_started :
      GoString → Challenge → Request → App S → Option (Cookie × Store) → Response × App S
  session_started token c r app none = (write_error 500 (codes "could not create session"), app)
  session_started token c r app (some (cookie, st)) = (
    set_cookie cookie (
        set_cookie (csrf_cookie env.csrf_token (is_https r))
          (write_json 200 (ssh_approved c.username))),
    audited env c.username (codes "login_ssh") [] (client_ip r) []
        (record app { store = st; devices = consume app.devices token }),
  )

  abbrev pub poll_status : GoString → Challenge → Status → Handler S
  poll_status token c pending r app = (write_json 200 ssh_pending, app)
  poll_status token c approved r app =
      session_started token c r app
        (create app.store env.session_token env.now c.username false (is_https r))

  abbrev pub poll_found : GoString → Option Challenge → Handler S
  poll_found token none r app = (code_unknown, app)
  poll_found token (some c) r app = poll_status token c c.status r app

  -- SSHPoll
  unfoldable pub ssh_poll : Handler S
  ssh_poll r app =
      let token = r.query (codes "pollToken") in
      if is_empty token
      then (write_error 400 (codes "pollToken is required"), app)
      else poll_found token (by_poll_token app.devices token env.now) r app

  abbrev pub device_keys : Challenge → Result KeysError (List PublicKey) → Response
  device_keys c (err e) = write_error 500 (codes "could not load authorized keys")
  device_keys c (ok ks) =
      write_json 200 (ssh_device c.username (env.ssh.encode c.nonce) (map env.ssh.fingerprint ks))

  abbrev pub device_found : Option Challenge → Response
  device_found none = code_unknown
  device_found (some c) = device_keys c (load_authorized_keys env.key_files c.username)

  -- SSHDeviceInfo
  unfoldable pub ssh_device_info : Handler S
  ssh_device_info r app = (device_found (by_code app.devices (r.query (codes "code")) env.now), app)

  abbrev pub attempt_failed : App S → ℕ × Bool × DeviceStore → Response × App S
  attempt_failed app (left, goes_on, devices) = (
    if goes_on
        then write_error 401 (codes "signature verification failed")
        else write_error 429 (codes "too many failed attempts, request a new code"),
    record app { devices = devices },
  )

  -- registerFailedAttempt
  abbrev pub register_failed_attempt : GoString → App S → Response × App S
  register_failed_attempt code app = attempt_failed app (register_attempt app.devices code)

  -- The signature over the nonce of a key that is one of the user's.
  abbrev pub is_signed : RespondRequest → Challenge → PublicKey → List PublicKey → GoString → Bool
  is_signed req c candidate keys blob =
      if key_is_authorized candidate keys
      then env.ssh.verify candidate c.nonce req.sig_format blob
      else false

  abbrev pub respond_loaded :
      RespondRequest
      → Challenge
      → PublicKey
      → GoString
      → App S
      → Result KeysError (List PublicKey)
      → Response × App S
  respond_loaded req c candidate blob app (err e) =
      (write_error 500 (codes "could not load authorized keys"), app)
  respond_loaded req c candidate blob app (ok keys) =
      if is_signed req c candidate keys blob
      then (
        write_json 200 (ssh_signed c.username),
        record app { devices = (approve app.devices req.code).1 },
      )
      else register_failed_attempt req.code app

  abbrev pub respond_parsed :
      RespondRequest → Challenge → GoString → App S → Option PublicKey → Response × App S
  respond_parsed req c blob app none = (write_error 400 (codes "invalid public key"), app)
  respond_parsed req c blob app (some candidate) =
      respond_loaded req c candidate blob app (load_authorized_keys env.key_files c.username)

  abbrev pub respond_decoded :
      RespondRequest → Challenge → App S → Option GoString → Option GoString → Response × App S
  respond_decoded req c app none sig = (write_error 400 (codes "invalid public key encoding"), app)
  respond_decoded req c app (some key) none =
      (write_error 400 (codes "invalid signature encoding"), app)
  respond_decoded req c app (some key) (some blob) =
      respond_parsed req c blob app (env.ssh.parse_public_key key)

  abbrev pub respond_found : RespondRequest → App S → Option Challenge → Response × App S
  respond_found req app none = (code_unknown, app)
  respond_found req app (some c) =
      respond_decoded req c app (env.ssh.decode req.public_key) (env.ssh.decode req.signature)

  -- SSHRespond
  unfoldable pub ssh_respond : Option RespondRequest → Handler S
  ssh_respond none r app = (write_error 400 (codes "invalid request body"), app)
  ssh_respond (some req) r app = respond_found req app (by_code app.devices req.code env.now)

-- ===== src/Server/Safe/Logins.antt =====
-- internal/api/api.go and sshauth.go: the handlers that log in and out keep the server safe.
use nimbus_fs.Prelude.{◌||◌, Option, none, some, List, GoString, codes, ℤ, Result, ok, err}
use nimbus_fs.Config.{is_empty}
use nimbus_fs.Fsops.Access.{Identity}
use nimbus_fs.Fsops.Impersonate.{LookupError}
use nimbus_fs.Fsops.Impersonate.Restores.{SetsCreds, MayRestore}
use nimbus_fs.Store.{Store}
use nimbus_fs.Api.{Request, Env, App, Handler, audited}
use nimbus_fs.Api.Files.Confined.{IsSafe, Keeps}
use nimbus_fs.Auth.SessionManager.{Cookie}
use nimbus_fs.Auth.Keys.{PublicKey, KeysError}
use nimbus_fs.Auth.Device.{Challenge, Status, pending, approved, DeviceStore}
use nimbus_fs.Api.Login.{
  LoginRequest, logged_in, start_session, check_login, login_with, login_decoded, login, logout,
}
use nimbus_fs.Api.SshAuth.{
  RespondRequest, started, start_keyed, start_known, start_with, start_decoded, ssh_start,
  session_started, poll_status, poll_found, ssh_poll, is_signed, respond_loaded, respond_parsed,
  respond_decoded, respond_found, ssh_respond,
}
use nimbus_fs.Server.Safe.Middleware.{branch}

module _ {S : Type 0} (env : Env S) (rs : List GoString) (groups : List ℤ)
    (sets : SetsCreds env.kernel) (may : MayRestore env.kernel groups) where
  abbrev pub Kept : Handler S → Type 0
  Kept h = (r : Request) → Keeps env rs groups sets may (h r)

  logged_in-IsSafe :
      (req : LoginRequest) (r : Request) (app : App S) (o : Option (Cookie × Store))
      → IsSafe rs groups app
      → IsSafe rs groups (logged_in env req r app o).1
  unfolding audited
  logged_in-IsSafe req r app none safe = safe
  logged_in-IsSafe req r app (some (c, st)) safe = safe

  start_session-IsSafe :
      (req : LoginRequest) (r : Request) (app : App S) (found : Result LookupError Identity)
      → IsSafe rs groups app
      → IsSafe rs groups (start_session env req r app found).1
  start_session-IsSafe req r app (err e) safe = safe
  start_session-IsSafe req r app (ok id) safe = logged_in-IsSafe req r app _ safe

  check_login-Kept : (req : LoginRequest) → Kept (check_login env req)
  unfolding check_login audited
  check_login-Kept req r app safe =
      branch rs groups (is_empty req.username || is_empty req.password) _ _ safe (
        branch rs groups (env.authenticate req.username req.password) _ _
          (start_session-IsSafe req r _ _ safe) safe)

  login_decoded-Kept : (body : Option LoginRequest) → Kept (login_decoded env body)
  unfolding login_with
  login_decoded-Kept none r app safe = safe
  login_decoded-Kept (some req) r app safe =
      branch rs groups _ _ _ safe (check_login-Kept req r app safe)

  pub login-Kept : (body : Option LoginRequest) → Kept (login env body)
  unfolding login
  login-Kept body r app safe =
      branch rs groups env.config.auth.pam _ _ (login_decoded-Kept body r app safe) safe

  pub logout-Kept : (username : GoString) → Kept (logout env username)
  unfolding logout audited
  logout-Kept username r app safe = safe

  started-IsSafe :
      (app : App S) (o : Option (Challenge × DeviceStore))
      → IsSafe rs groups app
      → IsSafe rs groups (started env app o).1
  started-IsSafe app none safe = safe
  started-IsSafe app (some (c, devices)) safe = safe

  start_keyed-IsSafe :
      (username : GoString) (app : App S) (ks : Result KeysError (List PublicKey))
      → IsSafe rs groups app
      → IsSafe rs groups (start_keyed env username app ks).1
  start_keyed-IsSafe username app (err e) safe = safe
  start_keyed-IsSafe username app (ok ks) safe = started-IsSafe app _ safe

  start_known-IsSafe :
      (username : GoString) (app : App S) (found : Result LookupError Identity)
      → IsSafe rs groups app
      → IsSafe rs groups (start_known env username app found).1
  start_known-IsSafe username app (err e) safe = safe
  start_known-IsSafe username app (ok id) safe = start_keyed-IsSafe username app _ safe

  start_decoded-Kept : (body : Option GoString) → Kept (start_decoded env body)
  unfolding start_with
  start_decoded-Kept none r app safe = safe
  start_decoded-Kept (some username) r app safe =
      branch rs groups (is_empty username) _ _ safe
        (branch rs groups _ _ _ safe (start_known-IsSafe username app _ safe))

  pub ssh_start-Kept : (body : Option GoString) → Kept (ssh_start env body)
  unfolding ssh_start
  ssh_start-Kept body r app safe =
      branch rs groups env.config.auth.ssh_keys _ _ (start_decoded-Kept body r app safe) safe

  session_started-IsSafe :
      (token : GoString) (c : Challenge) (r : Request) (app : App S) (o : Option (Cookie × Store))
      → IsSafe rs groups app
      → IsSafe rs groups (session_started env token c r app o).1
  unfolding audited
  session_started-IsSafe token c r app none safe = safe
  session_started-IsSafe token c r app (some (cookie, st)) safe = safe

  poll_status-IsSafe :
      (token : GoString) (c : Challenge) (s : Status) (r : Request) (app : App S)
      → IsSafe rs groups app
      → IsSafe rs groups (poll_status env token c s r app).1
  poll_status-IsSafe token c pending r app safe = safe
  poll_status-IsSafe token c approved r app safe = session_started-IsSafe token c r app _ safe

  poll_found-IsSafe :
      (token : GoString) (o : Option Challenge) (r : Request) (app : App S)
      → IsSafe rs groups app
      → IsSafe rs groups (poll_found env token o r app).1
  poll_found-IsSafe token none r app safe = safe
  poll_found-IsSafe token (some c) r app safe = poll_status-IsSafe token c c.status r app safe

  pub ssh_poll-Kept : Kept (ssh_poll env)
  unfolding ssh_poll
  ssh_poll-Kept r app safe =
      branch rs groups (is_empty (r.query (codes "pollToken"))) _ _ safe
        (poll_found-IsSafe _ _ r app safe)

  respond_loaded-IsSafe :
      (req : RespondRequest) (c : Challenge) (candidate : PublicKey) (blob : GoString) (app : App S)
      (ks : Result KeysError (List PublicKey))
      → IsSafe rs groups app
      → IsSafe rs groups (respond_loaded env req c candidate blob app ks).1
  respond_loaded-IsSafe req c candidate blob app (err e) safe = safe
  respond_loaded-IsSafe req c candidate blob app (ok keys) safe =
      branch rs groups (is_signed env req c candidate keys blob) _ _ safe safe

  respond_parsed-IsSafe :
      (req : RespondRequest) (c : Challenge) (blob : GoString) (app : App S)
      (key : Option PublicKey)
      → IsSafe rs groups app
      → IsSafe rs groups (respond_parsed env req c blob app key).1
  respond_parsed-IsSafe req c blob app none safe = safe
  respond_parsed-IsSafe req c blob app (some candidate) safe =
      respond_loaded-IsSafe req c candidate blob app _ safe

  respond_decoded-IsSafe :
      (req : RespondRequest) (c : Challenge) (app : App S) (key sig : Option GoString)
      → IsSafe rs groups app
      → IsSafe rs groups (respond_decoded env req c app key sig).1
  respond_decoded-IsSafe req c app none sig safe = safe
  respond_decoded-IsSafe req c app (some key) none safe = safe
  respond_decoded-IsSafe req c app (some key) (some blob) safe =
      respond_parsed-IsSafe req c blob app _ safe

  respond_found-IsSafe :
      (req : RespondRequest) (app : App S) (o : Option Challenge)
      → IsSafe rs groups app
      → IsSafe rs groups (respond_found env req app o).1
  respond_found-IsSafe req app none safe = safe
  respond_found-IsSafe req app (some c) safe = respond_decoded-IsSafe req c app _ _ safe

  pub ssh_respond-Kept : (body : Option RespondRequest) → Kept (ssh_respond env body)
  unfolding ssh_respond
  ssh_respond-Kept none r app safe = safe
  ssh_respond-Kept (some req) r app safe = respond_found-IsSafe req app _ safe

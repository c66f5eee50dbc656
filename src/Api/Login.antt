-- ===== src/Api/Login.antt =====
-- internal/api/api.go: Login, Logout and Me.
pub mod RateLimit
use nimbus_fs.Prelude.{
  ℕ, ◌-◌, leb, Bool, true, false, ◌||◌, not, if◌then◌else◌, Option, none, some, List, [], ◌∷◌,
  GoString, codes, minute, Result, ok, err,
}
use nimbus_fs.Config.{is_empty}
use nimbus_fs.Fsops.Access.{Identity}
use nimbus_fs.Fsops.Impersonate.{LookupError, lookup_identity}
use nimbus_fs.Store.{Store, ignoring, recent_failed_attempts, record_login_attempt}
use nimbus_fs.Auth.SessionManager.{Cookie, cookie_name, create, destroy}
use nimbus_fs.Api.{
  Request, Response, user, status_ok, Env, App, Handler, UserHandler, write_json, write_error,
  set_cookie, client_ip, is_secure, audited,
}
use nimbus_fs.Api.Middleware.{csrf_cookie}

pub record LoginRequest : Type 0 where
  pub username : GoString
  pub password : GoString
  pub remember : Bool

abbrev pub max_login_attempts_per_minute : ℕ
max_login_attempts_per_minute = 5

module _ {S : Type 0} (env : Env S) where
  abbrev pub logged_in : LoginRequest → Request → App S → Option (Cookie × Store) → Response × App S
  logged_in req r app none = (write_error 500 (codes "could not create session"), app)
  logged_in req r app (some (c, st)) = (
    set_cookie c (
        set_cookie (csrf_cookie env.csrf_token (is_secure r)) (write_json 200 (user req.username))),
    audited env req.username (codes "login") [] (client_ip r) [] (record app { store = st }),
  )

  abbrev pub start_session :
      LoginRequest → Request → App S → Result LookupError Identity → Response × App S
  start_session req r app (err e) = (write_error 401 (codes "unknown system user"), app)
  start_session req r app (ok id) =
      logged_in req r app
        (create app.store env.session_token env.now req.username req.remember (is_secure r))

  -- RecordLoginAttempt, whose error is ignored.
  abbrev pub attempt_recorded : LoginRequest → Request → Bool → App S → App S
  attempt_recorded req r success app = record app {
    store =
        ignoring app.store
          (record_login_attempt app.store env.now req.username (client_ip r) success);
  }

  -- The part of Login behind the rate limit.
  unfoldable pub check_login : LoginRequest → Handler S
  check_login req r app =
      if is_empty req.username || is_empty req.password
      then (write_error 400 (codes "username and password are required"), app)
      else if env.authenticate req.username req.password
      then start_session req r (attempt_recorded req r true app)
          (lookup_identity env.accounts req.username)
      else (
        write_error 401 (codes "invalid username or password"),
        audited env req.username (codes "login_failed") [] (client_ip r) []
            (attempt_recorded req r false app),
      )

  unfoldable pub login_with : LoginRequest → Handler S
  login_with req r app =
      if leb max_login_attempts_per_minute
        (recent_failed_attempts app.store (client_ip r) (env.now - minute))
      then (write_error 429 (codes "too many login attempts, try again later"), app)
      else check_login req r app

  abbrev pub login_decoded : Option LoginRequest → Handler S
  login_decoded none r app = (write_error 400 (codes "invalid request body"), app)
  login_decoded (some req) r app = login_with req r app

  -- Login
  unfoldable pub login : Option LoginRequest → Handler S
  login body r app =
      if env.config.auth.pam
      then login_decoded body r app
      else (write_error 404 (codes "password login is disabled"), app)

  -- The cookie that removes the session cookie: MaxAge is -1, so that it has expired.
  abbrev pub cleared_cookie : Cookie
  cleared_cookie = record {
    name = cookie_name;
    value = [];
    path = codes "/";
    http_only = false;
    secure = false;
    lax = false;
    expires = some 0;
  }

  abbrev pub destroyed : Option GoString → Store → Store
  destroyed none st = st
  destroyed (some token) st = ignoring st (destroy st token)

  -- Logout
  unfoldable pub logout : UserHandler S
  logout username r app = (
    set_cookie cleared_cookie (write_json 200 status_ok),
    audited env username (codes "logout") [] (client_ip r) []
        (record app { store = destroyed (r.cookie cookie_name) app.store }),
  )

  -- Me
  unfoldable pub me : UserHandler S
  me username r app = (write_json 200 (user username), app)

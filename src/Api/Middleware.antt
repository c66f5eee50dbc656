-- ===== src/Api/Middleware.antt =====
-- internal/api/api.go: RequireAuth, RequireCSRF and the CSRF cookie, around a handler that is a
-- parameter.
pub mod Guards
use nimbus_fs.Prelude.{
  ℕ, Bool, true, false, ◌&&◌, ◌||◌, not, if◌then◌else◌, Option, none, some, List, [], ◌∷◌, GoString,
  codes, str_eq, Result, ok, err,
}
use nimbus_fs.Config.{is_empty}
use nimbus_fs.Fsops.Access.{Identity}
use nimbus_fs.Fsops.Impersonate.{LookupError, lookup_identity}
use nimbus_fs.Auth.SessionManager.{Cookie, cookie_name, validate}
use nimbus_fs.Store.{Store}
use nimbus_fs.Api.{
  Request, Response, Env, App, Handler, UserHandler, write_error, set_cookie, is_secure,
}

abbrev pub csrf_cookie_name : GoString
csrf_cookie_name = codes "nimbusfs_csrf"

abbrev pub csrf_header_name : GoString
csrf_header_name = codes "X-CSRF-Token"

abbrev pub proxy_auth_header : GoString
proxy_auth_header = codes "X-Remote-User"

-- The methods that RequireCSRF checks.
unfoldable pub changes_state : GoString → Bool
changes_state m =
    str_eq m (codes "POST")
    || str_eq m (codes "PUT")
    || str_eq m (codes "PATCH")
    || str_eq m (codes "DELETE")

-- setCSRFCookie
abbrev pub csrf_cookie : GoString → Bool → Cookie
csrf_cookie token secure = record {
  name = csrf_cookie_name;
  value = token;
  path = codes "/";
  http_only = false;
  secure = secure;
  lax = true;
  expires = none;
}

abbrev pub or_empty : Option GoString → GoString
or_empty none = []
or_empty (some s) = s

-- ensureCSRFCookie: the cookie is added to the answer of the handler that runs after it.
unfoldable pub ensure_csrf_cookie : Request → GoString → Response → Response
ensure_csrf_cookie r token resp =
    if is_empty (or_empty (r.cookie csrf_cookie_name))
    then set_cookie (csrf_cookie token (is_secure r)) resp
    else resp

module _ {S : Type 0} where
  -- RequireCSRF
  unfoldable pub require_csrf : Handler S → Handler S
  require_csrf next r app =
      let cookie = or_empty (r.cookie csrf_cookie_name) in
      if changes_state r.method
      then if is_empty cookie
        then (write_error 403 (codes "missing csrf token"), app)
        else if str_eq (r.header csrf_header_name) cookie
        then next r app
        else (write_error 403 (codes "invalid csrf token"), app)
      else next r app

module _ {S : Type 0} (env : Env S) (next : UserHandler S) (r : Request) (app : App S) where
  -- The handler runs as `username`, behind ensureCSRFCookie.
  abbrev pub serve_as : GoString → App S → Response × App S
  serve_as username app' =
      let (resp, app'') = next username r app' in (ensure_csrf_cookie r env.csrf_token resp, app'')

  abbrev pub serve_proxied : GoString → Result LookupError Identity → Response × App S
  serve_proxied username (err e) = (write_error 401 (codes "unknown system user"), app)
  serve_proxied username (ok id) = serve_as username app

  abbrev pub serve_validated : Option GoString → App S → Response × App S
  serve_validated none app' = (write_error 401 (codes "session expired"), app')
  serve_validated (some username) app' = serve_as username app'

  abbrev pub serve_session : Option GoString → Response × App S
  serve_session none = (write_error 401 (codes "not authenticated"), app)
  serve_session (some token) =
      let (user, st) = validate app.store token env.now in
      serve_validated user (record app { store = st })

  -- RequireAuth
  unfoldable pub require_auth : Response × App S
  require_auth =
      let remote_user = r.header proxy_auth_header in
      if env.config.auth.proxy_auth && not (is_empty remote_user)
      then serve_proxied remote_user (lookup_identity env.accounts remote_user)
      else serve_session (r.cookie cookie_name)

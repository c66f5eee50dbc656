-- ===== src/Server/Safe/Middleware.antt =====
-- internal/api/api.go: RequireAuth and RequireCSRF around a handler that keeps the server safe.
use nimbus_fs.Prelude.{
  Bool, true, false, ◌&&◌, not, if◌then◌else◌, Option, none, some, List, GoString, str_eq, ℤ,
  Result, ok, err,
}
use nimbus_fs.Config.{is_empty}
use nimbus_fs.Fsops.Access.{Identity}
use nimbus_fs.Fsops.Impersonate.{LookupError, lookup_identity}
use nimbus_fs.Fsops.Impersonate.Restores.{SetsCreds, MayRestore}
use nimbus_fs.Store.{Store}
use nimbus_fs.Api.{Request, Response, Env, App, Handler, UserHandler}
use nimbus_fs.Api.Files.Confined.{IsSafe, Keeps}
use nimbus_fs.Auth.SessionManager.{cookie_name}
use nimbus_fs.Api.Middleware.{
  csrf_cookie_name, csrf_header_name, proxy_auth_header, changes_state, or_empty, require_csrf,
  serve_validated, serve_session, serve_proxied, require_auth,
}

-- One of two safe results.
pub branch :
    {S : Type 0} (rs : List GoString) (groups : List ℤ) (b : Bool) (x y : Response × App S)
    → IsSafe rs groups x.1
    → IsSafe rs groups y.1
    → IsSafe rs groups (if b then x else y).1
branch rs groups true x y hx hy = hx
branch rs groups false x y hx hy = hy

module _ {S : Type 0} (env : Env S) (rs : List GoString) (groups : List ℤ)
    (sets : SetsCreds env.kernel) (may : MayRestore env.kernel groups) where
  pub require_csrf-Keeps :
      (h : Handler S) (r : Request)
      → Keeps env rs groups sets may (h r)
      → Keeps env rs groups sets may (require_csrf h r)
  unfolding require_csrf
  require_csrf-Keeps h r k app safe =
      branch rs groups (changes_state r.method) _ _
        (branch rs groups (is_empty (or_empty (r.cookie csrf_cookie_name))) _ _ safe (
          branch rs groups
            (str_eq (r.header csrf_header_name) (or_empty (r.cookie csrf_cookie_name))) _ _
            (k app safe) safe))
        (k app safe)

  pub require_auth-Keeps :
      (h : UserHandler S) (r : Request)
      → ((username : GoString) → Keeps env rs groups sets may (h username r))
      → Keeps env rs groups sets may (require_auth env h r)
  unfolding require_auth
  require_auth-Keeps h r k app safe =
      branch rs groups (env.config.auth.proxy_auth && not (is_empty (r.header proxy_auth_header))) _
        _ (proxied (lookup_identity env.accounts (r.header proxy_auth_header)))
        (by_cookie (r.cookie cookie_name))
    where
      proxied :
          (found : Result LookupError Identity)
          → IsSafe rs groups (serve_proxied env h r app (r.header proxy_auth_header) found).1
      proxied (err e) = safe
      proxied (ok id) = k (r.header proxy_auth_header) app safe

      validated :
          (user : Option GoString) (st : Store)
          → IsSafe rs groups (serve_validated env h r app user (record app { store = st })).1
      validated none st = safe
      validated (some username) st = k username (record app { store = st }) safe

      by_cookie : (cookie : Option GoString) → IsSafe rs groups (serve_session env h r app cookie).1
      by_cookie none = safe
      by_cookie (some token) = validated _ _

-- ===== src/Api/Middleware/Guards.antt =====
-- internal/api/api.go: when RequireAuth and RequireCSRF let a handler run.
use nimbus_fs.Prelude.{
  Bool, if◌then◌else◌, true, false, not, ◌&&◌, ◌≡◌, ◌⊎◌, refl, inl, inr, Option, none, some,
  Option-cases, Bool-cases, GoString, str_eq, str_eq_iff, Result, ok, err, arith,
}
use nimbus_fs.Config.{is_empty}
use nimbus_fs.Fsops.Access.{Identity}
use nimbus_fs.Fsops.Impersonate.{LookupError, lookup_identity}
use nimbus_fs.Auth.SessionManager.{cookie_name, validate}
use nimbus_fs.Store.{Store}
use nimbus_fs.Api.{Request, Response, Env, App, Handler, UserHandler}
use nimbus_fs.Api.Middleware.{
  csrf_cookie_name, csrf_header_name, proxy_auth_header, changes_state, require_csrf, serve_as,
  serve_validated, serve_session, serve_proxied, require_auth,
}

-- The header repeats the cookie, which is not empty.
abbrev pub HasCsrfToken : Request → Type 0
HasCsrfToken r =
    (token : GoString) × (r.cookie csrf_cookie_name ≡ some token)
    × (is_empty token ≡ false)
    × (r.header csrf_header_name ≡ token)

-- RequireCSRF runs its handler on a request that changes no state or that repeats a nonempty cookie in
-- the header; every other request is answered 403, and nothing is changed.
pub require_csrf_lem :
    {S : Type 0} (next : Handler S) (r : Request) (app : App S)
    → (((changes_state r.method ≡ false) ⊎ HasCsrfToken r) × (require_csrf next r app ≡ next r app))
      ⊎ (((require_csrf next r app).0.status ≡ 403) × ((require_csrf next r app).1 ≡ app))
unfolding require_csrf
require_csrf_lem next r app = elim (Bool-cases (changes_state r.method)) [
  | inl e ↦ rw e (elim (Option-cases (r.cookie csrf_cookie_name)) [
    | inl c ↦ rw c (inr (refl, refl))
    | inr (token, c) ↦ rw c (elim (Bool-cases (is_empty token)) [
      | inl m ↦ rw m (inr (refl, refl))
      | inr m ↦ rw m (elim (Bool-cases (str_eq (r.header csrf_header_name) token)) [
        | inl q ↦ rw q (inl (inr (token, refl, m, (str_eq_iff _ _).0 q), refl))
        | inr q ↦ rw q (inr (refl, refl))
      ])
    ])
  ])
  | inr e ↦ rw e (inl (inl refl, refl))
]

-- The proxy's header names an account, where the configuration trusts it.
abbrev pub IsProxied : {S : Type 0} → Env S → Request → GoString → Type 0
IsProxied env r username =
    (env.config.auth.proxy_auth ≡ true)
    × (r.header proxy_auth_header ≡ username)
    × (is_empty username ≡ false)
    × ((id : Identity) × (lookup_identity env.accounts username ≡ ok id))

-- The session cookie is that of a valid session of the user.
abbrev pub HasSession : {S : Type 0} → Env S → Request → Store → GoString → Store → Type 0
HasSession env r st username st' =
    (token : GoString) × (r.cookie cookie_name ≡ some token)
    × (validate st token env.now ≡ (some username, st'))

-- RequireAuth goes by the proxy's header: the configuration trusts it and it is not empty.
abbrev pub goes_by_proxy : {S : Type 0} → Env S → Request → Bool
goes_by_proxy env r = env.config.auth.proxy_auth && not (is_empty (r.header proxy_auth_header))

-- The request has no user: the proxy's header is no account; or it does not count, and there is no
-- session cookie, or Validate refuses it.
abbrev pub IsAnonymous : {S : Type 0} → Env S → Request → Store → Store → Type 0
IsAnonymous env r st st' =
    ((goes_by_proxy env r ≡ true)
      × ((e : LookupError) × (lookup_identity env.accounts (r.header proxy_auth_header) ≡ err e))
      × (st' ≡ st))
    ⊎ ((goes_by_proxy env r ≡ false)
        × (((r.cookie cookie_name ≡ none) × (st' ≡ st))
            ⊎ ((token : GoString) × (r.cookie cookie_name ≡ some token)
                × (validate st token env.now ≡ (none, st')))))

-- The handler ran once, as a user of the request; or the request has none, the answer is 401, and only
-- the session has changed.
abbrev pub IsGuarded :
    {S : Type 0} → Env S → UserHandler S → Request → App S → Response × App S → Type 0
IsGuarded env next r app result =
    ((username : GoString) × (st : Store) × ((IsProxied env r username × (st ≡ app.store))
        ⊎ ((goes_by_proxy env r ≡ false) × HasSession env r app.store username st))
      × (result ≡ serve_as env next r app username (record app { store = st })))
    ⊎ ((st : Store) × IsAnonymous env r app.store st
        × (result.0.status ≡ 401)
        × (result.1 ≡ record app { store = st }))

module _ {S : Type 0} (env : Env S) (next : UserHandler S) (r : Request) (app : App S) where
  proxied :
      (found : Result LookupError Identity)
      → lookup_identity env.accounts (r.header proxy_auth_header) ≡ found
      → goes_by_proxy env r ≡ true
      → (env.config.auth.proxy_auth ≡ true) × (is_empty (r.header proxy_auth_header) ≡ false)
      → IsGuarded env next r app (serve_proxied env next r app (r.header proxy_auth_header) found)
  proxied (err e) h by t = inr (app.store, inl (by, (e, h), refl), refl, refl)
  proxied (ok id) h by (on, named) =
      inl (r.header proxy_auth_header, app.store, inl ((on, refl, named, (id, h)), refl), refl)

  module _ (by : goes_by_proxy env r ≡ false) where
    validated :
        (token : GoString) (found : Option GoString) (st : Store)
        → r.cookie cookie_name ≡ some token
        → validate app.store token env.now ≡ (found, st)
        → IsGuarded env next r app
            (serve_validated env next r app found (record app { store = st }))
    validated token none st c h = inr (st, inr (by, inr (token, c, h)), refl, refl)
    validated token (some username) st c h = inl (username, st, inr (by, (token, c, h)), refl)

    by_cookie :
        (cookie : Option GoString)
        → r.cookie cookie_name ≡ cookie
        → IsGuarded env next r app (serve_session env next r app cookie)
    by_cookie none c = inr (app.store, inr (by, inl (c, refl)), refl, refl)
    by_cookie (some token) c = validated token _ _ c refl

  by_test :
      (b : Bool)
      → goes_by_proxy env r ≡ b
      → IsGuarded env next r app (
          if b
          then serve_proxied env next r app
              (r.header proxy_auth_header)
              (lookup_identity env.accounts (r.header proxy_auth_header))
          else serve_session env next r app (r.cookie cookie_name))
  by_test true e = proxied _ refl e (ground (arith, e))
  by_test false e = by_cookie e _ refl

  -- RequireAuth runs its handler once and returns its answer, as the account in the proxy's header if
  -- the configuration trusts that header and it is not empty, and else as the user of a valid session.
  -- A request without such a user, and no other, is answered 401 without running the handler: nothing
  -- has changed but what Validate does to the session that it refuses.
  pub require_auth-IsGuarded : IsGuarded env next r app (require_auth env next r app)
  unfolding require_auth
  require_auth-IsGuarded = by_test _ refl

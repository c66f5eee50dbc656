-- ===== src/Server/Gated.antt =====
-- internal/server/server.go: which routes need a session, and which a CSRF token.
use nimbus_fs.Prelude.{
  ℕ, true, ◌≡◌, ◌⊎◌, inl, inr, refl, sym, subst, ap, ◌∙◌, GoString, codes, str_eq, arith,
  false≢true,
}
use nimbus_fs.Store.{Store}
use nimbus_fs.Thumbnail.Generator.{Generator}
use nimbus_fs.Api.{Request, Response, Env, App, UserHandler}
use nimbus_fs.Api.Middleware.{
  changes_state, require_csrf, ensure_csrf_cookie, serve_as, require_auth,
}
use nimbus_fs.Api.Middleware.Guards.{
  HasCsrfToken, require_csrf_lem, IsProxied, HasSession, require_auth-IsGuarded,
}
use nimbus_fs.Server.{
  Bodies, Route, post_login, post_logout, get_me, get_methods, get_offers, get_types,
  post_ssh_start, get_ssh_poll, get_ssh_device, post_ssh_respond, get_files, get_one_file,
  post_upload, delete_one_file, post_mkdir, post_create_file, post_rename, post_move, post_copy,
  post_share, get_shares, delete_one_share, get_share_info, post_share_unlock, get_share_files,
  get_share_file, get_search, post_reindex, get_preview, pattern_of, guarded, serve,
}

pub data Access : Type 0 where
  anyone : Access
  session : Access
  session_and_token : Access

-- Who may use a route: logging in and what a share serves is for anyone. The rest needs a session, and
-- all that changes something also the CSRF token, only to rebuild the index needs none.
abbrev pub access_of : Route → Access
access_of post_login = anyone
access_of post_logout = session_and_token
access_of get_me = session
access_of get_methods = anyone
access_of get_offers = session
access_of get_types = session
access_of post_ssh_start = anyone
access_of get_ssh_poll = anyone
access_of get_ssh_device = anyone
access_of post_ssh_respond = anyone
access_of get_files = session
access_of get_one_file = session
access_of post_upload = session_and_token
access_of delete_one_file = session_and_token
access_of post_mkdir = session_and_token
access_of post_create_file = session_and_token
access_of post_rename = session_and_token
access_of post_move = session_and_token
access_of post_copy = session_and_token
access_of post_share = session_and_token
access_of get_shares = session
access_of delete_one_share = session_and_token
access_of get_share_info = anyone
access_of post_share_unlock = anyone
access_of get_share_files = anyone
access_of get_share_file = anyone
access_of get_search = session
access_of post_reindex = session
access_of get_preview = session

module _ {S : Type 0} (env : Env S) (r : Request) (app : App S) where
  -- A user of the request.
  abbrev pub IsUser : Type 0
  IsUser =
      (username : GoString) × (st : Store) × (IsProxied env r username
        ⊎ HasSession env r app.store username st)

  -- All but the database is left as it was.
  pub record IsUntouched (app' : App S) : Type 0 where
    pub devices : app'.devices ≡ app.devices
    pub rebuilds : app'.rebuilds ≡ app.rebuilds
    pub cache : app'.cache ≡ app.cache
    pub creds : app'.creds ≡ app.creds
    pub process : app'.process ≡ app.process
    pub world : app'.world ≡ app.world

  abbrev pub IsRefused : ℕ → Response × App S → Type 0
  IsRefused status result = (result.0.status ≡ status) × IsUntouched result.1

  -- What a result of a route with that access promises.
  abbrev pub IsGated : Access → Response × App S → Type 0
  IsGated anyone result = Unit
  IsGated session result = IsUser ⊎ IsRefused 401 result
  IsGated session_and_token result =
      (IsUser × HasCsrfToken r) ⊎ IsRefused 401 result ⊎ IsRefused 403 result

  abbrev pub untouched : (st : Store) → IsUntouched (record app { store = st })
  untouched st = record {
    devices = refl;
    rebuilds = refl;
    cache = refl;
    creds = refl;
    process = refl;
    world = refl;
  }

  -- RequireAuth runs its handler as a user on what is left of the database, or refuses.
  abbrev Served : UserHandler S → Response × App S → Type 0
  Served next result =
      ((username : GoString) × (st : Store) × (IsProxied env r username
          ⊎ HasSession env r app.store username st)
        × (result ≡ serve_as env next r app username (record app { store = st })))
      ⊎ IsRefused 401 result

  require_auth-Served : (next : UserHandler S) → Served next (require_auth env next r app)
  require_auth-Served next = elim (require_auth-IsGuarded env next r app) [
    | inl (username, st, inl (user, same), e) ↦ inl (username, st, inl user, e)
    | inl (username, st, inr (by, user), e) ↦ inl (username, st, inr user, e)
    | inr (st, anonymous, status, left) ↦ inr (status, subst IsUntouched (sym left) (untouched st))
  ]

  for_session : (h : UserHandler S) → IsGated session (require_auth env h r app)
  for_session h = elim (require_auth-Served h) [
    | inl (username, st, user, e) ↦ inl (username, st, user)
    | inr refused ↦ inr refused
  ]

  ensure_csrf_cookie-status :
      (token : GoString) (resp : Response) → (ensure_csrf_cookie r token resp).status ≡ resp.status
  unfolding ensure_csrf_cookie
  ensure_csrf_cookie-status token resp = ground arith

  for_token :
      (h : UserHandler S)
      → changes_state r.method ≡ true
      → IsGated session_and_token (guarded env h r app)
  for_token h changes = elim (require_auth-Served (λ username. require_csrf (h username))) [
    | inl (username, st, user, e) ↦
        elim (require_csrf_lem (h username) r (record app { store = st })) [
          | inl (inl same, ran) ↦ absurd (false≢true (sym same ∙ changes))
          | inl (inr token, ran) ↦ inl ((username, st, user), token)
          | inr (status, left) ↦ inr (
              inr (
                subst (IsRefused 403) (sym e) (
                  ensure_csrf_cookie-status env.csrf_token _ ∙ status,
                  subst IsUntouched (sym left) (untouched st),
                )))
        ]
    | inr refused ↦ inr (inl refused)
  ]

posts : changes_state (codes "POST") ≡ true
unfolding changes_state str_eq
posts = refl

deletes : changes_state (codes "DELETE") ≡ true
unfolding changes_state str_eq
deletes = refl

-- Every route of the API, for a request with the method of its pattern. A route that needs a session
-- answers 401 unless the request has a user, by a valid session or as the account that a trusted proxy
-- names. One that also needs the CSRF token answers 401 or 403 unless the request has a user and its
-- header repeats the nonempty cookie. Such a refusal leaves everything but the database as it was: the
-- disk, the credentials, the logins under way, the cache and the rebuilds.
pub serve-IsGated :
    {S : Type 0} (env : Env S) (g : Generator) (bodies : Bodies) (route : Route) (r : Request)
    (app : App S)
    → r.method ≡ (pattern_of route).0
    → IsGated env r app (access_of route) (serve env g bodies route r app)
unfolding serve
serve-IsGated env g bodies post_login r app e = tt
serve-IsGated env g bodies post_logout r app e = for_token env r app _ (ap changes_state e ∙ posts)
serve-IsGated env g bodies get_me r app e = for_session env r app _
serve-IsGated env g bodies get_methods r app e = tt
serve-IsGated env g bodies get_offers r app e = for_session env r app _
serve-IsGated env g bodies get_types r app e = for_session env r app _
serve-IsGated env g bodies post_ssh_start r app e = tt
serve-IsGated env g bodies get_ssh_poll r app e = tt
serve-IsGated env g bodies get_ssh_device r app e = tt
serve-IsGated env g bodies post_ssh_respond r app e = tt
serve-IsGated env g bodies get_files r app e = for_session env r app _
serve-IsGated env g bodies get_one_file r app e = for_session env r app _
serve-IsGated env g bodies post_upload r app e = for_token env r app _ (ap changes_state e ∙ posts)
serve-IsGated env g bodies delete_one_file r app e =
    for_token env r app _ (ap changes_state e ∙ deletes)
serve-IsGated env g bodies post_mkdir r app e = for_token env r app _ (ap changes_state e ∙ posts)
serve-IsGated env g bodies post_create_file r app e =
    for_token env r app _ (ap changes_state e ∙ posts)
serve-IsGated env g bodies post_rename r app e = for_token env r app _ (ap changes_state e ∙ posts)
serve-IsGated env g bodies post_move r app e = for_token env r app _ (ap changes_state e ∙ posts)
serve-IsGated env g bodies post_copy r app e = for_token env r app _ (ap changes_state e ∙ posts)
serve-IsGated env g bodies post_share r app e = for_token env r app _ (ap changes_state e ∙ posts)
serve-IsGated env g bodies get_shares r app e = for_session env r app _
serve-IsGated env g bodies delete_one_share r app e =
    for_token env r app _ (ap changes_state e ∙ deletes)
serve-IsGated env g bodies get_share_info r app e = tt
serve-IsGated env g bodies post_share_unlock r app e = tt
serve-IsGated env g bodies get_share_files r app e = tt
serve-IsGated env g bodies get_share_file r app e = tt
serve-IsGated env g bodies get_search r app e = for_session env r app _
serve-IsGated env g bodies post_reindex r app e = for_session env r app _
serve-IsGated env g bodies get_preview r app e = for_session env r app _

-- ===== src/Api/Sharing.antt =====
-- internal/api/shares.go: CreateShare and ListShares, the owner's side of share links.
pub mod Expiry
use nimbus_fs.Prelude.{
  ℕ, zero, suc, ◌==◌, Bool, true, false, ◌||◌, not, if◌then◌else◌, Option, none, some, List, [],
  ◌∷◌, ◌++◌, GoString, codes, str_eq, ℤ, pos, negsuc, Time, hours, add_duration, Result, ok, err,
}
use nimbus_fs.Config.{is_empty}
use nimbus_fs.GoLib.Path.{base}
use nimbus_fs.Fsops.Access.{Identity}
use nimbus_fs.Fsops.Sandbox.{FsError}
use nimbus_fs.Fsops.Impersonate.{LookupError, lookup_identity}
use nimbus_fs.Fsops.Ops.{Entry, stat}
use nimbus_fs.Store.{Store}
use nimbus_fs.Store.Shares.{Share, create_share, list_shares_for_user}
use nimbus_fs.Api.{
  Request, Response, ShareJson, share, shares, Env, App, UserHandler, write_json, write_error,
  write_fs_error, client_ip, as_account, audited,
}

-- createShareRequest. The hours are an int.
pub record CreateShareRequest : Type 0 where
  pub path : GoString
  pub mode : GoString
  pub password : GoString
  pub expires_in_hours : ℤ

-- The switch on the mode: `none` is an invalid one.
abbrev pub checked_mode : GoString → Option GoString
checked_mode mode =
    if is_empty mode
    then some (codes "both")
    else if str_eq mode (codes "both")
        || str_eq mode (codes "view_only")
        || str_eq mode (codes "download_only")
    then some mode
    else none

-- The expiry that is asked for, where 0 is none.
unfoldable pub expiry : Time → ℤ → Time
expiry now (pos zero) = 0
expiry now (pos (suc n)) = add_duration now (hours (suc n))
expiry now (negsuc n) = 0

-- shareToJSON
abbrev pub share_to_json : Share → Bool → GoString → ShareJson
share_to_json sh is_dir name = record {
  token = sh.token;
  path = sh.path;
  name = name;
  is_dir = is_dir;
  mode = sh.mode;
  has_password = not (is_empty sh.password_hash);
  created_at = sh.created_at;
  url = codes "/share/" ++ sh.token;
  expires_at = if sh.expires_at == 0 then none else some sh.expires_at;
}

abbrev pub or_base : GoString → Result FsError Entry → GoString
or_base path (err e) = base path
or_base path (ok entry) = entry.name

abbrev pub or_file : Result FsError Entry → Bool
or_file (err e) = false
or_file (ok entry) = entry.is_dir

module _ {S : Type 0} (env : Env S) where
  abbrev pub path_required : Response
  path_required = write_error 400 (codes "path is required")

  abbrev pub share_of_request :
      GoString → CreateShareRequest → GoString → GoString → GoString → Share
  share_of_request username req mode token hash = record {
    token = token;
    username = username;
    path = req.path;
    mode = mode;
    password_hash = hash;
    created_at = env.now;
    expires_at = expiry env.now req.expires_in_hours;
  }

  abbrev pub stored : GoString → Request → Share → Entry → App S → Option Store → Response × App S
  stored username r sh entry app none = (write_error 500 (codes "could not create share"), app)
  stored username r sh entry app (some st) = (
    write_json 200 (share (share_to_json sh entry.is_dir entry.name)),
    audited env username (codes "share_create") sh.path (client_ip r) sh.token
        (record app { store = st }),
  )

  abbrev pub hashed :
      GoString
      → Request
      → CreateShareRequest
      → GoString
      → GoString
      → Entry
      → App S
      → Option GoString
      → Response × App S
  hashed username r req mode token entry app none =
      (write_error 500 (codes "could not hash password"), app)
  hashed username r req mode token entry app (some hash) =
      let sh = share_of_request username req mode token hash in
      stored username r sh entry app (create_share app.store sh)

  abbrev pub password_hash : GoString → Option GoString
  password_hash password = if is_empty password then some [] else env.hash_password password

  abbrev pub tokened :
      GoString
      → Request
      → CreateShareRequest
      → GoString
      → Entry
      → App S
      → Option GoString
      → Response × App S
  tokened username r req mode entry app none =
      (write_error 500 (codes "could not create share"), app)
  tokened username r req mode entry app (some token) =
      hashed username r req mode token entry app (password_hash req.password)

  abbrev pub found :
      GoString
      → Request
      → CreateShareRequest
      → GoString
      → Result FsError Entry × App S
      → Response × App S
  found username r req mode (err e, app) = (write_fs_error e, app)
  found username r req mode (ok entry, app) = tokened username r req mode entry app env.share_token

  abbrev pub create_as :
      GoString
      → Request
      → CreateShareRequest
      → GoString
      → App S
      → Result LookupError Identity
      → Response × App S
  create_as username r req mode app (err e) = (write_error 500 (codes "user lookup failed"), app)
  create_as username r req mode app (ok id) =
      found username r req mode
        (as_account env id (λ os. stat os env.names env.sandbox req.path) app)

  abbrev pub create_checked :
      GoString → Request → CreateShareRequest → App S → Option GoString → Response × App S
  create_checked username r req app none = (write_error 400 (codes "invalid mode"), app)
  create_checked username r req app (some mode) =
      create_as username r req mode app (lookup_identity env.accounts username)

  abbrev pub create_decoded : Option CreateShareRequest → UserHandler S
  create_decoded none username r app = (path_required, app)
  create_decoded (some req) username r app =
      if is_empty req.path
      then (path_required, app)
      else create_checked username r req app (checked_mode req.mode)

  -- CreateShare of shares.go.
  unfoldable pub new_share : Option CreateShareRequest → UserHandler S
  new_share body username r app =
      if env.config.sharing.enabled
      then create_decoded body username r app
      else (write_error 404 (codes "sharing is disabled"), app)

  abbrev pub described :
      Share → List ShareJson × App S → Result FsError Entry → List ShareJson × App S
  described sh (rest, app) entry =
      (share_to_json sh (or_file entry) (or_base sh.path entry) ∷ rest, app)

  -- The loop of ListShares: each share is looked at as the user.
  unfoldable pub describe : Identity → List Share → App S → List ShareJson × App S
  describe id [] app = ([], app)
  describe id (sh ∷ shs) app =
      let (entry, app') = as_account env id (λ os. stat os env.names env.sandbox sh.path) app in
      described sh (describe id shs app') entry

  abbrev pub list_as : GoString → App S → Result LookupError Identity → Response × App S
  list_as username app (err e) = (write_error 500 (codes "user lookup failed"), app)
  list_as username app (ok id) =
      let (shs, app') = describe id (list_shares_for_user app.store username) app in
      (write_json 200 (shares shs), app')

  -- ListShares
  unfoldable pub list_own_shares : UserHandler S
  list_own_shares username r app = list_as username app (lookup_identity env.accounts username)

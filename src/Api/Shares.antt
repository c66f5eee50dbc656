-- ===== src/Api/Shares.antt =====
-- internal/api/shares.go: the public endpoints that serve a share, and RevokeShare.
pub mod Gate
use nimbus_fs.Prelude.{
  ℕ, ◌==◌, ltb, Bool, true, false, ◌&&◌, ◌||◌, not, if◌then◌else◌, Option, none, some, List, [],
  ◌∷◌, ◌++◌, GoString, codes, str_eq, Time, Result, ok, err, ◌>>=◌, ◌>>◌,
}
use nimbus_fs.Config.{is_empty}
use nimbus_fs.Fsops.Access.{Identity}
use nimbus_fs.Fsops.Sandbox.{FsError}
use nimbus_fs.Fsops.Impersonate.{LookupError, lookup_identity}
use nimbus_fs.Fsops.Sys.{Info}
use nimbus_fs.Fsops.Ops.{Entry, stat, list_within, open_within}
use nimbus_fs.Store.{Store, ignoring}
use nimbus_fs.Store.Shares.{Share, get_share, delete_share}
use nimbus_fs.Auth.SessionManager.{Cookie}
use nimbus_fs.Api.{
  Request, Response, Body, entries, share_info, content, status_ok, Env, App, Handler, UserHandler,
  write_json, write_error, write_fs_error, set_cookie, client_ip, is_secure, as_account, audited,
}

pub data ShareError : Type 0 where
  no_share expired password_required : ShareError

-- writeShareError
abbrev pub write_share_error : ShareError → Response
write_share_error expired = write_error 410 (codes "this share link has expired")
write_share_error password_required = write_error 401 (codes "password required")
write_share_error no_share = write_error 404 (codes "share not found")

-- A share past its expiry, 0 being none.
abbrev pub is_expired : Time → Share → Bool
is_expired now sh = not (sh.expires_at == 0) && ltb sh.expires_at now

abbrev pub unless_expired : Time → Option Share → Result ShareError Share
unless_expired now none = err no_share
unless_expired now (some sh) = if is_expired now sh then err expired else ok sh

-- shareUnlockCookieName
abbrev pub share_unlock_cookie_name : GoString → GoString
share_unlock_cookie_name token = codes "nimbusfs_share_" ++ token

abbrev pub equals : Option GoString → GoString → Bool
equals none t = false
equals (some s) t = str_eq s t

abbrev pub is_download : Request → Bool
is_download r = str_eq (r.query (codes "download")) (codes "1")

module _ {S : Type 0} (env : Env S) where
  -- loadShare
  unfoldable pub load_share : Store → GoString → Result ShareError Share
  load_share st token = unless_expired env.now (get_share st token)

  -- shareUnlocked
  unfoldable pub share_unlocked : Request → GoString → Bool
  share_unlocked r token = equals (r.cookie (share_unlock_cookie_name token)) (env.unlock_mac token)

  -- requireShareUnlocked
  unfoldable pub require_share_unlocked : Request → Share → Result ShareError (Unit {0})
  require_share_unlocked r sh =
      if is_empty sh.password_hash || share_unlocked r sh.token
      then ok tt
      else err password_required

  abbrev pub info_found : Request → Share → Result FsError Entry × App S → Response × App S
  info_found r sh (err e, app) = (write_fs_error e, app)
  info_found r sh (ok entry, app) = (
    write_json 200 (
        share_info entry.name entry.is_dir sh.mode (
          not (is_empty sh.password_hash)
          && not (is_empty sh.password_hash || share_unlocked r sh.token))),
    app,
  )

  abbrev pub info_as : Request → Share → App S → Result LookupError Identity → Response × App S
  info_as r sh app (err e) = (write_error 500 (codes "share owner no longer exists"), app)
  info_as r sh app (ok id) =
      info_found r sh (as_account env id (λ os. stat os env.names env.sandbox sh.path) app)

  abbrev pub info_loaded : Request → App S → Result ShareError Share → Response × App S
  info_loaded r app (err e) = (write_share_error e, app)
  info_loaded r app (ok sh) = info_as r sh app (lookup_identity env.accounts sh.username)

  -- ShareInfo
  unfoldable pub share_info_of : Handler S
  share_info_of r app = info_loaded r app (load_share app.store (r.path_value (codes "token")))

  abbrev pub unlock_cookie : Request → GoString → Cookie
  unlock_cookie r token = record {
    name = share_unlock_cookie_name token;
    value = env.unlock_mac token;
    path = codes "/";
    http_only = true;
    secure = is_secure r;
    lax = true;
    expires = none;
  }

  abbrev pub unlock_with : Request → Share → Option GoString → Response
  unlock_with r sh none = write_error 400 (codes "invalid request body")
  unlock_with r sh (some password) =
      if env.check_password sh.password_hash password
      then set_cookie (unlock_cookie r sh.token) (write_json 200 status_ok)
      else write_error 401 (codes "incorrect password")

  abbrev pub unlock_loaded : Request → Option GoString → Result ShareError Share → Response
  unlock_loaded r password (err e) = write_share_error e
  unlock_loaded r password (ok sh) =
      if is_empty sh.password_hash then write_json 200 status_ok else unlock_with r sh password

  -- ShareUnlock, with the password of the decoded body.
  unfoldable pub share_unlock : Option GoString → Handler S
  share_unlock password r app =
      (unlock_loaded r password (load_share app.store (r.path_value (codes "token"))), app)

  abbrev pub listed : Result FsError (List Entry) × App S → Response × App S
  listed (err e, app) = (write_fs_error e, app)
  listed (ok es, app) = (write_json 200 (entries es), app)

  abbrev pub list_as : Request → Share → App S → Result LookupError Identity → Response × App S
  list_as r sh app (err e) = (write_error 500 (codes "share owner no longer exists"), app)
  list_as r sh app (ok id) = listed (
      as_account env id
        (λ os. list_within os env.names env.sandbox sh.path (r.query (codes "path"))) app)

  abbrev pub list_unlocked :
      Request → Share → App S → Result ShareError (Unit {0}) → Response × App S
  list_unlocked r sh app (err e) = (write_share_error e, app)
  list_unlocked r sh app (ok u) = list_as r sh app (lookup_identity env.accounts sh.username)

  abbrev pub list_loaded : Request → App S → Result ShareError Share → Response × App S
  list_loaded r app (err e) = (write_share_error e, app)
  list_loaded r app (ok sh) =
      if str_eq sh.mode (codes "download_only")
      then (write_error 403 (codes "browsing is disabled for this share"), app)
      else list_unlocked r sh app (require_share_unlocked r sh)

  -- ShareList
  unfoldable pub share_list : Handler S
  share_list r app = list_loaded r app (load_share app.store (r.path_value (codes "token")))

  -- The file is served after the audit record is written.
  abbrev pub opened : Request → Share → Result FsError Info × App S → Response × App S
  opened r sh (err e, app) = (write_fs_error e, app)
  opened r sh (ok info, app) =
      if info.is_dir
      then (write_error 400 (codes "cannot download a directory directly"), app)
      else (
        write_json 200 (content info (is_download r)),
        audited env sh.username (codes "share_download") sh.path (client_ip r)
            (r.path_value (codes "token")) app,
      )

  abbrev pub file_as : Request → Share → App S → Result LookupError Identity → Response × App S
  file_as r sh app (err e) = (write_error 500 (codes "share owner no longer exists"), app)
  file_as r sh app (ok id) =
      opened r sh
        (as_account env id (λ os. open_within os env.sandbox sh.path (r.query (codes "path"))) app)

  abbrev pub file_unlocked :
      Request → Share → App S → Result ShareError (Unit {0}) → Response × App S
  file_unlocked r sh app (err e) = (write_share_error e, app)
  file_unlocked r sh app (ok u) = file_as r sh app (lookup_identity env.accounts sh.username)

  abbrev pub file_loaded : Request → App S → Result ShareError Share → Response × App S
  file_loaded r app (err e) = (write_share_error e, app)
  file_loaded r app (ok sh) =
      if str_eq sh.mode (codes "view_only") && is_download r
      then (write_error 403 (codes "downloads are disabled for this share"), app)
      else file_unlocked r sh app (require_share_unlocked r sh)

  -- ShareFile
  unfoldable pub share_file : Handler S
  share_file r app = file_loaded r app (load_share app.store (r.path_value (codes "token")))

  abbrev pub revoked : GoString → Request → App S → Option Store → Response × App S
  revoked username r app none = (write_error 500 (codes "could not revoke share"), app)
  revoked username r app (some st) = (
    write_json 200 status_ok,
    audited env username (codes "share_revoke") [] (client_ip r) (r.path_value (codes "token"))
        (record app { store = st }),
  )

  -- RevokeShare
  unfoldable pub revoke_share : UserHandler S
  revoke_share username r app =
      revoked username r app (delete_share app.store (r.path_value (codes "token")) username)

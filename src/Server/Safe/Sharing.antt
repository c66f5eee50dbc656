-- ===== src/Server/Safe/Sharing.antt =====
-- internal/api/shares.go: the handlers of shares keep the server safe.
use nimbus_fs.Prelude.{◌&&◌, Option, none, some, List, GoString, codes, str_eq, ℤ, Result, ok, err}
use nimbus_fs.Fsops.Access.{Identity}
use nimbus_fs.Fsops.Impersonate.{Creds, LookupError}
use nimbus_fs.Fsops.Impersonate.Restores.{SetsCreds, MayRestore}
use nimbus_fs.Fsops.Sandbox.{FsError}
use nimbus_fs.Fsops.Sandbox.Contained.{IsRoot}
use nimbus_fs.Fsops.Sys.{Info, Os, Sys}
use nimbus_fs.Fsops.Sys.Ensures.{Ensures, Anything}
use nimbus_fs.Fsops.Ops.{Entry, stat, list_within, open_within}
use nimbus_fs.Fsops.Ops.Confined.{stat-Ensures, list_within-Ensures, open_within-Ensures}
use nimbus_fs.Store.{Store}
use nimbus_fs.Api.{Request, Env, App, Handler, as_account, audited}
use nimbus_fs.Api.Files.Confined.{IsSafe, Keeps, as_account-IsSafe}
use nimbus_fs.Store.Shares.{Share}
use nimbus_fs.Api.Shares.{
  ShareError, is_download, load_share, require_share_unlocked, info_found, info_as, info_loaded,
  share_info_of, share_unlock, listed, list_unlocked, list_loaded, share_list, opened, file_as,
  file_unlocked, file_loaded, share_file, revoked, revoke_share,
}
use nimbus_fs.Api.Shares
use nimbus_fs.Server.Safe.Middleware.{branch}

module _ {S : Type 0} (env : Env S) (rs : List GoString) (groups : List ℤ)
    (sets : SetsCreds env.kernel) (may : MayRestore env.kernel groups)
    (root : IsRoot env.sandbox rs) where
  abbrev pub Kept : Handler S → Type 0
  Kept h = (r : Request) → Keeps env rs groups sets may (h r)

  at_share :
      {A : Type 0} (id : Identity) (op : Os S → Sys S A) (app : App S)
      → ((d : Creds) → Ensures rs (op (env.os d)) Anything)
      → IsSafe rs groups app
      → IsSafe rs groups (as_account env id op app).1
  at_share id op app h safe = as_account-IsSafe env rs groups sets may id op app h safe

  info_found-IsSafe :
      (r : Request) (sh : Share) (x : Result FsError Entry) (app : App S)
      → IsSafe rs groups app
      → IsSafe rs groups (info_found env r sh (x, app)).1
  info_found-IsSafe r sh (err e) app safe = safe
  info_found-IsSafe r sh (ok entry) app safe = safe

  info_as-IsSafe :
      (r : Request) (sh : Share) (app : App S) (l : Result LookupError Identity)
      → IsSafe rs groups app
      → IsSafe rs groups (info_as env r sh app l).1
  info_as-IsSafe r sh app (err e) safe = safe
  info_as-IsSafe r sh app (ok id) safe = info_found-IsSafe r sh _ _ (
      at_share id (λ os. stat os env.names env.sandbox sh.path) app
        (λ d. stat-Ensures (env.os d) env.sandbox rs root env.names sh.path) safe)

  info_loaded-IsSafe :
      (r : Request) (app : App S) (x : Result ShareError Share)
      → IsSafe rs groups app
      → IsSafe rs groups (info_loaded env r app x).1
  info_loaded-IsSafe r app (err e) safe = safe
  info_loaded-IsSafe r app (ok sh) safe = info_as-IsSafe r sh app _ safe

  pub share_info_of-Kept : Kept (share_info_of env)
  unfolding share_info_of
  share_info_of-Kept r app safe = info_loaded-IsSafe r app _ safe

  pub share_unlock-Kept : (password : Option GoString) → Kept (share_unlock env password)
  unfolding share_unlock
  share_unlock-Kept password r app safe = safe

  listed-IsSafe :
      (x : Result FsError (List Entry)) (app : App S)
      → IsSafe rs groups app
      → IsSafe rs groups (listed env (x, app)).1
  listed-IsSafe (err e) app safe = safe
  listed-IsSafe (ok es) app safe = safe

  list_as-IsSafe :
      (r : Request) (sh : Share) (app : App S) (l : Result LookupError Identity)
      → IsSafe rs groups app
      → IsSafe rs groups (Shares.list_as env r sh app l).1
  list_as-IsSafe r sh app (err e) safe = safe
  list_as-IsSafe r sh app (ok id) safe = listed-IsSafe _ _ (
      at_share id (λ os. list_within os env.names env.sandbox sh.path (r.query (codes "path"))) app
        (λ d.
          list_within-Ensures (env.os d) env.sandbox rs root env.names sh.path
            (r.query (codes "path")))
        safe)

  list_unlocked-IsSafe :
      (r : Request) (sh : Share) (app : App S) (x : Result ShareError (Unit {0}))
      → IsSafe rs groups app
      → IsSafe rs groups (list_unlocked env r sh app x).1
  list_unlocked-IsSafe r sh app (err e) safe = safe
  list_unlocked-IsSafe r sh app (ok u) safe = list_as-IsSafe r sh app _ safe

  list_loaded-IsSafe :
      (r : Request) (app : App S) (x : Result ShareError Share)
      → IsSafe rs groups app
      → IsSafe rs groups (list_loaded env r app x).1
  list_loaded-IsSafe r app (err e) safe = safe
  list_loaded-IsSafe r app (ok sh) safe =
      branch rs groups (str_eq sh.mode (codes "download_only")) _ _ safe
        (list_unlocked-IsSafe r sh app _ safe)

  pub share_list-Kept : Kept (share_list env)
  unfolding share_list
  share_list-Kept r app safe = list_loaded-IsSafe r app _ safe

  opened-IsSafe :
      (r : Request) (sh : Share) (x : Result FsError Info) (app : App S)
      → IsSafe rs groups app
      → IsSafe rs groups (opened env r sh (x, app)).1
  unfolding audited
  opened-IsSafe r sh (err e) app safe = safe
  opened-IsSafe r sh (ok info) app safe = branch rs groups info.is_dir _ _ safe safe

  file_as-IsSafe :
      (r : Request) (sh : Share) (app : App S) (l : Result LookupError Identity)
      → IsSafe rs groups app
      → IsSafe rs groups (file_as env r sh app l).1
  file_as-IsSafe r sh app (err e) safe = safe
  file_as-IsSafe r sh app (ok id) safe = opened-IsSafe r sh _ _ (
      at_share id (λ os. open_within os env.sandbox sh.path (r.query (codes "path"))) app
        (λ d. open_within-Ensures (env.os d) env.sandbox rs root sh.path (r.query (codes "path")))
        safe)

  file_unlocked-IsSafe :
      (r : Request) (sh : Share) (app : App S) (x : Result ShareError (Unit {0}))
      → IsSafe rs groups app
      → IsSafe rs groups (file_unlocked env r sh app x).1
  file_unlocked-IsSafe r sh app (err e) safe = safe
  file_unlocked-IsSafe r sh app (ok u) safe = file_as-IsSafe r sh app _ safe

  file_loaded-IsSafe :
      (r : Request) (app : App S) (x : Result ShareError Share)
      → IsSafe rs groups app
      → IsSafe rs groups (file_loaded env r app x).1
  file_loaded-IsSafe r app (err e) safe = safe
  file_loaded-IsSafe r app (ok sh) safe =
      branch rs groups (str_eq sh.mode (codes "view_only") && is_download r) _ _ safe
        (file_unlocked-IsSafe r sh app _ safe)

  pub share_file-Kept : Kept (share_file env)
  unfolding share_file
  share_file-Kept r app safe = file_loaded-IsSafe r app _ safe

  revoked-IsSafe :
      (username : GoString) (r : Request) (app : App S) (o : Option Store)
      → IsSafe rs groups app
      → IsSafe rs groups (revoked env username r app o).1
  unfolding audited
  revoked-IsSafe username r app none safe = safe
  revoked-IsSafe username r app (some st) safe = safe

  pub revoke_share-Kept : (username : GoString) → Kept (revoke_share env username)
  unfolding revoke_share
  revoke_share-Kept username r app safe = revoked-IsSafe username r app _ safe

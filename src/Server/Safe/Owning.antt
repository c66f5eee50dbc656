-- ===== src/Server/Safe/Owning.antt =====
-- internal/api/shares.go: CreateShare and ListShares keep the server safe.
use nimbus_fs.Prelude.{Option, none, some, List, [], ◌∷◌, GoString, ℤ, Result, ok, err}
use nimbus_fs.Config.{is_empty}
use nimbus_fs.Fsops.Access.{Identity}
use nimbus_fs.Fsops.Impersonate.{LookupError}
use nimbus_fs.Fsops.Impersonate.Restores.{SetsCreds, MayRestore}
use nimbus_fs.Fsops.Sandbox.{FsError}
use nimbus_fs.Fsops.Sandbox.Contained.{IsRoot}
use nimbus_fs.Fsops.Ops.{Entry, stat}
use nimbus_fs.Fsops.Ops.Confined.{stat-Ensures}
use nimbus_fs.Store.{Store}
use nimbus_fs.Api.{Request, Env, App, as_account, audited}
use nimbus_fs.Api.Files.Confined.{IsSafe, Keeps, as_account-IsSafe}
use nimbus_fs.Store.Shares.{Share}
use nimbus_fs.Api.Sharing.{
  CreateShareRequest, share_of_request, stored, hashed, tokened, found, create_as, create_checked,
  create_decoded, new_share, describe, list_as, list_own_shares,
}
use nimbus_fs.Server.Safe.Middleware.{branch}

module _ {S : Type 0} (env : Env S) (rs : List GoString) (groups : List ℤ)
    (sets : SetsCreds env.kernel) (may : MayRestore env.kernel groups)
    (root : IsRoot env.sandbox rs) where
  stored-IsSafe :
      (username : GoString) (r : Request) (sh : Share) (entry : Entry) (app : App S)
      (o : Option Store)
      → IsSafe rs groups app
      → IsSafe rs groups (stored env username r sh entry app o).1
  unfolding audited
  stored-IsSafe username r sh entry app none safe = safe
  stored-IsSafe username r sh entry app (some st) safe = safe

  hashed-IsSafe :
      (username : GoString) (r : Request) (req : CreateShareRequest) (mode token : GoString)
      (entry : Entry) (app : App S) (o : Option GoString)
      → IsSafe rs groups app
      → IsSafe rs groups (hashed env username r req mode token entry app o).1
  hashed-IsSafe username r req mode token entry app none safe = safe
  hashed-IsSafe username r req mode token entry app (some hash) safe =
      stored-IsSafe username r (share_of_request env username req mode token hash) entry app _ safe

  tokened-IsSafe :
      (username : GoString) (r : Request) (req : CreateShareRequest) (mode : GoString)
      (entry : Entry) (app : App S) (o : Option GoString)
      → IsSafe rs groups app
      → IsSafe rs groups (tokened env username r req mode entry app o).1
  tokened-IsSafe username r req mode entry app none safe = safe
  tokened-IsSafe username r req mode entry app (some token) safe =
      hashed-IsSafe username r req mode token entry app _ safe

  found-IsSafe :
      (username : GoString) (r : Request) (req : CreateShareRequest) (mode : GoString)
      (x : Result FsError Entry) (app : App S)
      → IsSafe rs groups app
      → IsSafe rs groups (found env username r req mode (x, app)).1
  found-IsSafe username r req mode (err e) app safe = safe
  found-IsSafe username r req mode (ok entry) app safe =
      tokened-IsSafe username r req mode entry app _ safe

  looked_at :
      (id : Identity) (p : GoString) (app : App S)
      → IsSafe rs groups app
      → IsSafe rs groups (as_account env id (λ os. stat os env.names env.sandbox p) app).1
  looked_at id p app safe =
      as_account-IsSafe env rs groups sets may id (λ os. stat os env.names env.sandbox p) app
        (λ d. stat-Ensures (env.os d) env.sandbox rs root env.names p) safe

  create_as-IsSafe :
      (username : GoString) (r : Request) (req : CreateShareRequest) (mode : GoString) (app : App S)
      (l : Result LookupError Identity)
      → IsSafe rs groups app
      → IsSafe rs groups (create_as env username r req mode app l).1
  create_as-IsSafe username r req mode app (err e) safe = safe
  create_as-IsSafe username r req mode app (ok id) safe =
      found-IsSafe username r req mode _ _ (looked_at id req.path app safe)

  create_checked-IsSafe :
      (username : GoString) (r : Request) (req : CreateShareRequest) (app : App S)
      (mode : Option GoString)
      → IsSafe rs groups app
      → IsSafe rs groups (create_checked env username r req app mode).1
  create_checked-IsSafe username r req app none safe = safe
  create_checked-IsSafe username r req app (some mode) safe =
      create_as-IsSafe username r req mode app _ safe

  create_decoded-IsSafe :
      (body : Option CreateShareRequest) (username : GoString) (r : Request) (app : App S)
      → IsSafe rs groups app
      → IsSafe rs groups (create_decoded env body username r app).1
  create_decoded-IsSafe none username r app safe = safe
  create_decoded-IsSafe (some req) username r app safe =
      branch rs groups (is_empty req.path) _ _ safe
        (create_checked-IsSafe username r req app _ safe)

  pub new_share-Kept :
      (body : Option CreateShareRequest) (username : GoString) (r : Request)
      → Keeps env rs groups sets may (new_share env body username r)
  unfolding new_share
  new_share-Kept body username r app safe =
      branch rs groups env.config.sharing.enabled _ _
        (create_decoded-IsSafe body username r app safe) safe

  describe-IsSafe :
      (id : Identity) (shs : List Share) (app : App S)
      → IsSafe rs groups app
      → IsSafe rs groups (describe env id shs app).1
  unfolding describe
  describe-IsSafe id [] app safe = safe
  describe-IsSafe id (sh ∷ shs) app safe = describe-IsSafe id shs _ (looked_at id sh.path app safe)

  list_as-IsSafe :
      (username : GoString) (app : App S) (l : Result LookupError Identity)
      → IsSafe rs groups app
      → IsSafe rs groups (list_as env username app l).1
  list_as-IsSafe username app (err e) safe = safe
  list_as-IsSafe username app (ok id) safe = describe-IsSafe id _ app safe

  pub list_own_shares-Kept :
      (username : GoString) (r : Request)
      → Keeps env rs groups sets may (list_own_shares env username r)
  unfolding list_own_shares
  list_own_shares-Kept username r app safe = list_as-IsSafe username app _ safe

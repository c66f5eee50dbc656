-- ===== src/Tests/Requests.antt =====
-- Examples of internal/api.
use nimbus_fs.Prelude.{suc, false, ◌≡◌, ◌&&◌, refl, some, List, [], ◌∷◌, codes, str_eq, arith}
use nimbus_fs.Config.{default}
use nimbus_fs.Store.{recent_failed_attempts, count_rows}
use nimbus_fs.Api.{Request, Response, App, Handler}
use nimbus_fs.Api.Middleware.{require_auth}
use nimbus_fs.Api.Middleware.Guards.{IsGuarded, require_auth-IsGuarded}
use nimbus_fs.Api.Login.{LoginRequest, login, me}
use nimbus_fs.Api.Login.RateLimit.{failures, after_logins, login_limited_lem, login_counts}
use nimbus_fs.Api.Shares.{share_list, share_file, is_download}
use nimbus_fs.Api.Shares.Gate.{IsGated, share_list-IsGated, share_file-IsGated}
use nimbus_fs.Api.Files.{RenameRequest, SrcDestRequest, Upload}
use nimbus_fs.Api.Files.Safe.{Kept}
use nimbus_fs.Tests.Fixture.{
  srv, srv-IsRoot, Files, root_groups, kernel-SetsCreds, kernel-MayRestore, env, app, request,
}

abbrev paths : SrcDestRequest
paths = record { src = codes "d/a"; dest = codes "/b" }

abbrev renaming : RenameRequest
renaming = record { path = codes "d/a"; new_name = codes "c" }

abbrev form : List Upload
form = record { filename = codes "up"; opened = some (codes "text") } ∷ []

abbrev KeptHere : (App Files → Response × App Files) → Type 0
KeptHere =
    Kept env srv root_groups kernel-SetsCreds kernel-MayRestore srv-IsRoot (codes "ann") request

require_auth-IsGuarded_example :
    IsGuarded env (me env) request app (require_auth env (me env) request app)
require_auth-IsGuarded_example = require_auth-IsGuarded env (me env) request app

abbrev whoami : Handler Files
whoami = me env (codes "ann")

share_list-IsGated_example :
    IsGated env request app
      (λ sh. str_eq sh.mode (codes "download_only") ≡ false)
      (share_list env request app)
share_list-IsGated_example = share_list-IsGated env request app

share_file-IsGated_example :
    IsGated env request app
      (λ sh. (str_eq sh.mode (codes "view_only") && is_download request) ≡ false)
      (share_file env request app)
share_file-IsGated_example = share_file-IsGated env request app

abbrev wrong : LoginRequest
wrong = record { username = codes "ann"; password = codes "guess"; remember = false }

-- Five wrong logins, for two users.
abbrev guesses : List (LoginRequest × Request)
guesses =
    (wrong, request)
    ∷ (record wrong { username = codes "bob" }, request)
    ∷ (wrong, request)
    ∷ (wrong, request)
    ∷ (wrong, request)
    ∷ []

abbrev right : LoginRequest
right = record wrong { password = codes "secret" }

login_limited_lem_example :
    ((login env (some right) request (after_logins env guesses app)).0.status ≡ 429)
    × ((login env (some right) request (after_logins env guesses app)).1
        ≡ after_logins env guesses app)
unfolding default str_eq
login_limited_lem_example =
    login_limited_lem env guesses right request app refl refl
      (
        refl,
        refl,
        refl,
        (refl, refl, refl, (refl, refl, refl, (refl, refl, refl, (refl, refl, refl, tt)))),
      )
      (omega arith)

no_failures : failures env request app ≡ 0
unfolding recent_failed_attempts count_rows
no_failures = refl

login_counts_example :
    ((login env (some wrong) request app).0.status ≡ 401)
    × (failures env request (login env (some wrong) request app).1 ≡ suc (failures env request app))
unfolding default str_eq
login_counts_example =
    login_counts env wrong request app refl (omega (arith, no_failures)) refl refl refl

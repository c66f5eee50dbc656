-- ===== src/Server.antt =====
-- internal/server/server.go: the routes of the API. http.ServeMux, which picks the route by the
-- method and the path, and the headers and assets around it are net/http's.
pub mod Gated
pub mod Safe
use nimbus_fs.Prelude.{ℕ, Option, List, GoString, codes}
use nimbus_fs.Thumbnail.Generator.{Generator}
use nimbus_fs.Api.{Request, Response, Env, App, Handler, UserHandler}
use nimbus_fs.Api.Middleware.{require_auth, require_csrf}
use nimbus_fs.Api.Login.{LoginRequest, login, logout, me}
use nimbus_fs.Api.Features.{get_features, get_file_types, get_auth_methods}
use nimbus_fs.Api.SshAuth.{RespondRequest, ssh_start, ssh_poll, ssh_device_info, ssh_respond}
use nimbus_fs.Api.Files.{
  RenameRequest, SrcDestRequest, Upload, list_files, get_file, delete_file, mkdir, new_file, rename,
  move_entry, copy_entry, upload,
}
use nimbus_fs.Api.Sharing.{CreateShareRequest, new_share, list_own_shares}
use nimbus_fs.Api.Shares.{share_info_of, share_unlock, share_list, share_file, revoke_share}
use nimbus_fs.Api.Search.{search, reindex_search}
use nimbus_fs.Api.Preview.{get_thumbnail}

-- What the decoders make of the body of a request, and the depth of a directory that it copies.
pub record Bodies : Type 0 where
  pub login : Option LoginRequest
  pub username : Option GoString
  pub respond : Option RespondRequest
  pub form : Option (List Upload)
  pub path : Option GoString
  pub renaming : Option RenameRequest
  pub paths : Option SrcDestRequest
  pub fuel : ℕ
  pub share : Option CreateShareRequest
  pub password : Option GoString

-- One for each pattern of New, in its order.
pub data Route : Type 0 where
  post_login : Route
  post_logout : Route
  get_me : Route
  get_methods : Route
  get_offers : Route
  get_types : Route
  post_ssh_start : Route
  get_ssh_poll : Route
  get_ssh_device : Route
  post_ssh_respond : Route
  get_files : Route
  get_one_file : Route
  post_upload : Route
  delete_one_file : Route
  post_mkdir : Route
  post_create_file : Route
  post_rename : Route
  post_move : Route
  post_copy : Route
  post_share : Route
  get_shares : Route
  delete_one_share : Route
  get_share_info : Route
  post_share_unlock : Route
  get_share_files : Route
  get_share_file : Route
  get_search : Route
  post_reindex : Route
  get_preview : Route

-- The method and the path of the pattern.
abbrev pub pattern_of : Route → GoString × GoString
pattern_of post_login = (codes "POST", codes "/api/login")
pattern_of post_logout = (codes "POST", codes "/api/logout")
pattern_of get_me = (codes "GET", codes "/api/me")
pattern_of get_methods = (codes "GET", codes "/api/auth/methods")
pattern_of get_offers = (codes "GET", codes "/api/features")
pattern_of get_types = (codes "GET", codes "/api/file-types")
pattern_of post_ssh_start = (codes "POST", codes "/api/auth/ssh/start")
pattern_of get_ssh_poll = (codes "GET", codes "/api/auth/ssh/poll")
pattern_of get_ssh_device = (codes "GET", codes "/api/auth/ssh/device")
pattern_of post_ssh_respond = (codes "POST", codes "/api/auth/ssh/respond")
pattern_of get_files = (codes "GET", codes "/api/files")
pattern_of get_one_file = (codes "GET", codes "/api/file")
pattern_of post_upload = (codes "POST", codes "/api/upload")
pattern_of delete_one_file = (codes "DELETE", codes "/api/file")
pattern_of post_mkdir = (codes "POST", codes "/api/mkdir")
pattern_of post_create_file = (codes "POST", codes "/api/create-file")
pattern_of post_rename = (codes "POST", codes "/api/rename")
pattern_of post_move = (codes "POST", codes "/api/move")
pattern_of post_copy = (codes "POST", codes "/api/copy")
pattern_of post_share = (codes "POST", codes "/api/shares")
pattern_of get_shares = (codes "GET", codes "/api/shares")
pattern_of delete_one_share = (codes "DELETE", codes "/api/shares/{token}")
pattern_of get_share_info = (codes "GET", codes "/api/s/{token}/info")
pattern_of post_share_unlock = (codes "POST", codes "/api/s/{token}/unlock")
pattern_of get_share_files = (codes "GET", codes "/api/s/{token}/files")
pattern_of get_share_file = (codes "GET", codes "/api/s/{token}/file")
pattern_of get_search = (codes "GET", codes "/api/search")
pattern_of post_reindex = (codes "POST", codes "/api/search/reindex")
pattern_of get_preview = (codes "GET", codes "/api/thumbnail")

module _ {S : Type 0} (env : Env S) where
  -- a.RequireAuth(a.RequireCSRF(h))
  abbrev pub guarded : UserHandler S → Handler S
  guarded h = require_auth env (λ username. require_csrf (h username))

module _ {S : Type 0} (env : Env S) (g : Generator) (bodies : Bodies) where
  -- The handler that New registers for each pattern.
  unfoldable pub serve : Route → Handler S
  serve post_login = login env bodies.login
  serve post_logout = guarded env (logout env)
  serve get_me = require_auth env (me env)
  serve get_methods = get_auth_methods env
  serve get_offers = require_auth env (get_features env)
  serve get_types = require_auth env (get_file_types env)
  serve post_ssh_start = ssh_start env bodies.username
  serve get_ssh_poll = ssh_poll env
  serve get_ssh_device = ssh_device_info env
  serve post_ssh_respond = ssh_respond env bodies.respond
  serve get_files = require_auth env (list_files env)
  serve get_one_file = require_auth env (get_file env)
  serve post_upload = guarded env (upload env bodies.form)
  serve delete_one_file = guarded env (delete_file env)
  serve post_mkdir = guarded env (mkdir env bodies.path)
  serve post_create_file = guarded env (new_file env bodies.path)
  serve post_rename = guarded env (rename env bodies.renaming)
  serve post_move = guarded env (move_entry env bodies.paths)
  serve post_copy = guarded env (copy_entry env bodies.fuel bodies.paths)
  serve post_share = guarded env (new_share env bodies.share)
  serve get_shares = require_auth env (list_own_shares env)
  serve delete_one_share = guarded env (revoke_share env)
  serve get_share_info = share_info_of env
  serve post_share_unlock = share_unlock env bodies.password
  serve get_share_files = share_list env
  serve get_share_file = share_file env
  serve get_search = require_auth env (search env)
  serve post_reindex = require_auth env (reindex_search env)
  serve get_preview = require_auth env (get_thumbnail env g)

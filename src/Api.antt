-- ===== src/Api.antt =====
-- internal/api/api.go: requests, responses and the state that the handlers share. net/http, the JSON
-- codec and the random source are parameters: a handler takes the decoded body, `none` where the
-- decoder fails, and an answer is the value that is encoded.
pub mod Middleware
pub mod Login
pub mod Shares
pub mod Files
pub mod SshAuth
pub mod Sharing
pub mod Search
pub mod Preview
pub mod Features
use nimbus_fs.Prelude.{
  ℕ, ◌+◌, ◌==◌, leb, Bool, true, false, ◌&&◌, ◌||◌, not, if◌then◌else◌, Option, none, some, List,
  [], ◌∷◌, ◌++◌, GoString, codes, str_eq, Time, Result, ok, err, ℤ,
}
use nimbus_fs.GoLib.Strings.{trim_space, lower}
use nimbus_fs.Config.{Config, is_empty}
use nimbus_fs.Fsops.Sandbox.{FsError, escape, not_exist, permission, other, Sandbox}
use nimbus_fs.Fsops.Impersonate.{
  Account, Creds, Kernel, Process, AsResult, setgroups_failed, setfsgid_failed, setfsuid_failed,
  returned, impersonate,
}
use nimbus_fs.Fsops.Access.{Identity}
use nimbus_fs.Fsops.Sys.{Info, Os, World, Sys}
use nimbus_fs.Fsops.Ops.{Entry, Names}
use nimbus_fs.Store.{Store, ignoring, record_audit}
use nimbus_fs.Auth.SessionManager.{Cookie}
use nimbus_fs.Auth.Device.{Random, DeviceStore}
use nimbus_fs.Auth.Keys.{Ssh, KeyFiles}
use nimbus_fs.Search.{View}
use nimbus_fs.Thumbnail.Generator.{Cache}

-- `header` is r.Header.Get, `cookie` the value that r.Cookie finds.
pub record Request : Type 0 where
  pub method : GoString
  pub header : GoString → GoString
  pub cookie : GoString → Option GoString
  pub query : GoString → GoString
  pub path_value : GoString → GoString
  pub remote_addr : GoString
  pub tls : Bool

-- The value of shareToJSON. `expires_at` is left out where the share does not expire.
pub record ShareJson : Type 0 where
  pub token : GoString
  pub path : GoString
  pub name : GoString
  pub is_dir : Bool
  pub mode : GoString
  pub has_password : Bool
  pub created_at : Time
  pub url : GoString
  pub expires_at : Option Time

-- searchResultJSON
pub record SearchResult : Type 0 where
  pub name : GoString
  pub path : GoString
  pub is_dir : Bool
  pub size : ℕ
  pub modified : ℤ
  pub owner : GoString
  pub group : GoString

pub data Body : Type 0 where
  error_message : GoString → Body
  status_ok : Body
  user renamed_to : GoString → Body
  entries : List Entry → Body
  listing : GoString → List Entry → Body
  share_info : GoString → Bool → GoString → Bool → Body
  content : Info → Bool → Body
  share : ShareJson → Body
  shares : List ShareJson → Body
  ssh_started : GoString → GoString → ℕ → Body
  ssh_pending : Body
  ssh_approved ssh_signed : GoString → Body
  ssh_device : GoString → GoString → List GoString → Body
  search_results : List SearchResult → Bool → Body
  reindexing : Body
  thumbnail : GoString → Body
  auth_methods : Bool → Bool → Bool → Body
  features : Bool → Bool → Body
  file_types : List (GoString × GoString) → Body

pub record Response : Type 0 where
  pub status : ℕ
  pub body : Body
  pub cookies : List Cookie

-- What the handlers read: the configuration, what one request draws from the clock and the random
-- source, and the parts of the system that are not the program's.
pub record Env (S : Type 0) : Type 0 where
  pub config : Config
  pub now : Time
  pub session_token : Option GoString
  pub csrf_token : GoString
  pub share_token : Option GoString
  pub accounts : GoString → Option Account
  pub authenticate : GoString → GoString → Bool
  pub check_password : GoString → GoString → Bool
  pub hash_password : GoString → Option GoString
  pub unlock_mac : GoString → GoString
  pub device_random : Option Random
  pub ssh : Ssh
  pub key_files : KeyFiles
  pub kernel : Kernel
  pub os : Creds → Os S
  pub names : Names
  pub search : View
  pub file_type_names : List (GoString × GoString)
  pub sandbox : Sandbox

-- What they change: the calls of Rebuild that were started, the cache of thumbnails, the database, the logins by SSH key that are under way, the credentials of the thread, and the disk.
pub record App (S : Type 0) : Type 0 where
  pub store : Store
  pub devices : DeviceStore
  pub rebuilds : ℕ
  pub cache : Cache
  pub creds : Creds
  pub process : Process
  pub world : World S

abbrev pub Handler : Type 0 → Type 0
Handler S = Request → App S → Response × App S

-- A handler behind RequireAuth gets the user.
abbrev pub UserHandler : Type 0 → Type 0
UserHandler S = GoString → Handler S

-- writeJSON and writeError
abbrev pub write_json : ℕ → Body → Response
write_json status body = record { status = status; body = body; cookies = [] }

abbrev pub write_error : ℕ → GoString → Response
write_error status message = write_json status (error_message message)

abbrev pub set_cookie : Cookie → Response → Response
set_cookie c resp = record resp { cookies = c ∷ resp.cookies }

abbrev pub comma : ℕ
comma = 44

abbrev pub colon : ℕ
colon = 58

-- The first part of strings.Split(s, ",").
unfoldable pub before_comma : GoString → GoString
before_comma [] = []
before_comma (c ∷ s) = let rest = before_comma s in if c == comma then [] else c ∷ rest

-- splitHostPort: the host, which is the whole string where there is no colon.
unfoldable pub has_colon : GoString → Bool
has_colon [] = false
has_colon (c ∷ s) = c == colon || has_colon s

unfoldable pub split_host : GoString → GoString
split_host [] = []
split_host (c ∷ s) =
    let rest = split_host s in if c == colon && not (has_colon s) then [] else c ∷ rest

-- clientIP
unfoldable pub client_ip : Request → GoString
client_ip r =
    let ip = r.header (codes "X-Forwarded-For") in
    if is_empty ip then split_host r.remote_addr else trim_space (before_comma ip)

-- The test of every handler that sets a cookie, on an ASCII header.
unfoldable pub is_secure : Request → Bool
is_secure r = r.tls || str_eq (lower (r.header (codes "X-Forwarded-Proto"))) (codes "https")

-- writeFSError
abbrev pub write_fs_error : FsError → Response
write_fs_error escape = write_error 400 (codes "invalid path")
write_fs_error not_exist = write_error 404 (codes "not found")
write_fs_error permission = write_error 403 (codes "permission denied")
write_fs_error (other m) = write_error 500 (codes "internal error")

abbrev pub result_of : {A : Type 0} → AsResult (Result FsError A) → Result FsError A
result_of setgroups_failed = err (other (codes "setgroups"))
result_of setfsgid_failed = err (other (codes "setfsgid"))
result_of setfsuid_failed = err (other (codes "setfsuid"))
result_of (returned r) = r

module _ {S A : Type 0} (env : Env S) where
  -- fsops.As around an operation of the sandbox.
  unfoldable pub as_account : Identity → (Os S → Sys S A) → App S → Result FsError A × App S
  as_account id op app =
      let (r, c, w, p) =
        impersonate env.kernel app.process id (λ creds. op (env.os creds)) app.creds app.world in
      (result_of r, record app { creds = c; process = p; world = w })

module _ {S : Type 0} (env : Env S) where
  -- A call of RecordAudit whose error is ignored.
  unfoldable pub audited : GoString → GoString → GoString → GoString → GoString → App S → App S
  audited username action path remote_addr detail app = record app {
    store =
        ignoring app.store (record_audit app.store env.now username action path remote_addr detail);
  }

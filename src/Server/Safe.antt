-- ===== src/Server/Safe.antt =====
-- internal/server/server.go: whatever is requested, in whatever order, the server stays safe.
pub mod Middleware
pub mod Logins
pub mod Sharing
pub mod Owning
pub mod Browsing
use nimbus_fs.Prelude.{List, [], ◌∷◌, GoString, ℤ}
use nimbus_fs.Fsops.Impersonate.{Creds}
use nimbus_fs.Fsops.Impersonate.Restores.{SetsCreds, MayRestore}
use nimbus_fs.Fsops.Sandbox.Contained.{IsRoot}
use nimbus_fs.Fsops.Ops.Confined.{ListsNames}
use nimbus_fs.Thumbnail.Generator.{Generator}
use nimbus_fs.Api.{Request, Response, Env, App, Handler}
use nimbus_fs.Api.Login.{logout}
use nimbus_fs.Api.Files.Confined.{Keeps}
use nimbus_fs.Server.{Bodies, Route, serve}

-- A request: its environment, the route that the mux found, and its decoded body.
pub record Call (S : Type 0) : Type 1 where
  pub env : Env S
  pub generator : Generator
  pub bodies : Bodies
  pub route : Route
  pub request : Request

-- The state after the requests, one after the other.
unfoldable pub serve_all : {S : Type 0} → List (Call S) → App S → App S
serve_all [] app = app
serve_all (c ∷ cs) app = serve_all cs (serve c.env c.generator c.bodies c.route c.request app).1

module _ {S : Type 0} (rs : List GoString) (groups : List ℤ) where
  -- What is relied on in an environment: a root that is an absolute clean path other than "/", a
  -- process that may set credentials, and directories with proper names.
  pub record IsReliable (env : Env S) : Type 0 where
    pub sets : SetsCreds env.kernel
    pub may : MayRestore env.kernel groups
    pub root : IsRoot env.sandbox rs
    pub named : (d : Creds) → ListsNames (env.os d)

  module _ (env : Env S) (ok_env : IsReliable env) (r : Request) where
    abbrev Safe : (App S → Response × App S) → Type 0
    Safe = Keeps env rs groups ok_env.sets ok_env.may

  -- Every environment of the requests is reliable.
  abbrev pub AreReliable : List (Call S) → Type 0
  AreReliable [] = Unit
  AreReliable (c ∷ cs) = IsReliable c.env × AreReliable cs

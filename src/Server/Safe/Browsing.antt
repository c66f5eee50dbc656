-- ===== src/Server/Safe/Browsing.antt =====
-- internal/api/search.go and thumbnail.go: searches and thumbnails keep the server safe.
use nimbus_fs.Prelude.{ℕ, Option, none, some, List, GoString, codes, ℤ, Result, ok, err}
use nimbus_fs.Config.{is_empty}
use nimbus_fs.Fsops.Access.{Identity}
use nimbus_fs.Fsops.Impersonate.{Creds, LookupError}
use nimbus_fs.Fsops.Impersonate.Restores.{SetsCreds, MayRestore}
use nimbus_fs.Fsops.Sandbox.{FsError}
use nimbus_fs.Fsops.Sandbox.Contained.{IsRoot, Below}
use nimbus_fs.Fsops.Sys.{Info}
use nimbus_fs.Fsops.Sys.Ensures.{
  Ensures, Anything, bind-Ensures, lift-Ensures, resolved-Ensures, opens-Ensures, reads-Ensures,
}
use nimbus_fs.Fsops.Ops.Confined.{open_entry-Ensures}
use nimbus_fs.Api.{Request, Env, App, as_account}
use nimbus_fs.Api.Files.Confined.{IsSafe, Keeps, as_account-IsSafe}
use nimbus_fs.Thumbnail.{Kind, no_kind, image, video, pdf}
use nimbus_fs.Thumbnail.Generator.{Generator}
use nimbus_fs.Api.Search.{search, reindex_search}
use nimbus_fs.Api.Preview.{
  gate, preview, generated, answer_generated, answer_cached, answer_opened, thumbnail_as,
  thumbnail_of, get_thumbnail,
}
use nimbus_fs.Server.Safe.Middleware.{branch}

module _ {S : Type 0} (env : Env S) (rs : List GoString) (groups : List ℤ)
    (sets : SetsCreds env.kernel) (may : MayRestore env.kernel groups)
    (root : IsRoot env.sandbox rs) where
  pub search-Kept :
      (username : GoString) (r : Request) → Keeps env rs groups sets may (search env username r)
  unfolding search
  search-Kept username r app safe =
      branch rs groups env.config.search.enabled _ _
        (branch rs groups env.search.ready _ _ safe safe) safe

  pub reindex_search-Kept :
      (username : GoString) (r : Request)
      → Keeps env rs groups sets may (reindex_search env username r)
  unfolding reindex_search
  reindex_search-Kept username r app safe = branch rs groups env.config.search.enabled _ _ safe safe

  gate-Ensures : (d : Creds) (p : GoString) → Ensures rs (gate env p (env.os d)) Anything
  unfolding gate
  gate-Ensures d p =
      bind-Ensures rs Anything (open_entry-Ensures (env.os d) env.sandbox rs root p) (λ info _.
        bind-Ensures rs (Below rs) (resolved-Ensures rs (env.os d) env.sandbox root p)
          (λ abs b. lift-Ensures rs Anything _ (λ a e. tt)))

  preview-Ensures :
      (g : Generator) (d : Creds) (p : GoString) (size : ℕ)
      → Ensures rs (preview env g p size (env.os d)) Anything
  unfolding preview
  preview-Ensures g d p size =
      bind-Ensures rs (Below rs) (resolved-Ensures rs (env.os d) env.sandbox root p) (λ abs b.
        bind-Ensures rs Anything (opens-Ensures rs (env.os d) abs b) (λ info _.
          bind-Ensures rs Anything (reads-Ensures rs (env.os d) abs b)
            (λ text _. lift-Ensures rs Anything _ (λ a e. tt))))

  generated-IsSafe :
      (g : Generator) (kind : Kind) (id : Identity) (p : GoString) (size : ℕ) (abs : GoString)
      (app : App S)
      → IsSafe rs groups app
      → IsSafe rs groups (generated env g kind id p size abs app).1
  generated-IsSafe g no_kind id p size abs app safe = safe
  generated-IsSafe g image id p size abs app safe =
      as_account-IsSafe env rs groups sets may id (preview env g p size) app
        (λ d. preview-Ensures g d p size) safe
  generated-IsSafe g video id p size abs app safe = safe
  generated-IsSafe g pdf id p size abs app safe = safe

  answer_generated-IsSafe :
      (g : Generator) (path : GoString) (o : Option GoString) (app : App S)
      → IsSafe rs groups app
      → IsSafe rs groups (answer_generated env g path (o, app)).1
  answer_generated-IsSafe g path none app safe = safe
  answer_generated-IsSafe g path (some bytes) app safe =
      branch rs groups (is_empty bytes) _ _ safe safe

  answer_cached-IsSafe :
      (g : Generator) (kind : Kind) (id : Identity) (p : GoString) (size : ℕ) (abs path : GoString)
      (cached : Option GoString) (app : App S)
      → IsSafe rs groups app
      → IsSafe rs groups (answer_cached env g kind id p size abs path cached app).1
  answer_cached-IsSafe g kind id p size abs path (some bytes) app safe = safe
  answer_cached-IsSafe g kind id p size abs path none app safe =
      answer_generated-IsSafe g path _ _ (generated-IsSafe g kind id p size abs app safe)

  answer_opened-IsSafe :
      (g : Generator) (kind : Kind) (id : Identity) (p : GoString) (size : ℕ)
      (x : Result FsError (Info × GoString)) (app : App S)
      → IsSafe rs groups app
      → IsSafe rs groups (answer_opened env g kind id p size (x, app)).1
  answer_opened-IsSafe g kind id p size (err e) app safe = safe
  answer_opened-IsSafe g kind id p size (ok (info, abs)) app safe =
      branch rs groups info.is_dir _ _ safe (answer_cached-IsSafe g kind id p size abs _ _ app safe)

  thumbnail_as-IsSafe :
      (g : Generator) (kind : Kind) (p : GoString) (size : ℕ) (l : Result LookupError Identity)
      (app : App S)
      → IsSafe rs groups app
      → IsSafe rs groups (thumbnail_as env g kind p size l app).1
  thumbnail_as-IsSafe g kind p size (err e) app safe = safe
  thumbnail_as-IsSafe g kind p size (ok id) app safe =
      let (x, app') = as_account env id (gate env p) app in
      answer_opened-IsSafe g kind id p size x app'
        (as_account-IsSafe env rs groups sets may id (gate env p) app (λ d. gate-Ensures d p) safe)

  thumbnail_of-IsSafe :
      (g : Generator) (kind : Kind) (username p : GoString) (size : ℕ)
      (x : Result GoString (Unit {0})) (app : App S)
      → IsSafe rs groups app
      → IsSafe rs groups (thumbnail_of env g kind username p size x app).1
  thumbnail_of-IsSafe g kind username p size (err message) app safe = safe
  thumbnail_of-IsSafe g kind username p size (ok u) app safe =
      thumbnail_as-IsSafe g kind p size _ app safe

  pub get_thumbnail-Kept :
      (g : Generator) (username : GoString) (r : Request)
      → Keeps env rs groups sets may (get_thumbnail env g username r)
  unfolding get_thumbnail
  get_thumbnail-Kept g username r app safe =
      branch rs groups (is_empty (r.query (codes "path"))) _ _ safe
        (thumbnail_of-IsSafe g _ username (r.query (codes "path")) _ _ app safe)

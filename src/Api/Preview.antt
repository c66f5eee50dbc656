-- ===== src/Api/Preview.antt =====
-- internal/api/thumbnail.go: Thumbnail.
pub mod Gate
pub mod Opens
use nimbus_fs.Prelude.{
  ℕ, Bool, true, false, ◌&&◌, not, leb, ltb, if◌then◌else◌, Option, none, some, List, [], ◌∷◌,
  GoString, codes, Result, ok, err, ℤ, pos, negsuc, unix,
}
use nimbus_fs.Config.{is_empty}
use nimbus_fs.GoLib.Path.{ext}
use nimbus_fs.GoLib.Decimal.{atoi}
use nimbus_fs.Fsops.Access.{Identity}
use nimbus_fs.Fsops.Impersonate.{LookupError, lookup_identity}
use nimbus_fs.Fsops.Sandbox.{FsError, other, Sandbox}
use nimbus_fs.Fsops.Sys.{Info, Os, Sys, ◌>>=◌, ◌>>◌, lift, resolved, opens, reads}
use nimbus_fs.Fsops.Ops.{open_entry}
use nimbus_fs.Thumbnail.{Kind, no_kind, image, video, pdf, kind_for_ext}
use nimbus_fs.Thumbnail.Generator.{
  RunAsUser, Generator, supports_video, supports_pdf, cache_path, from_image, from_video, from_pdf,
}
use nimbus_fs.Api.{
  Request, Response, Body, thumbnail, Env, App, UserHandler, write_json, write_error,
  write_fs_error, as_account,
}
use nimbus_fs.Api.Files.{path_required}

abbrev pub default_size : ℕ
default_size = 256

abbrev pub sized : Option ℤ → ℕ
sized none = default_size
sized (some (pos n)) = if ltb 0 n && leb n 1024 then n else default_size
sized (some (negsuc n)) = default_size

-- The size of the query, or the default where it is none that is allowed.
unfoldable pub size_of : GoString → ℕ
size_of s = if is_empty s then default_size else sized (atoi s)

-- runAsFor
abbrev pub run_as_for : Identity → RunAsUser
run_as_for id = record { uid = id.uid; gid = id.gid; groups = id.groups }

abbrev pub serve_thumbnail : GoString → Response
serve_thumbnail bytes = write_json 200 (thumbnail bytes)

abbrev pub image_result : Option GoString → Result FsError GoString
image_result none = err (other (codes "image"))
image_result (some bytes) = ok bytes

abbrev pub bytes_of : Result FsError GoString → Option GoString
bytes_of (err e) = none
bytes_of (ok bytes) = some bytes

abbrev pub supported : Generator → Kind → Result GoString (Unit {0})
supported g no_kind = err (codes "no thumbnail available for this file type")
supported g image = ok tt
supported g video =
    if supports_video g
    then ok tt
    else err (codes "video thumbnails are unavailable (ffmpeg not installed)")
supported g pdf =
    if supports_pdf g
    then ok tt
    else err (codes "pdf thumbnails are unavailable (pdftoppm not installed)")

module _ {S : Type 0} (env : Env S) where
  -- The function of the first As: Open, whose file is only looked at, and AbsPath.
  unfoldable pub gate : GoString → Os S → Sys S (Info × GoString)
  gate p os = do
    info ← open_entry os env.sandbox p
    abs ← resolved os env.sandbox p
    lift (ok (info, abs))

module _ {S : Type 0} (env : Env S) (g : Generator) where
  -- The function of the second As: the file is read by FromImage.
  unfoldable pub preview : GoString → ℕ → Os S → Sys S GoString
  preview p size os = do
    abs ← resolved os env.sandbox p
    opens os abs
    text ← reads os abs
    lift (image_result (from_image g.imaging text size))

  abbrev pub with_bytes : Result FsError GoString × App S → Option GoString × App S
  with_bytes (r, app) = (bytes_of r, app)

  -- The switch over the kind.
  abbrev pub generated : Kind → Identity → GoString → ℕ → GoString → App S → Option GoString × App S
  generated no_kind id p size abs app = (none, app)
  generated image id p size abs app = with_bytes (as_account env id (preview p size) app)
  generated video id p size abs app = (from_video g abs size (run_as_for id), app)
  generated pdf id p size abs app = (from_pdf g abs size (run_as_for id), app)

  abbrev pub no_thumbnail : Response
  no_thumbnail = write_error 500 (codes "could not generate thumbnail")

  abbrev pub answer_generated : GoString → Option GoString × App S → Response × App S
  answer_generated path (none, app) = (no_thumbnail, app)
  answer_generated path (some bytes, app) =
      if is_empty bytes
      then (no_thumbnail, app)
      else (serve_thumbnail bytes, record app { cache = g.save path bytes app.cache })

  abbrev pub answer_cached :
      Kind
      → Identity
      → GoString
      → ℕ
      → GoString
      → GoString
      → Option GoString
      → App S
      → Response × App S
  answer_cached kind id p size abs path (some bytes) app = (serve_thumbnail bytes, app)
  answer_cached kind id p size abs path none app =
      answer_generated path (generated kind id p size abs app)

  abbrev pub answer_opened :
      Kind → Identity → GoString → ℕ → Result FsError (Info × GoString) × App S → Response × App S
  answer_opened kind id p size (err e, app) = (write_fs_error e, app)
  answer_opened kind id p size (ok (info, abs), app) =
      if info.is_dir
      then (write_error 400 (codes "cannot thumbnail a directory"), app)
      else let path = cache_path g p size (unix info.modified) info.size in
        answer_cached kind id p size abs path (app.cache path) app

  abbrev pub thumbnail_as :
      Kind → GoString → ℕ → Result LookupError Identity → App S → Response × App S
  thumbnail_as kind p size (err e) app = (write_error 500 (codes "user lookup failed"), app)
  thumbnail_as kind p size (ok id) app =
      answer_opened kind id p size (as_account env id (gate env p) app)

  abbrev pub thumbnail_of :
      Kind → GoString → GoString → ℕ → Result GoString (Unit {0}) → App S → Response × App S
  thumbnail_of kind username p size (err message) app = (write_error 404 message, app)
  thumbnail_of kind username p size (ok u) app =
      thumbnail_as kind p size (lookup_identity env.accounts username) app

  -- Thumbnail
  unfoldable pub get_thumbnail : UserHandler S
  get_thumbnail username r app =
      let p = r.query (codes "path") in
      let kind = kind_for_ext (ext p) in
      if is_empty p
      then (path_required env, app)
      else thumbnail_of kind username p (size_of (r.query (codes "size"))) (supported g kind) app

-- ===== src/Api/Files.antt =====
-- internal/api/api.go: the file handlers. Each one runs its operation of the sandbox as the user,
-- and records it once it has succeeded.
pub mod Confined
pub mod Safe
use nimbus_fs.Prelude.{
  ℕ, ◌==◌, Bool, true, false, ◌||◌, if◌then◌else◌, Option, none, some, List, [], ◌∷◌, GoString,
  codes, str_eq, Result, ok, err,
}
use nimbus_fs.Config.{is_empty}
use nimbus_fs.GoLib.Path.{slash, join}
use nimbus_fs.Fsops.Access.{Identity}
use nimbus_fs.Fsops.Sandbox.{FsError}
use nimbus_fs.Fsops.Impersonate.{LookupError, lookup_identity}
use nimbus_fs.Fsops.Sys.{Info, write, Os, Sys, ◌>>=◌, does}
use nimbus_fs.Fsops.Ops.{
  Entry, list, make_dir, create_file, delete, rename_entry, move, open_entry, create,
}
use nimbus_fs.Fsops.Ops.Copying.{copy}
use nimbus_fs.Api.{
  Request, Response, Body, listing, content, renamed_to, status_ok, Env, App, Handler, UserHandler,
  write_json, write_error, write_fs_error, client_ip, as_account, audited,
}
use nimbus_fs.Api.Shares.{is_download}

pub record RenameRequest : Type 0 where
  pub path : GoString
  pub new_name : GoString

pub record SrcDestRequest : Type 0 where
  pub src : GoString
  pub dest : GoString

-- A file of the multipart form: opening it may fail.
pub record Upload : Type 0 where
  pub filename : GoString
  pub opened : Option GoString

abbrev pub backslash : ℕ
backslash = 92

-- strings.ContainsAny(name, "/\\")
unfoldable pub has_separator : GoString → Bool
has_separator [] = false
has_separator (c ∷ s) = c == slash || c == backslash || has_separator s

abbrev pub or_root : GoString → GoString
or_root p = if is_empty p then codes "/" else p

module _ {S : Type 0} (env : Env S) where
  -- The part of a handler behind LookupIdentity: `op` runs as the user, `finish` answers.
  abbrev pub with_account :
      {A : Type 0}
      → (Os S → Sys S A)
      → (Result FsError A × App S → Response × App S)
      → App S
      → Result LookupError Identity
      → Response × App S
  with_account op finish app (err e) = (write_error 500 (codes "user lookup failed"), app)
  with_account op finish app (ok id) = finish (as_account env id op app)

  abbrev pub as_username :
      {A : Type 0}
      → GoString
      → (Os S → Sys S A)
      → (Result FsError A × App S → Response × App S)
      → App S
      → Response × App S
  as_username username op finish app =
      with_account op finish app (lookup_identity env.accounts username)

  abbrev pub answered :
      GoString
      → Request
      → GoString
      → GoString
      → GoString
      → Result FsError (Unit {0}) × App S
      → Response × App S
  answered username r action p detail (err e, app) = (write_fs_error e, app)
  answered username r action p detail (ok u, app) =
      (write_json 200 status_ok, audited env username action p (client_ip r) detail app)

  abbrev pub answer_listing : GoString → Result FsError (List Entry) × App S → Response × App S
  answer_listing p (err e, app) = (write_fs_error e, app)
  answer_listing p (ok es, app) = (write_json 200 (listing p es), app)

  -- ListFiles
  unfoldable pub list_files : UserHandler S
  list_files username r app =
      let p = or_root (r.query (codes "path")) in
      as_username username (λ os. list os env.names env.sandbox p) (answer_listing p) app

  abbrev pub answer_file :
      GoString → Request → GoString → Result FsError Info × App S → Response × App S
  answer_file username r p (err e, app) = (write_fs_error e, app)
  answer_file username r p (ok info, app) =
      if info.is_dir
      then (write_error 400 (codes "cannot download a directory directly"), app)
      else (
        write_json 200 (content info (is_download r)),
        audited env username (codes "download") p (client_ip r) [] app,
      )

  abbrev pub path_required : Response
  path_required = write_error 400 (codes "path is required")

  -- GetFile
  unfoldable pub get_file : UserHandler S
  get_file username r app =
      let p = r.query (codes "path") in
      if is_empty p
      then (path_required, app)
      else as_username username (λ os. open_entry os env.sandbox p) (answer_file username r p) app

  -- DeleteFile
  unfoldable pub delete_file : UserHandler S
  delete_file username r app =
      let p = r.query (codes "path") in
      if is_empty p
      then (path_required, app)
      else as_username username (λ os. delete os env.sandbox p)
          (answered username r (codes "delete") p []) app

  -- Mkdir of api.go, with the path of the decoded body.
  unfoldable pub mkdir : Option GoString → UserHandler S
  mkdir none username r app = (path_required, app)
  mkdir (some p) username r app =
      if is_empty p
      then (path_required, app)
      else as_username username (λ os. make_dir os env.sandbox p)
          (answered username r (codes "mkdir") p []) app

  -- CreateFile of api.go.
  unfoldable pub new_file : Option GoString → UserHandler S
  new_file none username r app = (path_required, app)
  new_file (some p) username r app =
      if is_empty p
      then (path_required, app)
      else as_username username (λ os. create_file os env.sandbox p)
          (answered username r (codes "create_file") p []) app

  abbrev pub answer_renamed :
      GoString → Request → GoString → Result FsError GoString × App S → Response × App S
  answer_renamed username r p (err e, app) = (write_fs_error e, app)
  answer_renamed username r p (ok new_path, app) = (
    write_json 200 (renamed_to new_path),
    audited env username (codes "rename") p (client_ip r) new_path app,
  )

  -- Rename of api.go.
  unfoldable pub rename : Option RenameRequest → UserHandler S
  rename none username r app = (write_error 400 (codes "path and newName are required"), app)
  rename (some req) username r app =
      if is_empty req.path || is_empty req.new_name
      then (write_error 400 (codes "path and newName are required"), app)
      else if has_separator req.new_name
      then (write_error 400 (codes "newName must not contain path separators"), app)
      else as_username username (λ os. rename_entry os env.sandbox req.path req.new_name)
          (answer_renamed username r req.path) app

  -- handleSrcDest
  unfoldable pub handle_src_dest :
      GoString → (Os S → SrcDestRequest → Sys S (Unit {0})) → Option SrcDestRequest → UserHandler S
  handle_src_dest action fn none username r app =
      (write_error 400 (codes "src and dest are required"), app)
  handle_src_dest action fn (some req) username r app =
      if is_empty req.src || is_empty req.dest
      then (write_error 400 (codes "src and dest are required"), app)
      else as_username username (λ os. fn os req) (answered username r action req.src req.dest) app

  -- Move of api.go.
  unfoldable pub move_entry : Option SrcDestRequest → UserHandler S
  move_entry = handle_src_dest (codes "move") (λ os req. move os env.sandbox req.src req.dest)

  -- Copy of api.go; `fuel` bounds the depth of a copied directory.
  unfoldable pub copy_entry : ℕ → Option SrcDestRequest → UserHandler S
  copy_entry fuel =
      handle_src_dest (codes "copy") (λ os req. copy os fuel env.sandbox req.src req.dest)

  -- The function that Upload runs as the user: Create and io.Copy.
  unfoldable pub store_upload : GoString → GoString → Os S → Sys S (Unit {0})
  store_upload dest text os = do abs ← create os env.sandbox dest; does os (write abs text)

  -- The loop of Upload: it ends at the first file that fails.
  abbrev pub uploaded :
      GoString
      → Request
      → GoString
      → (App S → Response × App S)
      → Result FsError (Unit {0}) × App S
      → Response × App S
  uploaded username r dest rest (err e, app) = (write_fs_error e, app)
  uploaded username r dest rest (ok u, app) =
      rest (audited env username (codes "upload") dest (client_ip r) [] app)

  abbrev pub upload_opened :
      Identity
      → GoString
      → Request
      → GoString
      → Option GoString
      → (App S → Response × App S)
      → App S
      → Response × App S
  upload_opened id username r dest none rest app =
      (write_error 400 (codes "could not read upload"), app)
  upload_opened id username r dest (some text) rest app =
      uploaded username r dest rest (as_account env id (store_upload dest text) app)

  unfoldable pub upload_files :
      Identity → GoString → Request → List Upload → App S → Response × App S
  upload_files id username r [] app = (write_json 200 status_ok, app)
  upload_files id username r (f ∷ fs) app =
      upload_opened id username r (join (or_root (r.query (codes "path")) ∷ f.filename ∷ []))
        f.opened (upload_files id username r fs) app

  abbrev pub upload_form :
      Identity → GoString → Request → Option (List Upload) → App S → Response × App S
  upload_form id username r none app = (write_error 400 (codes "invalid upload"), app)
  upload_form id username r (some []) app = (write_error 400 (codes "no files provided"), app)
  upload_form id username r (some (f ∷ fs)) app = upload_files id username r (f ∷ fs) app

  abbrev pub upload_as :
      GoString
      → Request
      → Option (List Upload)
      → App S
      → Result LookupError Identity
      → Response × App S
  upload_as username r form app (err e) = (write_error 500 (codes "user lookup failed"), app)
  upload_as username r form app (ok id) = upload_form id username r form app

  -- Upload, with the files of the form.
  unfoldable pub upload : Option (List Upload) → UserHandler S
  upload form username r app = upload_as username r form app (lookup_identity env.accounts username)

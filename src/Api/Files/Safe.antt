-- ===== src/Api/Files/Safe.antt =====
-- internal/api/api.go: each file handler, and all of them.
use nimbus_fs.Prelude.{
  ℕ, Bool, if◌then◌else◌, ◌||◌, Option, none, some, List, [], ◌∷◌, GoString, codes, ℤ, Result, ok,
  err,
}
use nimbus_fs.Config.{is_empty}
use nimbus_fs.GoLib.Path.{join}
use nimbus_fs.Fsops.Access.{Identity}
use nimbus_fs.Fsops.Sandbox.{FsError}
use nimbus_fs.Fsops.Sandbox.Contained.{IsRoot, Below}
use nimbus_fs.Fsops.Impersonate.{Creds, LookupError, lookup_identity}
use nimbus_fs.Fsops.Impersonate.Restores.{SetsCreds, MayRestore}
use nimbus_fs.Fsops.Sys.{Os, Sys, write}
use nimbus_fs.Fsops.Sys.Ensures.{Ensures, Anything, bind-Ensures, does-Ensures}
use nimbus_fs.Fsops.Ops.Confined.{
  ListsNames, make_dir-Ensures, create_file-Ensures, delete-Ensures, rename_entry-Ensures,
  move-Ensures, create-Ensures, open_entry-Ensures, list-Ensures, copy-Ensures,
}
use nimbus_fs.Fsops.Ops.{list, open_entry, delete, make_dir, create_file, rename_entry, move}
use nimbus_fs.Fsops.Ops.Copying.{copy}
use nimbus_fs.Api.{Request, Response, Env, App, audited, client_ip}
use nimbus_fs.Api.Files.{
  as_username, answered, answer_listing, answer_renamed, answer_file, path_required, RenameRequest,
  SrcDestRequest, Upload, has_separator, or_root, list_files, get_file, delete_file, mkdir,
  new_file, rename, handle_src_dest, move_entry, copy_entry, store_upload, uploaded, upload_opened,
  upload_files, upload_as, upload,
}
use nimbus_fs.Api.Files.Confined.{
  IsSafe, Keeps, Finishes, as_account-IsSafe, as_username-IsSafe, answered-Finishes,
  answer_listing-Finishes, answer_renamed-Finishes, answer_file-Finishes, unless,
}

module _ {S : Type 0} (env : Env S) (rs : List GoString) (groups : List ℤ)
    (sets : SetsCreds env.kernel) (may : MayRestore env.kernel groups)
    (root : IsRoot env.sandbox rs) (username : GoString) (r : Request) where
  abbrev pub Kept : (App S → Response × App S) → Type 0
  Kept = Keeps env rs groups sets may

  kept :
      {A : Type 0} (op : Os S → Sys S A) (finish : Result FsError A × App S → Response × App S)
      → ((d : Creds) → Ensures rs (op (env.os d)) Anything)
      → Finishes env rs groups sets may finish
      → Kept (as_username env username op finish)
  kept op finish h f app = as_username-IsSafe env rs groups sets may username op finish app h f

  -- An operation without a result behind As, and its record.
  runs :
      (op : Os S → Sys S (Unit {0})) (action p detail : GoString)
      → ((d : Creds) → Ensures rs (op (env.os d)) Anything)
      → Kept (as_username env username op (answered env username r action p detail))
  runs op action p detail h =
      kept op (answered env username r action p detail) h
        (answered-Finishes env rs groups sets may username r action p detail)

  list_files-Kept : Kept (list_files env username r)
  unfolding list_files
  list_files-Kept =
      let p = or_root (r.query (codes "path")) in
      kept (λ os. list os env.names env.sandbox p) (answer_listing env p)
        (λ d. list-Ensures (env.os d) env.sandbox rs root env.names p)
        (answer_listing-Finishes env rs groups sets may username r p)

  get_file-Kept : Kept (get_file env username r)
  unfolding get_file
  get_file-Kept =
      let p = r.query (codes "path") in
      unless env rs groups sets may (is_empty p) (path_required env)
        (as_username env username (λ os. open_entry os env.sandbox p)
          (answer_file env username r p))
        (kept (λ os. open_entry os env.sandbox p) (answer_file env username r p)
          (λ d. open_entry-Ensures (env.os d) env.sandbox rs root p)
          (answer_file-Finishes env rs groups sets may username r p))

  -- The same behind the check that a path is given.
  runs_unless :
      (b : Bool) (resp : Response) (op : Os S → Sys S (Unit {0})) (action p detail : GoString)
      → ((d : Creds) → Ensures rs (op (env.os d)) Anything)
      → Kept (λ app.
        if b
        then (resp, app)
        else as_username env username op (answered env username r action p detail) app)
  runs_unless b resp op action p detail h =
      unless env rs groups sets may b resp
        (as_username env username op (answered env username r action p detail))
        (runs op action p detail h)

  delete_file-Kept : Kept (delete_file env username r)
  unfolding delete_file
  delete_file-Kept =
      let p = r.query (codes "path") in
      runs_unless (is_empty p) (path_required env) (λ os. delete os env.sandbox p) (codes "delete")
        p [] (λ d. delete-Ensures (env.os d) env.sandbox rs root p)

  mkdir-Kept : (body : Option GoString) → Kept (mkdir env body username r)
  unfolding mkdir
  mkdir-Kept none app = λ safe. safe
  mkdir-Kept (some p) app =
      runs_unless (is_empty p) (path_required env) (λ os. make_dir os env.sandbox p) (codes "mkdir")
        p [] (λ d. make_dir-Ensures (env.os d) env.sandbox rs root p) app

  new_file-Kept : (body : Option GoString) → Kept (new_file env body username r)
  unfolding new_file
  new_file-Kept none app = λ safe. safe
  new_file-Kept (some p) app =
      runs_unless (is_empty p) (path_required env) (λ os. create_file os env.sandbox p)
        (codes "create_file") p [] (λ d. create_file-Ensures (env.os d) env.sandbox rs root p) app

  rename-Kept : (body : Option RenameRequest) → Kept (rename env body username r)
  unfolding rename
  rename-Kept none app = λ safe. safe
  rename-Kept (some req) app =
      unless env rs groups sets may (is_empty req.path || is_empty req.new_name) _
        (λ app. if has_separator req.new_name then _ else run app)
        (unless env rs groups sets may (has_separator req.new_name) _ run (
          kept (λ os. rename_entry os env.sandbox req.path req.new_name)
            (answer_renamed env username r req.path)
            (λ d. rename_entry-Ensures (env.os d) env.sandbox rs root req.path req.new_name)
            (answer_renamed-Finishes env rs groups sets may username r req.path)))
        app
    where
      run : App S → Response × App S
      run =
          as_username env username (λ os. rename_entry os env.sandbox req.path req.new_name)
            (answer_renamed env username r req.path)

  handle_src_dest-Kept :
      (action : GoString) (fn : Os S → SrcDestRequest → Sys S (Unit {0}))
      (body : Option SrcDestRequest)
      → ((d : Creds) (req : SrcDestRequest) → Ensures rs (fn (env.os d) req) Anything)
      → Kept (handle_src_dest env action fn body username r)
  unfolding handle_src_dest
  handle_src_dest-Kept action fn none h app = λ safe. safe
  handle_src_dest-Kept action fn (some req) h app =
      runs_unless (is_empty req.src || is_empty req.dest) _ (λ os. fn os req) action req.src
        req.dest (λ d. h d req) app

  move_entry-Kept : (body : Option SrcDestRequest) → Kept (move_entry env body username r)
  unfolding move_entry
  move_entry-Kept body =
      handle_src_dest-Kept (codes "move") (λ os req. move os env.sandbox req.src req.dest) body
        (λ d req. move-Ensures (env.os d) env.sandbox rs root req.src req.dest)

  copy_entry-Kept :
      ((d : Creds) → ListsNames (env.os d))
      → (fuel : ℕ) (body : Option SrcDestRequest) → Kept (copy_entry env fuel body username r)
  unfolding copy_entry
  copy_entry-Kept named fuel body =
      handle_src_dest-Kept (codes "copy") (λ os req. copy os fuel env.sandbox req.src req.dest) body
        (λ d req. copy-Ensures (env.os d) env.sandbox rs root (named d) fuel req.src req.dest)

  upload_opened-Kept :
      (id : Identity) (dest : GoString) (opened : Option GoString) (rest : App S → Response × App S)
      → Kept rest
      → Kept (upload_opened env id username r dest opened rest)
  unfolding store_upload audited
  upload_opened-Kept id dest none rest k app safe = safe
  upload_opened-Kept id dest (some text) rest k app safe = written _ _ (
      as_account-IsSafe env rs groups sets may id (store_upload env dest text) app
        (λ d.
          bind-Ensures rs (Below rs) (create-Ensures (env.os d) env.sandbox rs root dest)
            (λ abs b. does-Ensures rs (env.os d) (write abs text) b))
        safe)
    where
      written :
          (x : Result FsError (Unit {0})) (app' : App S)
          → IsSafe rs groups app'
          → IsSafe rs groups (uploaded env username r dest rest (x, app')).1
      written (err e) app' safe' = safe'
      written (ok u) app' safe' =
          k (audited env username (codes "upload") dest (client_ip r) [] app') safe'

  upload_files-Kept : (id : Identity) (fs : List Upload) → Kept (upload_files env id username r fs)
  unfolding upload_files
  upload_files-Kept id [] app = λ safe. safe
  upload_files-Kept id (f ∷ fs) app =
      upload_opened-Kept id (join (or_root (r.query (codes "path")) ∷ f.filename ∷ [])) f.opened
        (upload_files env id username r fs) (upload_files-Kept id fs) app

  upload-Kept : (form : Option (List Upload)) → Kept (upload env form username r)
  unfolding upload
  upload-Kept form app safe = found (lookup_identity env.accounts username) form
    where
      found :
          (x : Result LookupError Identity) (form : Option (List Upload))
          → IsSafe rs groups (upload_as env username r form app x).1
      found (err e) form = safe
      found (ok id) none = safe
      found (ok id) (some []) = safe
      found (ok id) (some (f ∷ fs)) = upload_files-Kept id (f ∷ fs) app safe

  -- With a root that is an absolute clean path other than "/", a process that may set
  -- credentials, and directories with proper names: whatever the file handlers are asked, and in
  -- each of their branches, every path that they use lies below the root, except that MkdirAll is
  -- also given the parent of such a path, and the lookups of Resolve ancestors of the root; and the
  -- thread keeps the server's own credentials.
  pub file_handlers-Kept :
      ((d : Creds) → ListsNames (env.os d))
      → (path : Option GoString) (renaming : Option RenameRequest) (paths : Option SrcDestRequest)
        (form : Option (List Upload)) (fuel : ℕ)
      → Kept (list_files env username r)
        × Kept (get_file env username r)
        × Kept (delete_file env username r)
        × Kept (mkdir env path username r)
        × Kept (new_file env path username r)
        × Kept (rename env renaming username r)
        × Kept (move_entry env paths username r)
        × Kept (copy_entry env fuel paths username r)
        × Kept (upload env form username r)
  file_handlers-Kept named path renaming paths form fuel = (
    list_files-Kept,
    get_file-Kept,
    delete_file-Kept,
    mkdir-Kept path,
    new_file-Kept path,
    rename-Kept renaming,
    move_entry-Kept paths,
    copy_entry-Kept named fuel paths,
    upload-Kept form,
  )

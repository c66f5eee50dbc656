-- ===== src/Api/Preview/Gate.antt =====
-- internal/api/thumbnail.go: who gets a thumbnail.
use nimbus_fs.Prelude.{
  ℕ, Bool, true, false, if◌then◌else◌, ◌≡◌, refl, sym, ap, ◌∙◌, ok_inj, GoString, codes, Result, ok,
  err, arith,
}
use nimbus_fs.Config.{is_empty}
use nimbus_fs.GoLib.Path.{ext}
use nimbus_fs.Fsops.Access.{Identity}
use nimbus_fs.Fsops.Impersonate.{LookupError, lookup_identity}
use nimbus_fs.Fsops.Sandbox.{FsError, escape, not_exist, permission, other}
use nimbus_fs.Fsops.Sys.{Info, Os, World, lift, resolved}
use nimbus_fs.Fsops.Sys.Inversion.{>>=-ok}
use nimbus_fs.Fsops.Ops.{open_entry}
use nimbus_fs.Api.Preview.Opens.{as_account-eq-ok}
use nimbus_fs.Thumbnail.{Kind, kind_for_ext}
use nimbus_fs.Thumbnail.Generator.{Generator}
use nimbus_fs.Api.{Request, Response, Env, App, as_account, write_fs_error}
use nimbus_fs.Api.Files.{path_required}
use nimbus_fs.Api.Preview.{
  size_of, supported, gate, answer_opened, thumbnail_as, thumbnail_of, get_thumbnail,
}

-- A test whose first branch cannot be.
if_false :
    {A : Type 0} (b : Bool) (x y : A) (P : A → Type 0)
    → P (if b then x else y)
    → (P x → ⊥)
    → b ≡ false
if_false true x y P h n = absurd (n h)
if_false false x y P h n = refl

module _ {S : Type 0} (env : Env S) (g : Generator) (p : GoString) where
  -- The user has an account, and opened the path as a file with the rights of that account.
  abbrev pub MayOpen : GoString → App S → Type 0
  MayOpen username app =
      (id : Identity) × (info : Info) × (lookup_identity env.accounts username ≡ ok id)
      × ((as_account env id (λ os. open_entry os env.sandbox p) app).0 ≡ ok info)
      × (info.is_dir ≡ false)

  -- Where the function of the first As succeeds, Open does.
  gate-opens :
      (os : Os S) (w : World S) (info : Info) (abs : GoString)
      → (gate env p os w).0 ≡ ok (info, abs)
      → (open_entry os env.sandbox p w).0 ≡ ok info
  unfolding gate lift
  gate-opens os w info abs h =
      let (i, e, same) = >>=-ok (open_entry os env.sandbox p) _ w (info, abs) h in
      let h' = ap (λ r. r.0) (sym same) ∙ h in
      let (a, e', same') = >>=-ok (resolved os env.sandbox p) _ _ (info, abs) h' in
      let h'' = ap (λ r. r.0) (sym same') ∙ h' in
      e ∙ ap (λ (x : Info × GoString). ok x.0) (ok_inj h'')

  fs_error-status : (e : FsError) → (write_fs_error e).status ≡ 200 → ⊥
  fs_error-status escape h = absurd (omega (arith, h))
  fs_error-status not_exist h = absurd (omega (arith, h))
  fs_error-status permission h = absurd (omega (arith, h))
  fs_error-status (other m) h = absurd (omega (arith, h))

  opened :
      (kind : Kind) (id : Identity) (size : ℕ) (x : Result FsError (Info × GoString) × App S)
      → (answer_opened env g kind id p size x).0.status ≡ 200
      → (info : Info) × (abs : GoString) × (x.0 ≡ ok (info, abs)) × (info.is_dir ≡ false)
  opened kind id size (err e, app) h = absurd (fs_error-status e h)
  opened kind id size (ok (info, abs), app) h = (
    info,
    abs,
    refl,
    if_false info.is_dir _ _ (λ (s : Response × App S). s.0.status ≡ 200) h
        (λ s. absurd (omega (arith, s))),
  )

  found :
      (kind : Kind) (username : GoString) (size : ℕ) (l : Result LookupError Identity) (app : App S)
      → lookup_identity env.accounts username ≡ l
      → (thumbnail_as env g kind p size l app).0.status ≡ 200
      → MayOpen username app
  found kind username size (err e) app l h = absurd (omega (arith, h))
  found kind username size (ok id) app l h =
      let (info, abs, e, d) = opened kind id size (as_account env id (gate env p) app) h in
      (
        id,
        info,
        l,
        as_account-eq-ok env id (gate env p) (λ os. open_entry os env.sandbox p) (λ x. x.0) app
            (info, abs) (λ d w. gate-opens (env.os d) w info abs) e,
        d,
      )

  supported_kind :
      (kind : Kind) (username : GoString) (size : ℕ) (ok_kind : Result GoString (Unit {0}))
      (app : App S)
      → (thumbnail_of env g kind username p size ok_kind app).0.status ≡ 200
      → MayOpen username app
  supported_kind kind username size (err m) app h = absurd (omega (arith, h))
  supported_kind kind username size (ok u) app h = found kind username size _ app refl h

-- Whoever gets a thumbnail, cached or new, has an account with whose rights the file was opened for
-- this very request: no answer with status 200 leaves the cache or a program without that.
pub get_thumbnail-MayOpen :
    {S : Type 0} (env : Env S) (g : Generator) (username : GoString) (r : Request) (app : App S)
    → (get_thumbnail env g username r app).0.status ≡ 200
    → MayOpen env g (r.query (codes "path")) username app
unfolding get_thumbnail
get_thumbnail-MayOpen env g username r app h =
    given (r.query (codes "path")) (is_empty (r.query (codes "path"))) h
  where
    given :
        (p : GoString) (b : Bool)
        → (if b
            then (path_required env, app)
            else thumbnail_of env g
                (kind_for_ext (ext p))
                username
                p
                (size_of (r.query (codes "size")))
                (supported g (kind_for_ext (ext p)))
                app).0.status
          ≡ 200
        → MayOpen env g p username app
    given p true s = absurd (omega (arith, s))
    given p false s = supported_kind env g p (kind_for_ext (ext p)) username _ _ app s

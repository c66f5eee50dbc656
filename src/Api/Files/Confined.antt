-- ===== src/Api/Files/Confined.antt =====
-- internal/api/api.go: what the file handlers keep true of the server, whatever they are asked.
use nimbus_fs.Prelude.{
  Bool, true, false, if◌then◌else◌, ◌≡◌, ◌⊎◌, subst, sym, inl, inr, some, Bool-cases, List,
  GoString, All, ℤ, Result, ok, err,
}
use nimbus_fs.Fsops.Access.{Identity}
use nimbus_fs.Fsops.Sandbox.{FsError}
use nimbus_fs.Fsops.Impersonate.{
  Creds, LookupError, lookup_identity, returned, Task, capture_root_groups, as_user, impersonate,
}
use nimbus_fs.Fsops.Impersonate.Restores.{
  SetsCreds, MayRestore, root_creds, creds_reached, IsFailure, as_user-runs,
}
use nimbus_fs.Fsops.Sys.{Os, World, Sys}
use nimbus_fs.Fsops.Sys.Ensures.{IsConfined, Ensures, Anything}
use nimbus_fs.Api.{Request, Response, Env, App, as_account, audited}
use nimbus_fs.Api.Files.{
  as_username, with_account, answered, answer_listing, answer_renamed, answer_file,
}

-- Every path that was used is confined to the root, and the thread has the server's own credentials, whose
-- groups were captured.
abbrev pub IsSafe : {S : Type 0} → List GoString → List ℤ → App S → Type 0
IsSafe rs root app =
    All (IsConfined rs) app.world.trace
    × (app.creds ≡ root_creds root)
    × (app.process.captured ≡ some root)

module _ {S : Type 0} (env : Env S) (rs : List GoString) (root : List ℤ)
    (sets : SetsCreds env.kernel) (may : MayRestore env.kernel root) where
  after_task :
      {A : Type 0} (id : Identity) (fn : Task (World S) A) (w : World S) (c : Creds)
      → c ≡ root_creds root
      → All (IsConfined rs) w.trace
      → ((d : Creds) → All (IsConfined rs) (fn d w).1.trace)
      → All (IsConfined rs) (as_user env.kernel root id fn c w).2.trace
        × ((as_user env.kernel root id fn c w).1 ≡ root_creds root)
  after_task id fn w c e t h =
      subst
        (λ d.
          All (IsConfined rs) (as_user env.kernel root id fn d w).2.trace
          × ((as_user env.kernel root id fn d w).1 ≡ root_creds root))
        (sym e)
        (let (back, ran) = as_user-runs env.kernel root sets may id fn w in (confined ran, back))
    where
      confined :
          (((as_user env.kernel root id fn (root_creds root) w).0
                ≡ returned (fn (creds_reached env.kernel id) w).0)
              × ((as_user env.kernel root id fn (root_creds root) w).2
                  ≡ (fn (creds_reached env.kernel id) w).1))
            ⊎ (IsFailure (as_user env.kernel root id fn (root_creds root) w).0
                × ((as_user env.kernel root id fn (root_creds root) w).2 ≡ w))
          → All (IsConfined rs) (as_user env.kernel root id fn (root_creds root) w).2.trace
      confined (inl (r, e)) =
          subst (λ (v : World S). All (IsConfined rs) v.trace) (sym e)
            (h (creds_reached env.kernel id))
      confined (inr (r, e)) = subst (λ (v : World S). All (IsConfined rs) v.trace) (sym e) t

  pub as_account-IsSafe :
      {A : Type 0} (id : Identity) (op : Os S → Sys S A) (app : App S)
      → ((d : Creds) → Ensures rs (op (env.os d)) Anything)
      → IsSafe rs root app
      → IsSafe rs root (as_account env id op app).1
  unfolding as_account impersonate capture_root_groups
  as_account-IsSafe id op app h (t, c, p) =
      rw (p, capture_root_groups)
        (let (t', c') =
            after_task id (λ d. op (env.os d)) app.world app.creds c t
              (λ d. ((h d).at app.world t).0) in
          (t', c', p))

  -- What a handler answers with leaves the disk and the credentials alone.
  abbrev pub Finishes : {A : Type 0} → (Result FsError A × App S → Response × App S) → Type 0
  Finishes {A} finish =
      (x : Result FsError A) (app : App S) → IsSafe rs root app → IsSafe rs root (finish (x, app)).1

  pub as_username-IsSafe :
      {A : Type 0} (username : GoString) (op : Os S → Sys S A)
      (finish : Result FsError A × App S → Response × App S) (app : App S)
      → ((d : Creds) → Ensures rs (op (env.os d)) Anything)
      → Finishes finish
      → IsSafe rs root app
      → IsSafe rs root (as_username env username op finish app).1
  as_username-IsSafe username op finish app h f safe = found (lookup_identity env.accounts username)
    where
      found :
          (r : Result LookupError Identity) → IsSafe rs root (with_account env op finish app r).1
      found (err e) = safe
      found (ok id) = f _ _ (as_account-IsSafe id op app h safe)

  module _ (username : GoString) (r : Request) where
    pub answered-Finishes :
        (action p detail : GoString) → Finishes (answered env username r action p detail)
    unfolding audited
    answered-Finishes action p detail (err e) app safe = safe
    answered-Finishes action p detail (ok u) app safe = safe

    pub answer_listing-Finishes : (p : GoString) → Finishes (answer_listing env p)
    answer_listing-Finishes p (err e) app safe = safe
    answer_listing-Finishes p (ok es) app safe = safe

    pub answer_renamed-Finishes : (p : GoString) → Finishes (answer_renamed env username r p)
    unfolding audited
    answer_renamed-Finishes p (err e) app safe = safe
    answer_renamed-Finishes p (ok q) app safe = safe

    pub answer_file-Finishes : (p : GoString) → Finishes (answer_file env username r p)
    unfolding audited
    answer_file-Finishes p (err e) app safe = safe
    answer_file-Finishes p (ok info) app safe = elim (Bool-cases info.is_dir) [
      | inl e ↦ rw e safe
      | inr e ↦ rw e safe
    ]

  -- A handler keeps the server safe.
  abbrev pub Keeps : (App S → Response × App S) → Type 0
  Keeps h = (app : App S) → IsSafe rs root app → IsSafe rs root (h app).1

  pub unless :
      (b : Bool) (resp : Response) (h : App S → Response × App S)
      → Keeps h
      → Keeps (λ app. if b then (resp, app) else h app)
  unless true resp h k app safe = safe
  unless false resp h k app safe = k app safe

-- ===== src/Commands/Share/Stored.antt =====
-- cmd/nimbusfs/share.go: what `nimbusfs share` puts into the database.
use nimbus_fs.Prelude.{
  Bool, true, false, ◌≡◌, refl, Option, none, some, List, GoString, Result, ok, err, >>=-eq-ok,
  ok_inj, ap, ◌∙◌, ◌⊎◌, inl, inr, codes,
}
use nimbus_fs.Config.{Config}
use nimbus_fs.Fsops.Sandbox.{FsError, Disk, Sandbox, resolve, rel_path, absolute, new_sandbox}
use nimbus_fs.Fsops.Sandbox.Contained.{IsRoot, Below, resolve-Below}
use nimbus_fs.Fsops.Sandbox.SlashRoot.{resolve-slash_root}
use nimbus_fs.Fsops.Sandbox.Root.{GivesClean, GivesRooted, new_sandbox-IsRoot}
use nimbus_fs.Store.{Store}
use nimbus_fs.Store.Shares.{Share, create_share}
use nimbus_fs.Commands.Share.{
  ShareError, ShareFlags, Machine, or_fail, or_report, require, resolve_share_path, is_mode,
  expires_at, password_hash, one_argument, create_link, cmd_share,
}

or_fail-eq-ok :
    {A : Type 0} (o : Option A) (e : ShareError) (a : A) → or_fail o e ≡ ok a → o ≡ some a
or_fail-eq-ok none e a h = cc
or_fail-eq-ok (some b) e a h = ap some (ok_inj h)

or_report-eq-ok :
    {A : Type 0} (r : Result FsError A) (e : ShareError) (a : A) → or_report r e ≡ ok a → r ≡ ok a
or_report-eq-ok (err x) e a h = cc
or_report-eq-ok (ok b) e a h = ap ok (ok_inj h)

require-eq-ok : (b : Bool) (e : ShareError) {u : Unit {0}} → require b e ≡ ok u → b ≡ true
require-eq-ok true e h = refl
require-eq-ok false e h = cc

-- A path below the root, element by element, or "/" where the root is "/".
abbrev pub IsInside : Sandbox → GoString → Type 0
IsInside s p =
    ((s.root ≡ codes "/") × (p ≡ codes "/")) ⊎ ((rs : List GoString) × IsRoot s rs × Below rs p)

-- Such a path that the user who runs the command can look at, and what RelPath makes of it.
abbrev pub IsShareable : Machine → Sandbox → GoString → Type 0
IsShareable m s path =
    (canonical : GoString) × IsInside s canonical
    × (m.can_stat canonical ≡ true)
    × (rel_path s canonical ≡ ok path)

resolve-IsInside :
    (d : Disk) (s : Sandbox) (request full : GoString)
    → ((s.root ≡ codes "/") ⊎ ((rs : List GoString) × IsRoot s rs))
    → resolve d s request ≡ ok full
    → IsInside s full
resolve-IsInside d s request full (inl slash_root) e =
    inl (slash_root, resolve-slash_root d s request full slash_root e)
resolve-IsInside d s request full (inr (rs, root)) e =
    inr (rs, root, resolve-Below s rs root d request full e)

resolve_share_path-IsShareable :
    (m : Machine) (s : Sandbox) (input path : GoString)
    → ((s.root ≡ codes "/") ⊎ ((rs : List GoString) × IsRoot s rs))
    → resolve_share_path m s input ≡ ok path
    → IsShareable m s path
unfolding resolve_share_path
resolve_share_path-IsShareable m s input path root h =
    let (abs_input, _, h1) = >>=-eq-ok (or_report (absolute m.working_dir input) _) _ path h in
    let (guess, _, h2) = >>=-eq-ok (or_report (rel_path s abs_input) _) _ path h1 in
    let (canonical, e, h3) = >>=-eq-ok (or_report (resolve m.disk s guess) _) _ path h2 in
    let (u, e', h4) = >>=-eq-ok (require (m.can_stat canonical) _) _ path h3 in
    (
      canonical,
      resolve-IsInside m.disk s guess canonical root (or_report-eq-ok _ _ canonical e),
      require-eq-ok _ _ e',
      or_report-eq-ok _ _ path h4,
    )

-- The share that the command has created in the database, for a path.
abbrev pub IsLinked : Machine → ShareFlags → Config → GoString → Store → Type 0
IsLinked m flags cfg path st' =
    (st : Store) × (sh : Share) × (m.open_store cfg.data_dir ≡ some st)
    × (create_share st sh ≡ some st')
    × (sh.path ≡ path)
    × (m.current_user ≡ some sh.username)
    × (m.token ≡ some sh.token)
    × (sh.mode ≡ flags.mode)
    × (password_hash m flags.password ≡ some sh.password_hash)
    × (expires_at m flags.expires ≡ some sh.expires_at)

create_link-IsLinked :
    (m : Machine) (flags : ShareFlags) (cfg : Config) (path url : GoString) (st' : Store)
    → create_link m flags cfg path ≡ ok (url, st')
    → IsLinked m flags cfg path st'
unfolding create_link
create_link-IsLinked m flags cfg path url st' h5 =
    let (at, a, h6) = >>=-eq-ok (or_fail (expires_at m flags.expires) _) _ (url, st') h5 in
    let (hash, w, h7) = >>=-eq-ok (or_fail (password_hash m flags.password) _) _ (url, st') h6 in
    let (username, v, h8) = >>=-eq-ok (or_fail m.current_user _) _ (url, st') h7 in
    let (token, t, h9) = >>=-eq-ok (or_fail m.token _) _ (url, st') h8 in
    let (st, o, h10) = >>=-eq-ok (or_fail (m.open_store cfg.data_dir) _) _ (url, st') h9 in
    let (st1, x, h11) = >>=-eq-ok (or_fail (create_share st _) _) _ (url, st') h10 in
    (
      st,
      record {
        token = token;
        username = username;
        path = path;
        mode = flags.mode;
        password_hash = hash;
        created_at = m.now;
        expires_at = at;
      },
      or_fail-eq-ok _ _ st o,
      or_fail-eq-ok _ _ st1 x ∙ ap (λ (r : GoString × Store). some r.1) (ok_inj h11),
      refl,
      or_fail-eq-ok _ _ username v,
      or_fail-eq-ok _ _ token t,
      refl,
      or_fail-eq-ok _ _ hash w,
      or_fail-eq-ok _ _ at a,
    )

-- The share, for a path that may be shared.
abbrev pub IsCreated : Machine → ShareFlags → Store → Type 0
IsCreated m flags st' =
    (cfg : Config) × (s : Sandbox) × (path : GoString) × (m.load_config flags.config ≡ some cfg)
    × (new_sandbox m.working_dir m.disk cfg.filesystem.root ≡ ok s)
    × (is_mode flags.mode ≡ true)
    × IsShareable m s path
    × IsLinked m flags cfg path st'

-- Where Getwd gives a rooted path and EvalSymlinks of an absolute path a clean one: if `nimbusfs
-- share` succeeds, it has added to the database one share, for the user who runs it, of a valid mode,
-- with the hash of the password and the expiry that were asked for, and of a path that RelPath gives
-- for a path which that user can look at and which lies below the root that NewSandbox found, or is "/"
-- where this root is "/".
pub cmd_share-IsCreated :
    (m : Machine) (flags : ShareFlags) (args : List GoString) (url : GoString) (st' : Store)
    → GivesRooted m.working_dir
    → GivesClean m.disk
    → cmd_share m flags args ≡ ok (url, st')
    → IsCreated m flags st'
unfolding cmd_share
cmd_share-IsCreated m flags args url st' rooted gives h =
    let (input, _, h1) = >>=-eq-ok (one_argument args) _ (url, st') h in
    let (u, mode, h2) = >>=-eq-ok (require (is_mode flags.mode) _) _ (url, st') h1 in
    let (cfg, c, h3) = >>=-eq-ok (or_fail (m.load_config flags.config) _) _ (url, st') h2 in
    let (s, n, h4) =
      >>=-eq-ok (or_report (new_sandbox m.working_dir m.disk cfg.filesystem.root) _) _ (url, st')
        h3 in
    let (path, p, h5) = >>=-eq-ok (resolve_share_path m s input) _ (url, st') h4 in
    let sandbox = or_report-eq-ok _ _ s n in
    let root = new_sandbox-IsRoot m.working_dir m.disk cfg.filesystem.root s rooted gives sandbox in
    (
      cfg,
      s,
      path,
      or_fail-eq-ok _ _ cfg c,
      sandbox,
      require-eq-ok _ _ mode,
      resolve_share_path-IsShareable m s input path root p,
      create_link-IsLinked m flags cfg path url st' h5,
    )

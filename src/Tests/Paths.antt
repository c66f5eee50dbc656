-- ===== src/Tests/Paths.antt =====
-- Examples of internal/fsops: paths, identities, permissions, names and copies.
use nimbus_fs.Prelude.{
  true, false, ◌≡◌, ◌≢◌, ◌↔◌, refl, Option, none, some, List, [], ◌∷◌, ◌++◌, All, GoString, codes,
  str_eq, has_prefix, ℤ, pos, negsuc, arith, ok, err, if◌then◌else◌,
}
use nimbus_fs.GoLib.Path.{join_slash, clean, join, dir, base}
use nimbus_fs.GoLib.Path.Elems.{IsElem}
use nimbus_fs.GoLib.Path.Absolute.{abs_path}
use nimbus_fs.Fsops.Access.{can_read, MayRead, can_read_iff}
use nimbus_fs.Fsops.Access.{Identity}
use nimbus_fs.Fsops.Owner.{cached, fresh_name, lookup_name, IsCurrent, lookup_name_lem}
use nimbus_fs.Fsops.Impersonate.{Task, returned, as_user}
use nimbus_fs.Fsops.Impersonate.Restores.{root_creds, creds_of, IsSound, as_user-IsSound}
use nimbus_fs.Fsops.Sandbox.{
  escape, Sandbox, within, deepest_existing, resolve_joined, resolve, resolve_within,
}
use nimbus_fs.Fsops.Sandbox.Contained.{Below, resolve-Below, resolve_within-Below}
use nimbus_fs.Fsops.Sandbox.Existing.{IsDeepest, deepest_existing_total}
use nimbus_fs.Fsops.Sandbox.SlashRoot.{resolve-slash_root}
use nimbus_fs.Fsops.Sys.{World, ◌>>=◌, resolved, does, stats, opens, reads}
use nimbus_fs.Fsops.Ops.Copying.{copy_file, copy}
use nimbus_fs.Fsops.Ops.SelfCopy.{copy_file_lem, copy_self}
use nimbus_fs.Tests.Fixture.{
  srv, sandbox, disk, d_a-IsElem, srv-IsRoot, disk-IsPlain, Files, a_file, os, number_of, os_files,
  world, root_groups, kernel, kernel-SetsCreds, kernel-MayRestore, ann,
}

escape_is_refused : resolve disk sandbox (codes "/../d/../../x") ≡ ok (codes "/srv/x")
unfolding resolve resolve_joined within str_eq join clean has_prefix deepest_existing dir base
escape_is_refused = refl

resolve_known : resolve disk sandbox (codes "d/a") ≡ ok (codes "/srv/d/a")
unfolding resolve resolve_joined within str_eq join clean has_prefix deepest_existing dir base
resolve_known = refl

resolve_slashed : resolve disk sandbox (codes "/d/a") ≡ ok (codes "/srv/d/a")
unfolding resolve resolve_joined within str_eq join clean has_prefix deepest_existing dir base
resolve_slashed = refl

resolve-Below_example : Below srv (codes "/srv/d/a")
resolve-Below_example =
    resolve-Below sandbox srv srv-IsRoot disk (codes "d/a") (codes "/srv/d/a") resolve_known

resolve_within_known : resolve_within disk sandbox (codes "d") (codes "a") ≡ ok (codes "/srv/d/a")
unfolding resolve_within resolve resolve_joined within str_eq join clean has_prefix deepest_existing
    dir base
resolve_within_known = refl

resolve_within-Below_example :
    (st : List GoString) × All IsElem st
    × (resolve disk sandbox (codes "d") ≡ ok (abs_path (srv ++ st)))
    × Below (srv ++ st) (codes "/srv/d/a")
resolve_within-Below_example =
    resolve_within-Below sandbox srv srv-IsRoot disk (codes "d") (codes "a") (codes "/srv/d/a")
      resolve_within_known

deepest_existing_total_example :
    (a r : List GoString) × (deepest_existing disk (abs_path (codes "d" ∷ codes "a" ∷ []))
      ≡ some (abs_path a, join_slash r))
    × All IsElem a
    × All IsElem r
    × IsDeepest disk (codes "d" ∷ codes "a" ∷ []) a r
deepest_existing_total_example =
    deepest_existing_total disk disk-IsPlain.top (codes "d" ∷ codes "a" ∷ []) d_a-IsElem

abbrev top : Sandbox
top = record { root = codes "/" }

top_known : resolve disk top (codes "/") ≡ ok (codes "/")
unfolding resolve resolve_joined within str_eq join clean has_prefix deepest_existing dir base
top_known = refl

top_refuses : resolve disk top (codes "/srv") ≡ err escape
unfolding resolve resolve_joined within str_eq join clean has_prefix deepest_existing dir base
top_refuses = refl

resolve-slash_root_example : codes "/" ≡ codes "/"
resolve-slash_root_example = resolve-slash_root disk top (codes "/") (codes "/") refl top_known

can_read_iff_example : (can_read ann 0 27 0o640 ≡ true) ↔ MayRead ann 0 27 0o640
can_read_iff_example = can_read_iff ann 0 27 0o640

group_reads : can_read ann 0 27 0o640 ≡ true
unfolding can_read
group_reads = refl

owner_is_first : can_read ann 1000 27 0o040 ≡ false
unfolding can_read
owner_is_first = refl

abbrev users : GoString → Option GoString
users id = if str_eq id (codes "1000") then some (codes "ann") else none

lookup_name_lem_example :
    ((lookup_name users 1000 []).0 ≡ fresh_name users 1000)
    × IsCurrent users (lookup_name users 1000 []).1
unfolding cached
lookup_name_lem_example = lookup_name_lem users 1000 [] (λ id name e. cc)

-- A task that returns the user id that it runs under.
abbrev which_user : Task (World Files) ℤ
which_user c w = (c.fsuid, w)

as_user-IsSound_example :
    IsSound root_groups
      (creds_of ann)
      which_user
      world
      (as_user kernel root_groups ann which_user (root_creds root_groups) world)
as_user-IsSound_example =
    as_user-IsSound kernel root_groups kernel-SetsCreds kernel-MayRestore ann which_user world
      (omega arith) (omega arith)

-- A user whom the database gives the number -1.
abbrev nobody : Identity
nobody = record ann { uid = negsuc 0 }

runs_as_root :
    (as_user kernel root_groups nobody which_user (root_creds root_groups) world).0
    ≡ returned (pos 0)
unfolding as_user
runs_as_root = refl

copied : (copy_file os (codes "/srv/d/a") (codes "/srv/b") 420 world).0 ≡ ok tt
unfolding copy_file opens does reads ◌>>=◌
copied = refl

other_file :
    os_files.file (codes "/srv/b") world.state ≢ os_files.file (codes "/srv/d/a") world.state
unfolding os_files
other_file e =
    let same : number_of (codes "/srv/b") ≡ number_of (codes "/srv/d/a") = cc e in
    omega (arith, same)

copy_file_lem_example :
    os.content (codes "/srv/b") (copy_file os (codes "/srv/d/a") (codes "/srv/b") 420 world).1.state
    ≡ os.content (codes "/srv/d/a") world.state
copy_file_lem_example =
    copy_file_lem os os_files (codes "/srv/d/a") (codes "/srv/b") 420 world other_file copied

copied_to_self : (copy os 9 sandbox (codes "d/a") (codes "/d/a") world).0 ≡ ok tt
unfolding copy copy_file opens does reads stats resolved ◌>>=◌ resolve resolve_joined within str_eq
    join clean has_prefix deepest_existing
copied_to_self = refl

copy_self_example :
    os.content (codes "/srv/d/a") (copy os 9 sandbox (codes "d/a") (codes "/d/a") world).1.state
    ≡ ok []
copy_self_example =
    copy_self os os_files 9 sandbox (codes "d/a") (codes "/d/a") (codes "/srv/d/a") a_file world
      resolve_known resolve_slashed refl refl copied_to_self

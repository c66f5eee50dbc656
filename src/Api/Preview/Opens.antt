-- ===== src/Api/Preview/Opens.antt =====
-- internal/api/api.go: two functions behind As, of which the second succeeds where the first does.
use nimbus_fs.Prelude.{Bool, true, false, if◌then◌else◌, ◌≡◌, Result, ok, pos}
use nimbus_fs.Fsops.Access.{Identity}
use nimbus_fs.Fsops.Sandbox.{FsError}
use nimbus_fs.Fsops.Impersonate.{
  Creds, AsResult, setgroups_failed, setfsgid_failed, setfsuid_failed, returned, as_user,
  impersonate, capture_root_groups, restore,
}
use nimbus_fs.Fsops.Sys.{Os, World, Sys}
use nimbus_fs.Api.{Env, App, result_of, as_account}

-- The result of as_user, for what the three calls of the kernel report.
abbrev outcome :
    {W A : Type 0}
    → Bool
    → Bool
    → Bool
    → Creds
    → Creds
    → Creds
    → Creds
    → W
    → W
    → A
    → AsResult A × Creds × W
outcome e1 e2 e3 c1 c2 c3 c4 w w' r =
    if e1
    then (setgroups_failed, c1, w)
    else if e2
    then (setfsgid_failed, c2, w)
    else if e3
    then (setfsuid_failed, c3, w)
    else (returned r, c4, w')

module _ {W A B : Type 0} (f : A → B) (a : A) (x : Result FsError A) (y : Result FsError B)
    (goes : x ≡ ok a → y ≡ ok (f a)) where
  ran :
      (e1 e2 e3 : Bool) (c1 c2 c3 c4 : Creds) (w w1 w2 : W)
      → result_of ((outcome e1 e2 e3 c1 c2 c3 c4 w w1 x).0) ≡ ok a
      → result_of ((outcome e1 e2 e3 c1 c2 c3 c4 w w2 y).0) ≡ ok (f a)
  ran true e2 e3 c1 c2 c3 c4 w w1 w2 h = cc
  ran false true e3 c1 c2 c3 c4 w w1 w2 h = cc
  ran false false true c1 c2 c3 c4 w w1 w2 h = cc
  ran false false false c1 c2 c3 c4 w w1 w2 h = goes h

pub as_account-eq-ok :
    {S A B : Type 0} (env : Env S) (id : Identity) (op : Os S → Sys S A) (op' : Os S → Sys S B)
    (f : A → B) (app : App S) (a : A)
    → ((d : Creds) (w : World S) → (op (env.os d) w).0 ≡ ok a → (op' (env.os d) w).0 ≡ ok (f a))
    → (as_account env id op app).0 ≡ ok a
    → (as_account env id op' app).0 ≡ ok (f a)
unfolding as_account impersonate as_user
as_account-eq-ok {S} env id op op' f app a goes h =
    let k = env.kernel in
    let root = (capture_root_groups k app.process).0 in
    let (e1, c1) = k.setgroups id.groups app.creds in
    let (e2, c2) = k.setfsgid id.gid c1 in
    let (e3, c3) = k.setfsuid id.uid c2 in
    ran {W = World S} f a (op (env.os c3) app.world).0 (op' (env.os c3) app.world).0
      (goes c3 app.world) e1 e2 e3 c1 (k.setgroups root c2).1
      (k.setgroups root (k.setfsgid (pos 0) c3).1).1 (restore k root c3) app.world
      (op (env.os c3) app.world).1 (op' (env.os c3) app.world).1 h

-- ===== src/Fsops/Impersonate.antt =====
-- internal/fsops/identity.go: looking an account up, and running a function as that user.
-- The user database and the four system calls are parameters.
pub mod Restores
use nimbus_fs.Prelude.{
  ℕ, Bool, true, false, if◌then◌else◌, ◌≡◌, List, [], ◌∷◌, Option, none, some, GoString, ℤ, pos,
  Result, ok, err, ◌>>=◌,
}
use nimbus_fs.GoLib.Decimal.{atoi}
use nimbus_fs.Fsops.Access.{Identity}

-- user.User, with the result of its GroupIds.
pub record Account : Type 0 where
  pub uid : GoString
  pub gid : GoString
  pub group_ids : Option (List GoString)

pub data LookupError : Type 0 where
  no_user bad_uid bad_gid no_groups : LookupError

abbrev pub or_fail : {A : Type 0} → Option A → LookupError → Result LookupError A
or_fail none e = err e
or_fail (some a) e = ok a

abbrev pub keep_some : {A : Type 0} → Option A → List A → List A
keep_some none rest = rest
keep_some (some a) rest = a ∷ rest

-- The loop over the group ids: one that is no number is left out.
unfoldable pub group_numbers : List GoString → List ℤ
group_numbers [] = []
group_numbers (g ∷ gs) = keep_some (atoi g) (group_numbers gs)

-- LookupIdentity
unfoldable pub lookup_identity :
    (GoString → Option Account) → GoString → Result LookupError Identity
unfolding group_numbers
lookup_identity accounts username = do
  u ← or_fail (accounts username) no_user
  uid ← or_fail (atoi u.uid) bad_uid
  gid ← or_fail (atoi u.gid) bad_gid
  ids ← or_fail u.group_ids no_groups
  ok (record { username = username; uid = uid; gid = gid; groups = group_numbers ids })

-- The credentials of an operating system thread that file accesses are checked by.
pub record Creds : Type 0 where
  pub fsuid : ℤ
  pub fsgid : ℤ
  pub groups : List ℤ

-- Each call returns whether it reported an error, and the credentials after it.
pub record Kernel : Type 0 where
  pub setgroups : List ℤ → Creds → Bool × Creds
  pub setfsgid : ℤ → Creds → Bool × Creds
  pub setfsuid : ℤ → Creds → Bool × Creds
  pub getgroups : Option (List ℤ)

-- rootGroupsOnce and rootGroups: `none` is not captured yet.
pub record Process : Type 0 where
  pub captured : Option (List ℤ)

abbrev pub or_nil : Option (List ℤ) → List ℤ
or_nil none = []
or_nil (some gs) = gs

-- captureRootGroups
unfoldable pub capture_root_groups : Kernel → Process → List ℤ × Process
capture_root_groups k p = elim p.captured [
  | none ↦ (or_nil k.getgroups, record { captured = some (or_nil k.getgroups) })
  | some gs ↦ (gs, p)
]

-- What As returns: one of its own errors, or what `fn` returned.
pub data AsResult (A : Type 0) : Type 0 where
  setgroups_failed setfsgid_failed setfsuid_failed : AsResult A
  returned : A → AsResult A

-- A function that runs on a thread: it sees the credentials, and does not change them.
abbrev pub Task : Type 0 → Type 0 → Type 0
Task W A = Creds → W → A × W

-- The deferred calls of As.
unfoldable pub restore : Kernel → List ℤ → Creds → Creds
restore k root c = (k.setgroups root (k.setfsgid (pos 0) (k.setfsuid (pos 0) c).1).1).1

module _ {W A : Type 0} (k : Kernel) where
  -- The part of As behind captureRootGroups.
  unfoldable pub as_user : List ℤ → Identity → Task W A → Creds → W → AsResult A × Creds × W
  as_user root id fn c w =
      let (e1, c1) = k.setgroups id.groups c in
      let (e2, c2) = k.setfsgid id.gid c1 in
      let (e3, c3) = k.setfsuid id.uid c2 in
      let (a, w') = fn c3 w in
      if e1
      then (setgroups_failed, c1, w)
      else if e2
      then (setfsgid_failed, (k.setgroups root c2).1, w)
      else if e3
      then (setfsuid_failed, (k.setgroups root (k.setfsgid (pos 0) c3).1).1, w)
      else (returned a, restore k root c3, w')

  -- As
  unfoldable pub impersonate :
      Process → Identity → Task W A → Creds → W → AsResult A × Creds × W × Process
  impersonate p id fn c w =
      let (root, p') = capture_root_groups k p in
      let (r, c', w') = as_user root id fn c w in (r, c', w', p')

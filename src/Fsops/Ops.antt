-- ===== src/Fsops/Ops.antt =====
-- internal/fsops/ops.go: the operations of a Sandbox, each a sequence of system calls.
pub mod Copying
pub mod Confined
pub mod SelfCopy
use nimbus_fs.Prelude.{
  ℕ, zero, suc, Bool, true, false, if◌then◌else◌, List, [], ◌∷◌, GoString, codes, str_eq, Result,
  ok, err, Time,
}
use nimbus_fs.GoLib.Path.{join, dir}
use nimbus_fs.GoLib.FileMode.{mode_string}
use nimbus_fs.Fsops.Sandbox.{FsError, escape, other, Sandbox, within, rel_path}
use nimbus_fs.Fsops.Sys.{
  Info, DirEntry, Action, mkdir, mkdir_all, create_new, truncate, write, remove_all, rename, Os,
  Sys, ◌>>=◌, ◌>>◌, lift, resolved, resolved_within, does, stats, lists, opens, reads,
}

pub record Entry : Type 0 where
  pub name : GoString
  pub path : GoString
  pub is_dir : Bool
  pub size : ℕ
  pub modified : Time
  pub mode : GoString
  pub owner : GoString
  pub group : GoString

-- LookupUserName and LookupGroupName.
pub record Names : Type 0 where
  pub user : ℕ → GoString
  pub group : ℕ → GoString

-- entryFromInfo
unfoldable pub entry_from_info : Names → GoString → GoString → Info → Entry
entry_from_info names name rel_path info = record {
  name = name;
  path = rel_path;
  is_dir = info.is_dir;
  size = info.size;
  modified = info.modified;
  mode = mode_string info.mode;
  owner = names.user info.uid;
  group = names.group info.gid;
}

abbrev pub keep_entry :
    Names → GoString → Result FsError Info → Result FsError GoString → List Entry → List Entry
keep_entry names name (err e) r rest = rest
keep_entry names name (ok info) (err e) rest = rest
keep_entry names name (ok info) (ok r) rest = entry_from_info names name r info ∷ rest

-- The loop of listAbs: an entry whose Info or whose relative path fails is left out.
unfoldable pub entries_of : Names → Sandbox → GoString → List DirEntry → List Entry
entries_of names s abs [] = []
entries_of names s abs (de ∷ des) =
    keep_entry names de.name de.info (rel_path s (join (abs ∷ de.name ∷ [])))
      (entries_of names s abs des)

abbrev pub refuse_root : Sandbox → GoString → GoString → Result FsError (Unit {0})
refuse_root s abs message = if str_eq abs s.root then err (other message) else ok tt

module _ {S : Type 0} (os : Os S) (names : Names) (s : Sandbox) where
  -- listAbs
  unfoldable pub list_abs : GoString → Sys S (List Entry)
  list_abs abs = do des ← lists os abs; lift (ok (entries_of names s abs des))

  unfoldable pub list : GoString → Sys S (List Entry)
  list request = do abs ← resolved os s request; list_abs abs

  unfoldable pub list_within : GoString → GoString → Sys S (List Entry)
  list_within scope sub = do abs ← resolved_within os s scope sub; list_abs abs

  unfoldable pub stat : GoString → Sys S Entry
  stat request = do
    abs ← resolved os s request
    info ← stats os abs
    lift (ok (entry_from_info names info.name request info))

  unfoldable pub stat_within : GoString → GoString → Sys S Entry
  stat_within scope sub = do
    abs ← resolved_within os s scope sub
    info ← stats os abs
    rel ← lift (rel_path s abs)
    lift (ok (entry_from_info names info.name rel info))

module _ {S : Type 0} (os : Os S) (s : Sandbox) where
  -- Mkdir of ops.go.
  unfoldable pub make_dir : GoString → Sys S (Unit {0})
  make_dir request = do abs ← resolved os s request; does os (mkdir abs 0o755)

  unfoldable pub create_file : GoString → Sys S (Unit {0})
  create_file request = do abs ← resolved os s request; does os (create_new abs 0o644)

  unfoldable pub delete : GoString → Sys S (Unit {0})
  delete request = do
    abs ← resolved os s request
    lift (refuse_root s abs (codes "cannot delete root directory"))
    does os (remove_all abs)

  -- Rename of ops.go.
  unfoldable pub rename_entry : GoString → GoString → Sys S GoString
  rename_entry request new_name = do
    abs ← resolved os s request
    lift (refuse_root s abs (codes "cannot rename root directory"))
    lift (if within s (join (dir abs ∷ new_name ∷ [])) then ok tt else err escape)
    does os (rename abs (join (dir abs ∷ new_name ∷ [])))
    lift (rel_path s (join (dir abs ∷ new_name ∷ [])))

  unfoldable pub move : GoString → GoString → Sys S (Unit {0})
  move src_req dest_req = do
    src ← resolved os s src_req
    lift (refuse_root s src (codes "cannot move root directory"))
    dest ← resolved os s dest_req
    does os (mkdir_all (dir dest) 0o755)
    does os (rename src dest)

  -- openAbs behind Resolve.
  unfoldable pub open_entry : GoString → Sys S Info
  open_entry request = do abs ← resolved os s request; opens os abs

  unfoldable pub open_within : GoString → GoString → Sys S Info
  open_within scope sub = do abs ← resolved_within os s scope sub; opens os abs

  -- The path of the file that the caller then writes.
  unfoldable pub create : GoString → Sys S GoString
  create request = do
    abs ← resolved os s request
    does os (mkdir_all (dir abs) 0o755)
    does os (truncate abs 0o644)
    lift (ok abs)

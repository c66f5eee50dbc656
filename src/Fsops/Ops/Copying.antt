-- ===== src/Fsops/Ops/Copying.antt =====
-- copyFile, copyDir and Copy of internal/fsops/ops.go.
use nimbus_fs.Prelude.{ℕ, zero, suc, Bool, true, false, List, [], ◌∷◌, GoString, codes, ok, err}
use nimbus_fs.GoLib.Path.{join}
use nimbus_fs.Fsops.Sandbox.{other, Sandbox}
use nimbus_fs.Fsops.Sys.{
  Info, DirEntry, mkdir_all, truncate, write, Os, Sys, ◌>>=◌, ◌>>◌, lift, resolved, does, stats,
  lists, opens, reads,
}

module _ {S : Type 0} (os : Os S) where
  -- The source is opened, the destination is opened and truncated, and then the source is read.
  unfoldable pub copy_file : GoString → GoString → ℕ → Sys S (Unit {0})
  copy_file src dest mode = do
    opens os src
    does os (truncate dest mode)
    text ← reads os src
    does os (write dest text)

  -- One entry of a directory: `sub` copies a directory below it.
  abbrev pub copy_entry :
      (GoString → GoString → Sys S (Unit {0}))
      → GoString
      → GoString
      → DirEntry
      → Bool
      → Sys S (Unit {0})
  copy_entry sub src dest e true = sub (join (src ∷ e.name ∷ [])) (join (dest ∷ e.name ∷ []))
  copy_entry sub src dest e false = do
    info ← lift e.info
    copy_file (join (src ∷ e.name ∷ [])) (join (dest ∷ e.name ∷ [])) info.mode

  unfoldable pub copy_entries :
      (GoString → GoString → Sys S (Unit {0}))
      → GoString
      → GoString
      → List DirEntry
      → Sys S (Unit {0})
  copy_entries sub src dest [] = lift (ok tt)
  copy_entries sub src dest (e ∷ es) = do
    copy_entry sub src dest e e.is_dir
    copy_entries sub src dest es

  -- copyDir, to a depth that the fuel bounds.
  unfoldable pub copy_dir : ℕ → GoString → GoString → Sys S (Unit {0})
  copy_dir zero src dest = lift (err (other (codes "out of fuel")))
  copy_dir (suc f) src dest = do
    info ← stats os src
    does os (mkdir_all dest info.mode)
    entries ← lists os src
    copy_entries (copy_dir f) src dest entries

  abbrev pub copy_any : ℕ → GoString → GoString → Info → Bool → Sys S (Unit {0})
  copy_any fuel src dest info true = copy_dir fuel src dest
  copy_any fuel src dest info false = copy_file src dest info.mode

  -- Copy
  unfoldable pub copy : ℕ → Sandbox → GoString → GoString → Sys S (Unit {0})
  copy fuel s src_req dest_req = do
    src ← resolved os s src_req
    dest ← resolved os s dest_req
    info ← stats os src
    copy_any fuel src dest info info.is_dir

-- ===== src/Fsops/Ops/SelfCopy.antt =====
-- What a file holds after copyFile.
use nimbus_fs.Prelude.{
  ℕ, ◌≡◌, ◌≢◌, refl, sym, ap, ◌∙◌, [], ◌++◌, append-nil, length, drop, drop-nil, Option, GoString,
  false, ok,
}
use nimbus_fs.Fsops.Sandbox.{Sandbox, resolve}
use nimbus_fs.Fsops.Sys.Inversion.{>>=-ok}
use nimbus_fs.Fsops.Sys.{
  Info, truncate, write, Os, World, ◌>>=◌, lookups, resolved, does, stats, opens, reads,
}
use nimbus_fs.Fsops.Ops.Copying.{copy_file, copy}

-- The files of a disk: `file` is the inode that a path leads to, if there is one. Opening with O_TRUNC
-- empties the file and leaves those that other paths lead to as they are; writing at the start of a
-- file, as io.Copy does on one that was just opened, replaces as much of it as is written.
pub record HoldsFiles {S : Type 0} (os : Os S) : Type 0 where
  pub file : GoString → S → Option ℕ
  pub truncates :
      (p : GoString) (m : ℕ) (st : S)
      → (os.act (truncate p m) st).0 ≡ ok tt
      → os.content p (os.act (truncate p m) st).1 ≡ ok []
  pub writes :
      (p t old : GoString) (st : S)
      → (os.act (write p t) st).0 ≡ ok tt
      → os.content p st ≡ ok old
      → os.content p (os.act (write p t) st).1 ≡ ok (t ++ drop (length t) old)
  pub keeps :
      (p q : GoString) (m : ℕ) (st : S)
      → file p st ≢ file q st
      → os.content q (os.act (truncate p m) st).1 ≡ os.content q st

module _ {S : Type 0} (os : Os S) (files : HoldsFiles os) where
  -- A copy that succeeds has opened, truncated, read and written.
  copied :
      (src dest : GoString) (mode : ℕ) (w : World S)
      → (copy_file os src dest mode w).0 ≡ ok tt
      → (text : GoString) × ((os.act (truncate dest mode) w.state).0 ≡ ok tt)
        × (os.content src (os.act (truncate dest mode) w.state).1 ≡ ok text)
        × (os.content dest (copy_file os src dest mode w).1.state ≡ ok text)
  unfolding copy_file opens does reads
  copied src dest mode w h =
      let (i, _, e1) = >>=-ok (opens os src) _ w tt h in
      let h1 = ap (λ r. r.0) (sym e1) ∙ h in
      let w1 = (opens os src w).1 in
      let (u, hu, e2) = >>=-ok (does os (truncate dest mode)) _ w1 tt h1 in
      let h2 = ap (λ r. r.0) (sym e2) ∙ h1 in
      let w2 = (does os (truncate dest mode) w1).1 in
      let (text, ht, e3) = >>=-ok (reads os src) _ w2 tt h2 in
      let h3 = ap (λ r. r.0) (sym e3) ∙ h2 in
      (
        text,
        hu,
        ht,
        ap (λ r. os.content dest r.1.state) (e1 ∙ e2 ∙ e3)
            ∙ files.writes dest text [] (os.act (truncate dest mode) w.state).1 h3
                (files.truncates dest mode w.state hu)
            ∙ ap ok (ap (λ x. text ++ x) (drop-nil (length text)) ∙ append-nil text),
      )

  -- On a disk where opening with O_TRUNC empties a file and no other, and a write replaces as much as
  -- it writes: if the two paths do not lead to the same file, a copy that succeeds leaves at the
  -- destination exactly what the source held before.
  pub copy_file_lem :
      (src dest : GoString) (mode : ℕ) (w : World S)
      → files.file dest w.state ≢ files.file src w.state
      → (copy_file os src dest mode w).0 ≡ ok tt
      → os.content dest (copy_file os src dest mode w).1.state ≡ os.content src w.state
  copy_file_lem src dest mode w n h =
      let (text, _, before, now) = copied src dest mode w h in
      now ∙ sym before ∙ files.keeps dest src mode w.state n

  -- A copy of a file onto itself that succeeds leaves it empty, whatever it held.
  copy_file_self :
      (p : GoString) (mode : ℕ) (w : World S)
      → (copy_file os p p mode w).0 ≡ ok tt
      → os.content p (copy_file os p p mode w).1.state ≡ ok []
  copy_file_self p mode w h =
      let (text, done, before, now) = copied p p mode w h in
      now ∙ sym before ∙ files.truncates p mode w.state done

  -- A Copy with a source and a destination that resolve to the same regular file leaves that file
  -- empty if it reports success, whatever the file held.
  pub copy_self :
      (fuel : ℕ) (s : Sandbox) (src_req dest_req p : GoString) (info : Info) (w : World S)
      → resolve (os.disk w.state) s src_req ≡ ok p
      → resolve (os.disk w.state) s dest_req ≡ ok p
      → os.stat p w.state ≡ ok info
      → info.is_dir ≡ false
      → (copy os fuel s src_req dest_req w).0 ≡ ok tt
      → os.content p (copy os fuel s src_req dest_req w).1.state ≡ ok []
  copy_self fuel s src_req dest_req p info w hs hd hi plain h =
      let e = run fuel s src_req dest_req p info w hs hd hi plain in
      ap (λ r. os.content p r.1.state) e ∙ copy_file_self p info.mode _ (ap (λ r. r.0) (sym e) ∙ h)
    where
      run :
          (fuel : ℕ) (s : Sandbox) (src_req dest_req p : GoString) (info : Info) (w : World S)
          → resolve (os.disk w.state) s src_req ≡ ok p
          → resolve (os.disk w.state) s dest_req ≡ ok p
          → os.stat p w.state ≡ ok info
          → info.is_dir ≡ false
          → copy os fuel s src_req dest_req w
            ≡ copy_file os p p info.mode
                (stats os p (record w {
                  trace =
                      lookups
                        (os.disk w.state)
                        s
                        dest_req
                        (lookups (os.disk w.state) s src_req w.trace);
                })).1
      run fuel s src_req dest_req p info w hs hd hi plain =
          unfold copy resolved stats ◌>>=◌ in rw hs (rw hd (rw hi (rw plain refl)))

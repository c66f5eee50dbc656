-- ===== src/Fsops/Ops/Confined.antt =====
-- Every call that an operation makes has its paths below the root.
use nimbus_fs.Prelude.{
  ℕ, zero, suc, Bool, true, false, if◌then◌else◌, ◌≡◌, refl, subst, ap, ok_inj, ◌∙◌, inl, inr, List,
  [], ◌∷◌, ◌++◌, append_assoc, GoString, All, All-append, Result, ok, err,
}
use nimbus_fs.GoLib.Path.{join, join_slash, dir}
use nimbus_fs.GoLib.Path.Elems.{IsElem}
use nimbus_fs.GoLib.Path.Absolute.{abs_path, join-abs_path-join_slash}
use nimbus_fs.Fsops.Sandbox.{FsError, escape, Sandbox, within}
use nimbus_fs.Fsops.Sandbox.Contained.{IsRoot, Below, within-join}
use nimbus_fs.Fsops.Sys.{
  Info, DirEntry, mkdir, mkdir_all, create_new, truncate, write, remove_all, rename, Os, Sys, ◌>>=◌,
  lift, resolved, resolved_within,
}
use nimbus_fs.Fsops.Sys.Ensures.{
  Ensures, Anything, bind-Ensures, lift-Ensures, does-Ensures, stats-Ensures, opens-Ensures,
  reads-Ensures, lists-Ensures, resolved-Ensures, resolved_within-Ensures,
}
use nimbus_fs.Fsops.Ops.{
  Names, list_abs, list, list_within, stat, stat_within, make_dir, create_file, delete,
  rename_entry, move, open_entry, open_within, create,
}
use nimbus_fs.Fsops.Ops.Copying.{copy_file, copy_entry, copy_entries, copy_dir, copy_any, copy}

-- The kernel lists proper names: neither "." nor "..", and none with a slash.
abbrev pub ListsNames : {S : Type 0} → Os S → Type 0
ListsNames {S} os =
    (p : GoString) (st : S) (es : List DirEntry)
    → os.read_dir p st ≡ ok es
    → All (λ e. IsElem e.name) es

join_name :
    (ss : List GoString) (name : GoString)
    → All IsElem ss
    → IsElem name
    → join (abs_path ss ∷ name ∷ []) ≡ abs_path (ss ++ name ∷ [])
unfolding join_slash
join_name ss name h p = join-abs_path-join_slash ss (name ∷ []) h (p, tt)

child-Below :
    (rs : List GoString) (src name : GoString)
    → All IsElem rs
    → Below rs src
    → IsElem name
    → Below rs (join (src ∷ name ∷ []))
child-Below rs src name h (t, k, same) p = (
  t ++ name ∷ [],
  All-append IsElem t (name ∷ []) k (p, tt),
  ap (λ x. join (x ∷ name ∷ [])) same
      ∙ join_name (rs ++ t) name (All-append IsElem rs t h k) p
      ∙ ap abs_path (append_assoc rs t (name ∷ [])),
)

module _ {S : Type 0} (os : Os S) (s : Sandbox) (rs : List GoString) (root : IsRoot s rs) where
  returns : {A : Type 0} (r : Result FsError A) → Ensures rs (lift {S = S} r) Anything
  returns r = lift-Ensures rs Anything r (λ a e. tt)

  -- A sequence that begins with the lookup of a path.
  at_path :
      {B : Type 0} {f : GoString → Sys S B} (request : GoString)
      → ((abs : GoString) → Below rs abs → Ensures rs (f abs) Anything)
      → Ensures rs (resolved os s request >>= f) Anything
  at_path request h = bind-Ensures rs (Below rs) (resolved-Ensures rs os s root request) h

  at_path_within :
      {B : Type 0} {f : GoString → Sys S B} (scope sub : GoString)
      → ((abs : GoString) → Below rs abs → Ensures rs (f abs) Anything)
      → Ensures rs (resolved_within os s scope sub >>= f) Anything
  at_path_within scope sub h =
      bind-Ensures rs (Below rs) (resolved_within-Ensures rs os s root scope sub) h

  after :
      {A B : Type 0} {m : Sys S A} {f : A → Sys S B}
      → Ensures rs m Anything
      → ((a : A) → Ensures rs (f a) Anything)
      → Ensures rs (m >>= f) Anything
  after hm hf = bind-Ensures rs Anything hm (λ a _. hf a)

  pub make_dir-Ensures : (a : GoString) → Ensures rs (make_dir os s a) Anything
  unfolding make_dir
  make_dir-Ensures a = at_path a (λ abs b. does-Ensures rs os (mkdir abs 0o755) b)

  pub create_file-Ensures : (a : GoString) → Ensures rs (create_file os s a) Anything
  unfolding create_file
  create_file-Ensures a = at_path a (λ abs b. does-Ensures rs os (create_new abs 0o644) b)

  pub delete-Ensures : (a : GoString) → Ensures rs (delete os s a) Anything
  unfolding delete
  delete-Ensures a =
      at_path a (λ abs b. after (returns _) (λ _. does-Ensures rs os (remove_all abs) b))

  guarded :
      {B : Type 0} {m : Sys S B} (xs : List GoString)
      → (Below rs (join xs) → Ensures rs m Anything)
      → Ensures rs
          (lift {S = S} (if within s (join xs) then ok tt else err escape) >>= λ (_ : Unit {0}). m)
          Anything
  guarded xs h =
      bind-Ensures rs (λ _. Below rs (join xs))
        (lift-Ensures rs _ _ (λ u e. within-join s rs root xs (passed (within s (join xs)) e)))
        (λ _ b. h b)
    where
      passed : (b : Bool) {u : Unit {0}} → (if b then ok tt else err escape) ≡ ok u → b ≡ true
      passed true e = refl
      passed false e = cc

  pub rename_entry-Ensures : (a b : GoString) → Ensures rs (rename_entry os s a b) Anything
  unfolding rename_entry
  rename_entry-Ensures a name = at_path a (λ abs b. after (returns _) (λ _.
      guarded (dir abs ∷ name ∷ []) (λ b'.
        after (does-Ensures rs os (rename abs (join (dir abs ∷ name ∷ []))) (b, b'))
          (λ _. returns _))))

  pub move-Ensures : (a b : GoString) → Ensures rs (move os s a b) Anything
  unfolding move
  move-Ensures a a' = at_path a (λ src b. after (returns _) (λ _. at_path a' (λ dest b'.
      after (does-Ensures rs os (mkdir_all (dir dest) 0o755) (inr (dest, b', refl)))
        (λ _. does-Ensures rs os (rename src dest) (b, b')))))

  -- The path that Create returns is below the root too.
  pub create-Ensures : (a : GoString) → Ensures rs (create os s a) (Below rs)
  unfolding create
  create-Ensures a = bind-Ensures rs (Below rs) (resolved-Ensures rs os s root a) (λ abs b.
      bind-Ensures rs Anything (does-Ensures rs os (mkdir_all (dir abs) 0o755) (inr (abs, b, refl)))
        (λ _ u.
          bind-Ensures rs Anything (does-Ensures rs os (truncate abs 0o644) b)
            (λ _ u'. lift-Ensures rs (Below rs) (ok abs) (λ p e. subst (Below rs) (ok_inj e) b))))

  pub open_entry-Ensures : (a : GoString) → Ensures rs (open_entry os s a) Anything
  unfolding open_entry
  open_entry-Ensures a = at_path a (λ abs b. opens-Ensures rs os abs b)

  pub open_within-Ensures : (a b : GoString) → Ensures rs (open_within os s a b) Anything
  unfolding open_within
  open_within-Ensures a c = at_path_within a c (λ abs b. opens-Ensures rs os abs b)

  module _ (names : Names) where
    list_abs-Ensures :
        (abs : GoString) → Below rs abs → Ensures rs (list_abs os names s abs) Anything
    unfolding list_abs
    list_abs-Ensures abs b =
        after (lists-Ensures rs os Anything (λ p st es e. tt) abs b) (λ _. returns _)

    pub list-Ensures : (a : GoString) → Ensures rs (list os names s a) Anything
    unfolding list
    list-Ensures a = at_path a list_abs-Ensures

    pub list_within-Ensures : (a b : GoString) → Ensures rs (list_within os names s a b) Anything
    unfolding list_within
    list_within-Ensures a b = at_path_within a b list_abs-Ensures

    pub stat-Ensures : (a : GoString) → Ensures rs (stat os names s a) Anything
    unfolding stat
    stat-Ensures a = at_path a (λ abs b. after (stats-Ensures rs os abs b) (λ _. returns _))

    pub stat_within-Ensures : (a b : GoString) → Ensures rs (stat_within os names s a b) Anything
    unfolding stat_within
    stat_within-Ensures a c =
        at_path_within a c
          (λ abs b. after (stats-Ensures rs os abs b) (λ _. after (returns _) (λ _. returns _)))

  module _ (named : ListsNames os) where
    copy_file-Ensures :
        (src dest : GoString) (mode : ℕ)
        → Below rs src
        → Below rs dest
        → Ensures rs (copy_file os src dest mode) Anything
    unfolding copy_file
    copy_file-Ensures src dest mode b b' = after (opens-Ensures rs os src b) (λ _.
        after (does-Ensures rs os (truncate dest mode) b') (λ _.
          after (reads-Ensures rs os src b) (λ text. does-Ensures rs os (write dest text) b')))

    -- Copies of one directory into another, both below the root.
    abbrev CopiesBelow : (GoString → GoString → Sys S (Unit {0})) → Type 0
    CopiesBelow sub =
        (src dest : GoString) → Below rs src → Below rs dest → Ensures rs (sub src dest) Anything

    copy_entry-Ensures :
        (sub : GoString → GoString → Sys S (Unit {0}))
        → CopiesBelow sub
        → (src dest : GoString) → Below rs src
        → Below rs dest
        → (e : DirEntry) (d : Bool) → IsElem e.name
        → Ensures rs (copy_entry os sub src dest e d) Anything
    copy_entry-Ensures sub h src dest b b' e true p =
        h _ _ (child-Below rs src e.name root.elems b p)
          (child-Below rs dest e.name root.elems b' p)
    copy_entry-Ensures sub h src dest b b' e false p = after (returns _) (λ info.
        copy_file-Ensures _ _ info.mode (child-Below rs src e.name root.elems b p)
          (child-Below rs dest e.name root.elems b' p))

    copy_entries-Ensures :
        (sub : GoString → GoString → Sys S (Unit {0}))
        → CopiesBelow sub
        → (src dest : GoString) → Below rs src
        → Below rs dest
        → (es : List DirEntry) → All (λ e. IsElem e.name) es
        → Ensures rs (copy_entries os sub src dest es) Anything
    unfolding copy_entries
    copy_entries-Ensures sub h src dest b b' [] k = returns (ok tt)
    copy_entries-Ensures sub h src dest b b' (e ∷ es) (p, k) =
        after (copy_entry-Ensures sub h src dest b b' e e.is_dir p)
          (λ _. copy_entries-Ensures sub h src dest b b' es k)

    copy_dir-Ensures : (f : ℕ) → CopiesBelow (copy_dir os f)
    unfolding copy_dir
    copy_dir-Ensures zero src dest b b' = returns _
    copy_dir-Ensures (suc f) src dest b b' = after (stats-Ensures rs os src b) (λ info.
        after (does-Ensures rs os (mkdir_all dest info.mode) (inl b')) (λ _.
          bind-Ensures rs (All (λ e. IsElem e.name)) (lists-Ensures rs os _ named src b)
            (λ es k. copy_entries-Ensures (copy_dir os f) (copy_dir-Ensures f) src dest b b' es k)))

    copy_any-Ensures :
        (f : ℕ) (src dest : GoString) (info : Info) (d : Bool)
        → Below rs src
        → Below rs dest
        → Ensures rs (copy_any os f src dest info d) Anything
    copy_any-Ensures f src dest info true b b' = copy_dir-Ensures f src dest b b'
    copy_any-Ensures f src dest info false b b' = copy_file-Ensures src dest info.mode b b'

    pub copy-Ensures : (f : ℕ) (a b : GoString) → Ensures rs (copy os f s a b) Anything
    unfolding copy
    copy-Ensures f a a' = at_path a (λ src b. at_path a' (λ dest b'.
        after (stats-Ensures rs os src b)
          (λ info. copy_any-Ensures f src dest info info.is_dir b b')))

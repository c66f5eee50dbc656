-- ===== src/Fsops/Sandbox/Root.antt =====
-- internal/fsops/sandbox.go: the root that NewSandbox finds.
use nimbus_fs.Prelude.{
  Bool, true, false, if◌then◌else◌, ◌≡◌, ◌⊎◌, inl, inr, refl, ◌∙◌, sym, ap, subst, Option, none,
  some, List, [], ◌∷◌, ◌++◌, GoString, codes, All, Result, ok, >>=-eq-ok, ok_inj, has_prefix, arith,
  ==_iff, Bool-cases,
}
use nimbus_fs.GoLib.Path.{slash, is_rooted, clean, join}
use nimbus_fs.GoLib.Path.Elems.{IsElem}
use nimbus_fs.GoLib.Path.Absolute.{abs_path, elems_after, elems_after-IsElem, clean-rooted}
use nimbus_fs.Fsops.Sandbox.{Disk, Sandbox, joined_to, absolute, new_sandbox}
use nimbus_fs.Fsops.Sandbox.Contained.{IsRoot}

-- An absolute, clean path.
abbrev pub IsClean : GoString → Type 0
IsClean p = (es : List GoString) × All IsElem es × (p ≡ abs_path es)

-- EvalSymlinks of an absolute path gives an absolute, clean path.
abbrev pub GivesClean : Disk → Type 0
GivesClean d = (p q : GoString) → IsClean p → d.eval_symlinks p ≡ ok q → IsClean q

-- os.Getwd gives a rooted path.
abbrev pub GivesRooted : Option GoString → Type 0
GivesRooted none = Unit
GivesRooted (some wd) = is_rooted wd ≡ true

clean-IsClean : (p : GoString) → is_rooted p ≡ true → IsClean (clean p)
clean-IsClean [] e = cc
clean-IsClean (c ∷ q) e = (
  elems_after [] q,
  elems_after-IsElem [] q tt,
  ap (λ t. clean (t ∷ q)) ((==_iff c slash).0 e) ∙ clean-rooted q,
)

join_rooted : (wd p : GoString) → is_rooted wd ≡ true → IsClean (join (wd ∷ p ∷ []))
unfolding join nimbus_fs.GoLib.Path.join_slash nimbus_fs.Prelude.str_eq
join_rooted [] p e = cc
join_rooted (c ∷ wd) p e = clean-IsClean (c ∷ wd ++ (slash ∷ p)) e

prefix_rooted : (p : GoString) → has_prefix p (slash ∷ []) ≡ true → is_rooted p ≡ true
unfolding has_prefix
prefix_rooted [] h = cc
prefix_rooted (c ∷ p) h = ground arith

joined-IsClean :
    (wd : Option GoString) (p abs : GoString)
    → GivesRooted wd
    → joined_to wd p ≡ ok abs
    → IsClean abs
joined-IsClean none p abs h e = cc
joined-IsClean (some wd) p abs h e = subst IsClean (ok_inj e) (join_rooted wd p h)

absolute-IsClean :
    (wd : Option GoString) (p abs : GoString)
    → GivesRooted wd
    → absolute wd p ≡ ok abs
    → IsClean abs
unfolding absolute
absolute-IsClean wd p abs h e = by_test (has_prefix p (slash ∷ [])) refl e
  where
    by_test :
        (b : Bool)
        → has_prefix p (slash ∷ []) ≡ b
        → (if b then ok (clean p) else joined_to wd p) ≡ ok abs
        → IsClean abs
    by_test true t e = subst IsClean (ok_inj e) (clean-IsClean p (prefix_rooted p t))
    by_test false t e = joined-IsClean wd p abs h e

-- Where EvalSymlinks of an absolute path gives a clean one, a sandbox that NewSandbox makes has the
-- root "/", or one that the theorems on Resolve ask for.
pub new_sandbox-IsRoot :
    (wd : Option GoString) (d : Disk) (root : GoString) (s : Sandbox)
    → GivesRooted wd
    → GivesClean d
    → new_sandbox wd d root ≡ ok s
    → (s.root ≡ codes "/") ⊎ ((rs : List GoString) × IsRoot s rs)
unfolding new_sandbox
new_sandbox-IsRoot wd d root s rooted gives h =
    let (abs, a, h1) = >>=-eq-ok (absolute wd root) _ s h in
    let (resolved, e, h2) = >>=-eq-ok (d.eval_symlinks abs) _ s h1 in
    let (es, elems, text) = gives abs resolved (absolute-IsClean wd root abs rooted a) e in
    split es elems (ap (λ (x : Sandbox). x.root) (sym (ok_inj h2)) ∙ text)
  where
    split :
        (es : List GoString)
        → All IsElem es
        → s.root ≡ abs_path es
        → (s.root ≡ codes "/") ⊎ ((rs : List GoString) × IsRoot s rs)
    split [] elems text = inl text
    split (e ∷ es) elems text =
        inr (e ∷ es, record { proper = λ n. cc; elems = elems; text = text })

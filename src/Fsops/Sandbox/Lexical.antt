-- ===== src/Fsops/Sandbox/Lexical.antt =====
-- Resolve on a disk without symbolic links: the lexical meaning of a request path.
use nimbus_fs.Prelude.{
  true, ◌≡◌, refl, List, [], ◌∷◌, ◌++◌, append-nil, arith, GoString, str_eq_refl, ok,
}
use nimbus_fs.GoLib.Path.Absolute.{abs_path}
use nimbus_fs.GoLib.Path.Containment.{prefix_of_below}
use nimbus_fs.Fsops.Sandbox.{Disk, Sandbox, within}
use nimbus_fs.Fsops.Sandbox.Contained.{IsRoot}

-- The root is there, and no path is a symbolic link.
pub record IsPlain (d : Disk) (rs : List GoString) : Type 0 where
  pub top : d.exists (abs_path []) ≡ true
  pub root : d.exists (abs_path rs) ≡ true
  pub no_links : (p : GoString) → d.exists p ≡ true → d.eval_symlinks p ≡ ok p

module _ (s : Sandbox) (rs : List GoString) (root : IsRoot s rs) where
  pub within-abs_path : (t : List GoString) → within s (abs_path (rs ++ t)) ≡ true
  unfolding within
  within-abs_path [] = rw append-nil (rw root.text (rw (str_eq_refl (abs_path rs)) refl))
  within-abs_path (t ∷ ts) =
      rw root.text (ground (arith, prefix_of_below rs (t ∷ ts) root.proper (λ e. cc e)))

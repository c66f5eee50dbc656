-- ===== src/Fsops/Sandbox/Requests.antt =====
-- RelPath, and the way back by Resolve.
use nimbus_fs.Prelude.{
  ◌≡◌, refl, ap, ◌∙◌, List, [], ◌∷◌, ◌++◌, arith, GoString, codes, str_eq, str_eq_iff, All,
  All-append, ok, some, ◌≢◌,
}
use nimbus_fs.GoLib.Path.{join_slash}
use nimbus_fs.GoLib.Path.Elems.{IsElem}
use nimbus_fs.GoLib.Path.Absolute.{abs_path, abs_path_join}
use nimbus_fs.GoLib.Path.Rel.{rel, rel-abs_path, dot_if_nil}
use nimbus_fs.Fsops.Sandbox.{Sandbox, request_of, rel_path}
use nimbus_fs.Fsops.Sandbox.Contained.{IsRoot}

join_slash-ne-dot :
    (t : GoString) (ts : List GoString) → All IsElem (t ∷ ts) → join_slash (t ∷ ts) ≢ codes "."
unfolding join_slash
join_slash-ne-dot t [] ((_, d, _, _), h) e = d e
join_slash-ne-dot [] (u ∷ ts) ((n, _, _, _), h) e = n refl
join_slash-ne-dot (c ∷ []) (u ∷ ts) h e = cc
join_slash-ne-dot (c ∷ d ∷ t) (u ∷ ts) h e = cc

request_of_elems :
    (ts : List GoString) → All IsElem ts → request_of (some (dot_if_nil ts)) ≡ ok (abs_path ts)
unfolding str_eq
request_of_elems [] h = refl
request_of_elems (t ∷ ts) h =
    rw (← abs_path_join (t ∷ ts))
      (ground (arith, str_eq_iff (join_slash (t ∷ ts)) (codes "."), join_slash-ne-dot t ts h))

module _ (s : Sandbox) (rs : List GoString) (root : IsRoot s rs) where
  -- RelPath of a path below the root is "/" with the elements behind the root's: the root's own
  -- elements never show in it.
  pub rel_path-abs_path :
      (ts : List GoString) → All IsElem ts → rel_path s (abs_path (rs ++ ts)) ≡ ok (abs_path ts)
  unfolding rel_path
  rel_path-abs_path ts h =
      ap (λ t. request_of (rel t (abs_path (rs ++ ts)))) root.text
      ∙ ap request_of (rel-abs_path rs ts root.elems (All-append IsElem rs ts root.elems h))
      ∙ request_of_elems ts h

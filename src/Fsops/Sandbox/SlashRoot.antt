-- ===== src/Fsops/Sandbox/SlashRoot.antt =====
-- The sandbox over the whole disk, with the root "/".
use nimbus_fs.Prelude.{
  true, false, ◌≡◌, refl, ok_inj, inl, inr, List, [], ◌∷◌, arith, GoString, str_eq_iff, has_prefix,
  All, ok, >>=-eq-ok,
}
use nimbus_fs.GoLib.Path.{slash, is_rooted, clean, join}
use nimbus_fs.GoLib.Path.Elems.{IsElem}
use nimbus_fs.GoLib.Path.Absolute.{abs_path}
use nimbus_fs.GoLib.Path.Containment.{clean_cases, join_cases}
use nimbus_fs.Fsops.Sandbox.{
  escape, Disk, Sandbox, within, guard, finished, deepest_existing, resolve_joined, resolve,
}
use nimbus_fs.Fsops.Sandbox.Contained.{guard-eq-ok}

not_double_slash :
    (ps : List GoString) → All IsElem ps → has_prefix (abs_path ps) (slash ∷ slash ∷ []) ≡ false
unfolding has_prefix
not_double_slash [] h = refl
not_double_slash ([] ∷ ps) ((n, _, _, _), h) = absurd (n refl)
not_double_slash ((c ∷ p) ∷ ps) ((n, d, dd, (k, ks)), h) = ground arith

join_not_double_slash : (xs : List GoString) → has_prefix (join xs) (slash ∷ slash ∷ []) ≡ false
join_not_double_slash xs = elim (join_cases xs) [
  | inl empty ↦ rw empty (unfold has_prefix in refl)
  | inr (q, same) ↦ rw same (elim (clean_cases q) [
    | inl f ↦ unrooted (clean q) f
    | inr (ps, k, text) ↦ rw text (not_double_slash ps k)
  ])
]
  where
    unrooted : (p : GoString) → is_rooted p ≡ false → has_prefix p (slash ∷ slash ∷ []) ≡ false
    unrooted [] h = unfold has_prefix in refl
    unrooted (c ∷ p) h = unfold has_prefix in ground arith

-- With the root "/" the only path that Resolve ever returns is "/" itself.
pub resolve-slash_root :
    (d : Disk) (s : Sandbox) (request full : GoString)
    → s.root ≡ slash ∷ []
    → resolve d s request ≡ ok full
    → full ≡ slash ∷ []
unfolding resolve resolve_joined within
resolve-slash_root d s request full root h =
    let (u, _, h1) = >>=-eq-ok (guard (within s _) escape) _ full h in
    let (found, _, h2) = >>=-eq-ok (finished (deepest_existing d _)) _ full h1 in
    let (resolved, _, h3) = >>=-eq-ok (d.eval_symlinks found.0) _ full h2 in
    let (v, _, h4) = >>=-eq-ok (guard (within s resolved) escape) _ full h3 in
    let (w, test, same) =
      >>=-eq-ok (guard (within s (join (resolved ∷ found.1 ∷ []))) escape) _ full h4 in
    only (join (resolved ∷ found.1 ∷ [])) (join_not_double_slash _) (guard-eq-ok _ escape w test)
      (ok_inj same)
  where
    only :
        (p : GoString)
        → has_prefix p (slash ∷ slash ∷ []) ≡ false
        → within s p ≡ true
        → p ≡ full
        → full ≡ slash ∷ []
    only p none_below test same = ground (arith, str_eq_iff p s.root)

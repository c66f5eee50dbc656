-- ===== src/Fsops/Sandbox/Contained.antt =====
-- A path that Resolve returns is the root or a descendant of it, element by element.
use nimbus_fs.Prelude.{
  Bool, true, false, ◌||◌, ◌≡◌, ◌≢◌, ◌⊎◌, refl, subst, ok_inj, sym, ap, ◌∙◌, inl, inr, List, [],
  ◌∷◌, ◌++◌, append-nil, arith, GoString, str_eq, str_eq_iff, has_prefix, All, All-append,
  All-right, Bool-cases, ok, >>=-eq-ok,
}
use nimbus_fs.GoLib.Path.{slash, is_rooted, clean, join}
use nimbus_fs.GoLib.Path.Elems.{IsElem}
use nimbus_fs.GoLib.Path.Absolute.{abs_path}
use nimbus_fs.GoLib.Path.Containment.{clean_cases, below_of_prefix, join_cases}
use nimbus_fs.Fsops.Sandbox.{
  FsError, escape, Disk, Sandbox, within, guard, finished, deepest_existing, resolve_joined,
  resolve, resolve_within,
}

-- The root is an absolute, clean path other than "/", with the elements `rs`. EvalSymlinks returns
-- clean paths.
pub record IsRoot (s : Sandbox) (rs : List GoString) : Type 0 where
  pub proper : rs ≢ []
  pub elems : All IsElem rs
  pub text : s.root ≡ abs_path rs

-- The path has the elements `rs` and then others, each a proper name.
abbrev pub Below : List GoString → GoString → Type 0
Below rs p = (t : List GoString) × All IsElem t × (p ≡ abs_path (rs ++ t))

pub guard-eq-ok : (b : Bool) (e : FsError) (u : Unit {0}) → guard b e ≡ ok u → b ≡ true
guard-eq-ok true e u h = refl
guard-eq-ok false e u h = cc

prefix_not_nil : (rs : List GoString) → has_prefix [] (abs_path rs ++ slash ∷ []) ≡ false
unfolding has_prefix
prefix_not_nil [] = refl
prefix_not_nil (r ∷ rs) = refl

rooted_of_prefix :
    (rs : List GoString) (p : GoString)
    → has_prefix p (abs_path rs ++ slash ∷ []) ≡ true
    → is_rooted p ≡ true
unfolding has_prefix
rooted_of_prefix [] [] h = cc
rooted_of_prefix (r ∷ rs) [] h = cc
rooted_of_prefix [] (c ∷ p) h = ground arith
rooted_of_prefix (r ∷ rs) (c ∷ p) h = ground arith

-- A cleaned path with the text of a proper path and a slash before it is below that path.
pub clean-Below :
    (rs : List GoString) (q : GoString)
    → rs ≢ []
    → All IsElem rs
    → has_prefix (clean q) (abs_path rs ++ slash ∷ []) ≡ true
    → Below rs (clean q)
clean-Below rs q n h e = elim (clean_cases q) [
  | inl f ↦ absurd (cc (f, rooted_of_prefix rs (clean q) e))
  | inr (ps, k, same) ↦
      let (t, split) = below_of_prefix rs ps h k n (rw same at e) in
      (t, All-right IsElem rs t (rw split at k), same ∙ ap abs_path split)
]

-- The test of ResolveWithin on two paths below the root.
scope-Below :
    (ss : List GoString) (scope full : GoString)
    → ss ≢ []
    → All IsElem ss
    → scope ≡ abs_path ss
    → Below [] full
    → (str_eq full scope || has_prefix full (scope ++ slash ∷ [])) ≡ true
    → Below ss full
scope-Below ss scope full n h at (ts, k, same) test = elim (Bool-cases (str_eq full scope)) [
  | inl e ↦ ([], tt, (str_eq_iff full scope).0 e ∙ at ∙ ap abs_path (sym (append-nil ss)))
  | inr e ↦
      let (t, split) = below_of_prefix ss ts h k n (rw (← same) (rw (← at) (ground arith))) in
      (t, All-right IsElem ss t (rw split at k), same ∙ ap abs_path split)
]

pub append_ne_nil : (xs ys : List GoString) → xs ≢ [] → xs ++ ys ≢ []
append_ne_nil [] ys n e = n refl
append_ne_nil (x ∷ xs) ys n e = cc

pub Below-nil : (rs : List GoString) (p : GoString) → All IsElem rs → Below rs p → Below [] p
Below-nil rs p h (t, k, same) = (rs ++ t, All-append IsElem rs t h k, same)

module _ (s : Sandbox) (rs : List GoString) (root : IsRoot s rs) where
  Below-self : Below rs s.root
  Below-self = ([], tt, root.text ∙ ap abs_path (sym (append-nil rs)))

  within-cases :
      (p : GoString)
      → within s p ≡ true
      → (p ≡ s.root) ⊎ (has_prefix p (abs_path rs ++ slash ∷ []) ≡ true)
  unfolding within
  within-cases p h = elim (Bool-cases (str_eq p s.root)) [
    | inl e ↦ inl ((str_eq_iff p s.root).0 e)
    | inr e ↦ inr (rw (← root.text) (ground arith))
  ]

  -- The textual test of `within` means containment, for a path that Join returns.
  pub within-join : (xs : List GoString) → within s (join xs) ≡ true → Below rs (join xs)
  within-join xs h = elim (within-cases (join xs) h) [
    | inl e ↦ rw e Below-self
    | inr e ↦ elim (join_cases xs) [
      | inl empty ↦ absurd (cc (prefix_not_nil rs, rw empty at e))
      | inr (q, same) ↦ rw same (clean-Below rs q root.proper root.elems (rw same at e))
    ]
  ]

  pub resolve_joined-Below :
      (d : Disk) (joined full : GoString) → resolve_joined d s joined ≡ ok full → Below rs full
  unfolding resolve_joined
  resolve_joined-Below d joined full h =
      let (u, _, h1) = >>=-eq-ok (guard (within s joined) escape) _ full h in
      let (found, _, h2) = >>=-eq-ok (finished (deepest_existing d joined)) _ full h1 in
      let (resolved, _, h3) = >>=-eq-ok (d.eval_symlinks found.0) _ full h2 in
      let (v, _, h4) = >>=-eq-ok (guard (within s resolved) escape) _ full h3 in
      let (w, test, same) =
        >>=-eq-ok (guard (within s (join (resolved ∷ found.1 ∷ []))) escape) _ full h4 in
      subst (Below rs) (ok_inj same)
        (within-join (resolved ∷ found.1 ∷ []) (guard-eq-ok _ escape w test))

  -- With a root that is an absolute clean path other than "/": whatever the request and the links
  -- on the disk, a path that Resolve returns has the elements of the root first, and then proper
  -- names only: no "..", no "." and no slash inside a name.
  pub resolve-Below :
      (d : Disk) (request full : GoString) → resolve d s request ≡ ok full → Below rs full
  unfolding resolve
  resolve-Below d request full h = resolve_joined-Below d _ full h

  -- With a root that is an absolute clean path other than "/": a path that ResolveWithin returns
  -- lies, element by element, below what the scope resolves to, which lies below the root.
  pub resolve_within-Below :
      (d : Disk) (scope sub full : GoString)
      → resolve_within d s scope sub ≡ ok full
      → (st : List GoString) × All IsElem st
        × (resolve d s scope ≡ ok (abs_path (rs ++ st)))
        × Below (rs ++ st) full
  unfolding resolve_within
  resolve_within-Below d scope sub full h =
      let (scope_abs, hs, h1) = >>=-eq-ok (resolve d s scope) _ full h in
      let (full', hf, h2) = >>=-eq-ok (resolve d s (join (scope ∷ sub ∷ []))) _ full h1 in
      let (u, test, same) =
        >>=-eq-ok
          (guard (str_eq full' scope_abs || has_prefix full' (scope_abs ++ slash ∷ [])) escape) _
          full h2 in
      let (st, k, at) = resolve-Below d scope scope_abs hs in
      (
        st,
        k,
        hs ∙ ap ok at,
        scope-Below (rs ++ st) scope_abs full (append_ne_nil rs st root.proper)
            (All-append IsElem rs st root.elems k) at
            (subst (Below []) (ok_inj same)
              (Below-nil rs full' root.elems (resolve-Below d _ full' hf)))
            (subst (λ p. (str_eq p scope_abs || has_prefix p (scope_abs ++ slash ∷ [])) ≡ true)
              (ok_inj same) (guard-eq-ok _ escape u test)),
      )

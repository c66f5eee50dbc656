-- ===== src/Fsops/Sys/Lookups.antt =====
-- internal/fsops/sandbox.go: the paths that Resolve asks the disk for.
use nimbus_fs.Prelude.{
  ℕ, zero, suc, ◌||◌, ◌≡◌, ◌⊎◌, refl, subst, sym, ap, ◌∙◌, inl, inr, List, [], ◌∷◌, ◌++◌,
  append-nil, append_assoc, GoString, All, All-left, All-right, All-append, Bool-cases, str_eq,
  Result, ok, err,
}
use nimbus_fs.GoLib.Path.{slash, clean, join, dir}
use nimbus_fs.GoLib.Path.Elems.{IsElem}
use nimbus_fs.GoLib.Path.Absolute.{abs_path}
use nimbus_fs.GoLib.Path.Parent.{dir-abs_path, dir-root}
use nimbus_fs.Fsops.Sandbox.{FsError, Disk, Sandbox, within, deepest_fuel}
use nimbus_fs.Fsops.Sandbox.Contained.{IsRoot, Below, within-join}
use nimbus_fs.Fsops.Sandbox.Existing.{snoc-cases}
use nimbus_fs.Fsops.Sys.{
  Event, lstat_of, followed, search_from, joined_lookups, behind_scope, lookups, lookups_within,
}

-- The path is an ancestor of the one with the elements `rs`, or that one.
abbrev pub Above : List GoString → GoString → Type 0
Above rs p = (a b : List GoString) × (rs ≡ a ++ b) × (p ≡ abs_path a)

-- The elements start with `rs`, or `rs` starts with them.
abbrev IsNear : List GoString → List GoString → Type 0
IsNear rs es = ((t : List GoString) × (es ≡ rs ++ t)) ⊎ ((b : List GoString) × (rs ≡ es ++ b))

snoc_inj : (xs ys : List GoString) (x y : GoString) → xs ++ x ∷ [] ≡ ys ++ y ∷ [] → xs ≡ ys
snoc_inj [] [] x y e = refl
snoc_inj [] (b ∷ []) x y e = cc
snoc_inj [] (b ∷ c ∷ ys) x y e = cc
snoc_inj (a ∷ []) [] x y e = cc
snoc_inj (a ∷ c ∷ xs) [] x y e = cc
snoc_inj (a ∷ xs) (b ∷ ys) x y e =
    let tail : xs ++ x ∷ [] ≡ ys ++ y ∷ [] = cc e in
    let head : a ≡ b = cc e in cc (head, snoc_inj xs ys x y tail)

parent-IsNear : (rs ss : List GoString) (s : GoString) → IsNear rs (ss ++ s ∷ []) → IsNear rs ss
parent-IsNear rs ss s (inr (b, e)) = inr (s ∷ b, e ∙ append_assoc ss (s ∷ []) b)
parent-IsNear rs ss s (inl (t, e)) = elim (snoc-cases t) [
  | inl nil ↦ inr (s ∷ [], sym (append-nil rs) ∙ ap (λ x. rs ++ x) (sym nil) ∙ sym e)
  | inr (ts, x, same) ↦ inl (
    ts,
    snoc_inj ss (rs ++ ts) s x (e ∙ ap (λ y. rs ++ y) same ∙ sym (append_assoc rs ts (x ∷ []))),
  )
]

IsNear-Above :
    (rs es : List GoString)
    → All IsElem es
    → IsNear rs es
    → Below rs (abs_path es) ⊎ Above rs (abs_path es)
IsNear-Above rs es h (inl (t, e)) =
    inl (t, All-right IsElem rs t (subst (All IsElem) e h), ap abs_path e)
IsNear-Above rs es h (inr (b, e)) = inr (es, b, e, refl)

-- A condition that holds of a lookup of each path below or above the root.
module _ (P : Event → Type 0) (rs : List GoString)
    (near : (p : GoString) → Below rs p ⊎ Above rs p → P (lstat_of p) × P (followed p)) where
  search_from-All :
      (d : Disk) (f : ℕ) (es : List GoString) (trace : List Event)
      → All IsElem es
      → IsNear rs es
      → All P trace
      → All P (search_from d f (abs_path es) trace)
  unfolding search_from
  search_from-All d zero es trace h k t = t
  search_from-All d (suc f) es trace h k t =
      let (stat, follow) = near (abs_path es) (IsNear-Above rs es h k) in
      elim (Bool-cases (d.exists (abs_path es) || str_eq (dir (abs_path es)) (abs_path es))) [
        | inl e ↦ rw e (follow, (stat, t))
        | inr e ↦ rw e (elim (snoc-cases es) [
          | inl nil ↦
              subst (λ x. All P (search_from d f x (lstat_of (abs_path es) ∷ trace)))
                (sym dir-root ∙ ap (λ x. dir (abs_path x)) (sym nil))
                (search_from-All d f [] (lstat_of (abs_path es) ∷ trace) tt (inr (rs, refl))
                  (stat, t))
          | inr (ss, s, same) ↦
              let hs = subst (All IsElem) same h in
              let up : All IsElem ss = All-left IsElem ss (s ∷ []) hs in
              subst (λ x. All P (search_from d f x (lstat_of (abs_path es) ∷ trace)))
                (sym (dir-abs_path ss s hs up (All-right IsElem ss (s ∷ []) hs).0.3)
                  ∙ ap (λ x. dir (abs_path x)) (sym same))
                (search_from-All d f ss (lstat_of (abs_path es) ∷ trace) up
                  (parent-IsNear rs ss s (subst (IsNear rs) same k)) (stat, t))
        ])
      ]

  module _ (s : Sandbox) (root : IsRoot s rs) (d : Disk) where
    joined_lookups-All :
        (xs : List GoString) (trace : List Event)
        → All P trace
        → All P (joined_lookups d s (join xs) trace)
    joined_lookups-All xs trace t = elim (Bool-cases (within s (join xs))) [
      | inr e ↦ rw e t
      | inl e ↦
          let (ts, k, same) = within-join s rs root xs e in
          rw e (
            subst (λ x. All P (search_from d (deepest_fuel (join xs)) x trace)) (sym same)
              (search_from-All d (deepest_fuel (join xs)) (rs ++ ts) trace
                (All-append IsElem rs ts root.elems k) (inl (ts, refl)) t))
    ]

    pub lookups-All :
        (request : GoString) (trace : List Event) → All P trace → All P (lookups d s request trace)
    lookups-All request = joined_lookups-All (s.root ∷ clean (slash ∷ request) ∷ [])

    behind_scope-All :
        (r : Result FsError GoString) (before after : List Event)
        → All P before
        → All P after
        → All P (behind_scope r before after)
    behind_scope-All (err e) before after hb ha = hb
    behind_scope-All (ok p) before after hb ha = ha

    pub lookups_within-All :
        (scope sub : GoString) (trace : List Event)
        → All P trace
        → All P (lookups_within d s scope sub trace)
    lookups_within-All scope sub trace t =
        let before = lookups-All scope trace t in
        behind_scope-All _ _ _ before (lookups-All (join (scope ∷ sub ∷ [])) _ before)

-- ===== src/Fsops/Sandbox/Existing.antt =====
-- The search for the deepest existing ancestor of a path.
use nimbus_fs.Prelude.{
  ℕ, zero, suc, ◌<◌, ◌≤◌, true, false, ◌≡◌, ◌≢◌, ◌⊎◌, refl, subst, sym, ap, ◌∙◌, inl, inr, some,
  List, [], ◌∷◌, ◌++◌, append-nil, append_assoc, arith, GoString, str_eq_iff, length, length-append,
  All, All-left, All-right, Bool-cases,
}
use nimbus_fs.GoLib.Path.{join_slash, join, dir, base}
use nimbus_fs.GoLib.Path.Elems.{IsElem}
use nimbus_fs.GoLib.Path.Absolute.{abs_path, slashed, slashed-append}
use nimbus_fs.GoLib.Path.Parent.{dir-abs_path, base-abs_path}
use nimbus_fs.GoLib.Path.Containment.{join_of_IsElem}
use nimbus_fs.Fsops.Sandbox.{Disk, deepest_from, deepest_fuel, deepest_existing}

-- `a` are the elements of the deepest ancestor that exists, and `b` the rest of `ps`: no ancestor
-- with more elements exists.
pub record IsDeepest (d : Disk) (ps a b : List GoString) : Type 0 where
  pub whole : ps ≡ a ++ b
  pub found : d.exists (abs_path a) ≡ true
  pub deepest : (c c' : List GoString) → c ≢ [] → b ≡ c ++ c' → d.exists (abs_path (a ++ c)) ≡ false

pub snoc-cases :
    (ps : List GoString) → (ps ≡ []) ⊎ ((ss : List GoString) × (s : GoString) × (ps ≡ ss ++ s ∷ []))
snoc-cases [] = inl refl
snoc-cases (p ∷ ps) = elim (snoc-cases ps) [
  | inl e ↦ inr ([], p, ap (λ t. p ∷ t) e)
  | inr (ss, s, e) ↦ inr (p ∷ ss, s, ap (λ t. p ∷ t) e)
]

abs_path_longer :
    (ss : List GoString) (s : GoString)
    → s ≢ []
    → length (abs_path ss) < length (abs_path (ss ++ s ∷ []))
abs_path_longer ss [] n = absurd (n refl)
abs_path_longer [] (c ∷ s) n = omega arith
abs_path_longer (x ∷ ss) (c ∷ s) n = omega (
  arith,
  ap length (slashed-append (x ∷ ss) ((c ∷ s) ∷ [])),
  length-append (slashed (x ∷ ss)) (slashed ((c ∷ s) ∷ [])),
)

parent-ne : (ss : List GoString) (s : GoString) → s ≢ [] → abs_path ss ≢ abs_path (ss ++ s ∷ [])
parent-ne ss s n e = omega (arith, abs_path_longer ss s n, ap length e)

module _ (d : Disk) (root_exists : d.exists (abs_path []) ≡ true) where
  step_found :
      (f : ℕ) (cur : GoString) (parts : List GoString)
      → d.exists cur ≡ true
      → deepest_from d (suc f) cur parts ≡ some (cur, join parts)
  unfolding deepest_from
  step_found f cur parts e = rw e

  step_up :
      (f : ℕ) (cur : GoString) (parts : List GoString)
      → d.exists cur ≡ false
      → dir cur ≢ cur
      → deepest_from d (suc f) cur parts ≡ deepest_from d f (dir cur) (base cur ∷ parts)
  unfolding deepest_from
  step_up f cur parts e n = rw e (ground (arith, str_eq_iff (dir cur) cur))

  -- No ancestor at or below the cut that keeps `ss` exists, but those within `ss`.
  abbrev NoneBeyond : List GoString → List GoString → Type 0
  NoneBeyond ss b =
      (c c' : List GoString) → c ≢ [] → b ≡ c ++ c' → d.exists (abs_path (ss ++ c)) ≡ false

  NoneBeyond-step :
      (ss b : List GoString) (s : GoString)
      → d.exists (abs_path (ss ++ s ∷ [])) ≡ false
      → NoneBeyond (ss ++ s ∷ []) b
      → NoneBeyond ss (s ∷ b)
  NoneBeyond-step ss b s e h [] c' n same = absurd (n refl)
  NoneBeyond-step ss b s e h (x ∷ []) c' n same = cc (e, same)
  NoneBeyond-step ss b s e h (x ∷ y ∷ c) c' n same =
      let tail : b ≡ (y ∷ c) ++ c' = cc same in
      let head : s ≡ x = cc same in
      rw (← head) (
        ap (λ t. d.exists (abs_path t)) (sym (append_assoc ss (s ∷ []) (y ∷ c)))
        ∙ h (y ∷ c) c' (λ e'. cc e') tail)

  -- The loop from `ss` with the parts `b` returns the deepest existing ancestor and the rest.
  abbrev Ends : ℕ → List GoString → List GoString → Type 0
  Ends f ss b =
      (a r : List GoString) × (deepest_from d f (abs_path ss) b ≡ some (abs_path a, join_slash r))
      × All IsElem a
      × All IsElem r
      × IsDeepest d (ss ++ b) a r

  abbrev EndsAll : ℕ → Type 0
  EndsAll f =
      (ss b : List GoString)
      → All IsElem ss
      → All IsElem b
      → length ss < f
      → NoneBeyond ss b
      → Ends f ss b

  cut :
      (f : ℕ) (ss b : List GoString) (s : GoString)
      → EndsAll f
      → All IsElem (ss ++ s ∷ [])
      → All IsElem b
      → length (ss ++ s ∷ []) < suc f
      → NoneBeyond (ss ++ s ∷ []) b
      → d.exists (abs_path (ss ++ s ∷ [])) ≡ false
      → Ends (suc f) (ss ++ s ∷ []) b
  cut f ss b s rec h k lt none_beyond e =
      let hs : All IsElem ss = All-left IsElem ss (s ∷ []) h in
      let p : IsElem s = (All-right IsElem ss (s ∷ []) h).0 in
      let up = dir-abs_path ss s h hs p.3 in
      let (a, r, run, ha, hr, spec) =
        rec ss (s ∷ b) hs (p, k) (omega (arith, length-append ss (s ∷ [])))
          (NoneBeyond-step ss b s e none_beyond) in
      (
        a,
        r,
        step_up f (abs_path (ss ++ s ∷ [])) b e (λ same. parent-ne ss s p.0 (sym up ∙ same))
            ∙ ap (λ t. deepest_from d f t (base (abs_path (ss ++ s ∷ [])) ∷ b)) up
            ∙ ap (λ t. deepest_from d f (abs_path ss) (t ∷ b)) (base-abs_path ss s h p)
            ∙ run,
        ha,
        hr,
        rw (append_assoc ss (s ∷ []) b) spec,
      )

  deepest_from_lem : (f : ℕ) → EndsAll f
  deepest_from_lem zero ss b h k lt none_beyond = absurd (omega arith)
  deepest_from_lem (suc f) ss b h k lt none_beyond = elim (Bool-cases (d.exists (abs_path ss))) [
    | inl e ↦ (
      ss,
      b,
      step_found f (abs_path ss) b e ∙ ap (λ t. some (abs_path ss, t)) (join_of_IsElem b k),
      h,
      k,
      record { whole = refl; found = e; deepest = none_beyond },
    )
    | inr e ↦ elim (snoc-cases ss) [
      | inl empty ↦ absurd (cc (root_exists, e, empty))
      | inr (ss', s, same) ↦
          subst (λ t. Ends (suc f) t b) (sym same)
            (cut f ss' b s (deepest_from_lem f) (subst (All IsElem) same h) k
              (subst (λ t. length t < suc f) same lt) (subst (λ t. NoneBeyond t b) same none_beyond)
              (ap (λ t. d.exists (abs_path t)) (sym same) ∙ e))
    ]
  ]

  length-abs_path : (ss : List GoString) → length ss ≤ length (abs_path ss)
  length-abs_path [] = omega arith
  length-abs_path (s ∷ []) = omega arith
  length-abs_path (s ∷ t ∷ ss) =
      omega (arith, length-append s (slashed (t ∷ ss)), length-abs_path (t ∷ ss))

  -- On a disk on which "/" exists, the search ends for every absolute path of proper names, and
  -- what it returns is the deepest ancestor that exists, with the elements below it joined by
  -- slashes.
  pub deepest_existing_total :
      (ps : List GoString)
      → All IsElem ps
      → (a r : List GoString) × (deepest_existing d (abs_path ps) ≡ some (abs_path a, join_slash r))
        × All IsElem a
        × All IsElem r
        × IsDeepest d ps a r
  unfolding deepest_existing
  deepest_existing_total ps h =
      let (a, r, run, ha, hr, spec) =
        deepest_from_lem (deepest_fuel (abs_path ps)) ps [] h tt (omega (arith, length-abs_path ps))
          nothing_beyond in
      (a, r, run, ha, hr, subst (λ t. IsDeepest d t a r) (append-nil ps) spec)
    where
      nothing_beyond : NoneBeyond ps []
      nothing_beyond [] c' n same = absurd (n refl)
      nothing_beyond (x ∷ c) c' n same = cc

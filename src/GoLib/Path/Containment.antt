-- ===== src/GoLib/Path/Containment.antt =====
-- What a test for a textual prefix says of absolute paths.
use mathlib.Core.List.{reverse, reverse-reverse}
use nimbus_fs.Prelude.{
  append-nil, str_eq, ℕ, Bool, true, false, ◌≡◌, ◌≢◌, refl, sym, ap, ◌∙◌, List, [], ◌∷◌, ◌++◌,
  append_assoc, arith, GoString, str_eq, str_eq_iff, has_prefix, has_prefix_iff, ◌==◌, ==_iff, ◌⊎◌,
  All, Bool-cases, inl, inr,
}
use nimbus_fs.GoLib.Path.{
  join, slash, dotdot, split_slash, join_slash, go_up, resolve_elem, resolve_elems, is_rooted,
  or_dot, clean,
}
use nimbus_fs.GoLib.Path.Elems.{NoSlash, IsElem, split_slash-NoSlash, All-reverse}
use nimbus_fs.GoLib.Path.Absolute.{
  resolve_elems-join_slash, slashed, abs_path, slashed-append, elems_after, elems_after-IsElem,
  clean-rooted, All-NoSlash, split_slash-slashed, split_slash-slashed_append,
}

-- Not empty, with no slash: "." and ".." are allowed.
abbrev IsName : GoString → Type 0
IsName s = (s ≢ []) × NoSlash s

go_up-IsName : (b : Bool) (st : List GoString) → All IsName st → All IsName (go_up b st)
go_up-IsName true [] h = tt
go_up-IsName false [] h = ground arith
go_up-IsName b (t ∷ st) (p, h) = ground (arith, str_eq_iff t dotdot)

resolve_elems-IsName :
    (b : Bool) (st es : List GoString)
    → All IsName st
    → All NoSlash es
    → All IsName (resolve_elems b st es)
unfolding resolve_elems
resolve_elems-IsName b st [] h k = h
resolve_elems-IsName b st (e ∷ es) h (p, k) =
    resolve_elems-IsName b (resolve_elem b st e) es
      (ground (arith, str_eq_iff e [], go_up-IsName b st h)) k

not_rooted-join_slash :
    (s : GoString) (ss : List GoString) → IsName s → is_rooted (join_slash (s ∷ ss)) ≡ false
unfolding join_slash
not_rooted-join_slash [] ss (n, h) = absurd (n refl)
not_rooted-join_slash (c ∷ s) [] (n, (p, h)) = ground arith
not_rooted-join_slash (c ∷ s) (t ∷ ss) (n, (p, h)) = ground arith

not_rooted_or_dot : (ss : List GoString) → All IsName ss → is_rooted (or_dot ss) ≡ false
not_rooted_or_dot [] h = refl
not_rooted_or_dot (s ∷ ss) (p, h) = not_rooted-join_slash s ss p

clean_of_not_rooted :
    (p : GoString)
    → is_rooted p ≡ false
    → clean p ≡ or_dot (reverse (resolve_elems false [] (split_slash p)))
unfolding clean
clean_of_not_rooted p e = rw e

-- A cleaned path that is rooted is an absolute path of proper names.
pub clean_cases :
    (q : GoString)
    → (is_rooted (clean q) ≡ false)
      ⊎ ((ps : List GoString) × All IsElem ps × (clean q ≡ abs_path ps))
clean_cases [] = inl (unfold clean str_eq in refl)
clean_cases (c ∷ q) = elim (Bool-cases (c == slash)) [
  | inl e ↦ inr (rooted ((==_iff c slash).0 e))
  | inr e ↦ inl (not_rooted e)
]
  where
    rooted : c ≡ slash → (ps : List GoString) × All IsElem ps × (clean (c ∷ q) ≡ abs_path ps)
    rooted e =
        (elems_after [] q, elems_after-IsElem [] q tt, ap (λ t. clean (t ∷ q)) e ∙ clean-rooted q)

    not_rooted : (c == slash) ≡ false → is_rooted (clean (c ∷ q)) ≡ false
    not_rooted e =
        ap is_rooted (clean_of_not_rooted (c ∷ q) e)
        ∙ not_rooted_or_dot _ (
            All-reverse IsName _ (resolve_elems-IsName false [] _ tt (split_slash-NoSlash (c ∷ q))))

append_cons-ne-nil : (x : GoString) (c : ℕ) (u : GoString) → x ++ (c ∷ u) ≢ []
append_cons-ne-nil [] c u e = cc
append_cons-ne-nil (d ∷ x) c u e = cc

below_parts :
    (r : GoString) (rs qs : List GoString) (u : GoString)
    → All IsElem (r ∷ rs)
    → All IsElem qs
    → abs_path qs ≡ slashed (r ∷ rs) ++ (slash ∷ u)
    → qs ≡ (r ∷ rs) ++ split_slash u
below_parts r rs [] u h k same = absurd (append_cons-ne-nil (r ++ slashed rs) slash u (cc same))
below_parts r rs (q ∷ qs) u h k same = cc (
  split_slash-slashed (q ∷ qs) (All-NoSlash (q ∷ qs) k),
  split_slash-slashed_append (r ∷ rs) u (All-NoSlash (r ∷ rs) h),
)

-- A path that begins with the text of another one and a slash is below it.
pub below_of_prefix :
    (rs ps : List GoString)
    → All IsElem rs
    → All IsElem ps
    → rs ≢ []
    → has_prefix (abs_path ps) (abs_path rs ++ slash ∷ []) ≡ true
    → (t : List GoString) × (ps ≡ rs ++ t)
below_of_prefix [] ps h k n e = absurd (n refl)
below_of_prefix (r ∷ rs) ps h k n e =
    let (u, same) = (has_prefix_iff (abs_path ps) (abs_path (r ∷ rs) ++ slash ∷ [])).0 e in
    (
      split_slash u,
      below_parts r rs ps u h k (same ∙ append_assoc (slashed (r ∷ rs)) (slash ∷ []) u),
    )

-- And the other way round.
pub prefix_of_below :
    (rs t : List GoString)
    → rs ≢ []
    → t ≢ []
    → has_prefix (abs_path (rs ++ t)) (abs_path rs ++ slash ∷ []) ≡ true
prefix_of_below [] t n m = absurd (n refl)
prefix_of_below (r ∷ rs) [] n m = absurd (m refl)
prefix_of_below (r ∷ rs) (t ∷ ts) n m = (has_prefix_iff _ _).1 (
  t ++ slashed ts,
  slashed-append (r ∷ rs) (t ∷ ts) ∙ sym (append_assoc (slashed (r ∷ rs)) (slash ∷ []) _),
)

-- Join gives the empty text or a cleaned path.
pub join_cases : (xs : List GoString) → (join xs ≡ []) ⊎ ((q : GoString) × (join xs ≡ clean q))
unfolding join
join_cases [] = inl refl
join_cases (e ∷ es) = elim (Bool-cases (str_eq e [])) [
  | inl h ↦ rw h (join_cases es)
  | inr h ↦ inr (join_slash (e ∷ es), rw h)
]

-- Proper names are joined by slashes as they are.
pub join_of_IsElem : (es : List GoString) → All IsElem es → join es ≡ join_slash es
unfolding join
join_of_IsElem [] h = unfold join_slash in refl
join_of_IsElem (e ∷ es) ((n, d, dd, k), h) = rw (ne_nil e n) (
    clean_of_not_rooted _ (not_rooted-join_slash e es (n, k))
    ∙ ap (λ t. or_dot (reverse t))
        (resolve_elems-join_slash false [] (e ∷ es) ((n, d, dd, k), h) ∙ append-nil _)
    ∙ ap or_dot (reverse-reverse (e ∷ es)))
  where
    ne_nil : (x : GoString) → x ≢ [] → str_eq x [] ≡ false
    ne_nil x m = ground (arith, str_eq_iff x [])

-- ===== src/GoLib/Path/Elems.antt =====
-- The elements of a path: what Split and Clean make of them.
use mathlib.Core.List.{reverse, reverse-cons}
use nimbus_fs.Prelude.{
  Bool, true, ◌==◌, Bool-cases, ◌≡◌, ◌≢◌, refl, inl, inr, List, [], ◌∷◌, ◌++◌, append_assoc, arith,
  GoString, str_eq_iff, str_eq_refl, All, All-append,
}
use nimbus_fs.GoLib.Path.{
  slash, dot, dotdot, push_first, split_slash, go_up, resolve_elem, resolve_elems,
}

-- No byte of the text is a slash.
abbrev pub NoSlash : GoString → Type 0
NoSlash = All (λ c. c ≢ slash)

-- A proper name: not empty, neither "." nor "..", with no slash.
abbrev pub IsElem : GoString → Type 0
IsElem s = (s ≢ []) × (s ≢ dot) × (s ≢ dotdot) × NoSlash s

pub split_slash-append :
    (s r : GoString) → NoSlash s → split_slash (s ++ (slash ∷ r)) ≡ s ∷ split_slash r
unfolding split_slash
split_slash-append [] r h = refl
split_slash-append (c ∷ s) r (p, h) = ground (arith, split_slash-append s r h)

pub split_slash_of_NoSlash : (s : GoString) → NoSlash s → split_slash s ≡ s ∷ []
unfolding split_slash
split_slash_of_NoSlash [] h = refl
split_slash_of_NoSlash (c ∷ s) (p, h) = ground (arith, split_slash_of_NoSlash s h)

push_first-All :
    (c : _) (ss : List GoString) → c ≢ slash → All NoSlash ss → All NoSlash (push_first c ss)
push_first-All c [] p h = ((p, tt), tt)
push_first-All c (s ∷ ss) p (q, h) = ((p, q), h)

pub split_slash-NoSlash : (s : GoString) → All NoSlash (split_slash s)
unfolding split_slash
split_slash-NoSlash [] = (tt, tt)
split_slash-NoSlash (c ∷ s) = elim (Bool-cases (c == slash)) [
  | inl e ↦ rw e (tt, split_slash-NoSlash s)
  | inr e ↦ rw e (push_first-All c _ (ground arith) (split_slash-NoSlash s))
]

pub resolve_elem_of_IsElem :
    (b : Bool) (st : List GoString) (e : GoString) → IsElem e → resolve_elem b st e ≡ e ∷ st
unfolding resolve_elem
resolve_elem_of_IsElem b st e h =
    ground (arith, str_eq_iff e [], str_eq_iff e dot, str_eq_iff e dotdot)

pub resolve_elem_empty : (b : Bool) (st : List GoString) → resolve_elem b st [] ≡ st
unfolding resolve_elem
resolve_elem_empty b st = rw (str_eq_refl [])

go_up-IsElem : (st : List GoString) → All IsElem st → All IsElem (go_up true st)
go_up-IsElem [] h = tt
go_up-IsElem (t ∷ st) ((p, q, r, s), h) = ground (arith, str_eq_iff t dotdot)

resolve_elem-IsElem :
    (st : List GoString) (e : GoString)
    → All IsElem st
    → NoSlash e
    → All IsElem (resolve_elem true st e)
unfolding resolve_elem
resolve_elem-IsElem st e h k =
    ground (arith, str_eq_iff e [], str_eq_iff e dot, str_eq_iff e dotdot, go_up-IsElem st h)

pub resolve_elems-IsElem :
    (st es : List GoString) → All IsElem st → All NoSlash es → All IsElem (resolve_elems true st es)
unfolding resolve_elems
resolve_elems-IsElem st [] h k = h
resolve_elems-IsElem st (e ∷ es) h (p, k) =
    resolve_elems-IsElem (resolve_elem true st e) es (resolve_elem-IsElem st e h p) k

pub resolve_elems-append :
    (b : Bool) (st xs ys : List GoString)
    → resolve_elems b st (xs ++ ys) ≡ resolve_elems b (resolve_elems b st xs) ys
unfolding resolve_elems
resolve_elems-append b st [] ys = refl
resolve_elems-append b st (x ∷ xs) ys = resolve_elems-append b (resolve_elem b st x) xs ys

-- Proper names are pushed in turn.
pub resolve_elems_of_IsElem :
    (b : Bool) (st es : List GoString) → All IsElem es → resolve_elems b st es ≡ reverse es ++ st
unfolding resolve_elems
resolve_elems_of_IsElem b st [] h = refl
resolve_elems_of_IsElem b st (e ∷ es) (p, h) =
    rw (resolve_elem_of_IsElem b st e p)
      (rw (resolve_elems_of_IsElem b (e ∷ st) es h) (simp (reverse-cons, append_assoc)))

pub All-reverse : (P : GoString → Type 0) (xs : List GoString) → All P xs → All P (reverse xs)
All-reverse P [] h = tt
All-reverse P (x ∷ xs) (p, h) =
    rw reverse-cons (All-append P (reverse xs) (x ∷ []) (All-reverse P xs h) (p, tt))

-- ===== src/GoLib/Path/Rel.antt =====
-- filepath.Rel, for a rooted base: the path from one directory to another.
use nimbus_fs.Prelude.{
  true, ◌&&◌, if◌then◌else◌, ◌≡◌, refl, ap, ◌∙◌, append-nil, List, [], ◌∷◌, ◌++◌, Option, none,
  some, GoString, str_eq, str_eq_refl, All,
}
use mathlib.Core.List.{reverse, reverse-reverse}
use nimbus_fs.GoLib.Path.{dot, dotdot, split_slash, join_slash, resolve_elems, is_rooted}
use nimbus_fs.GoLib.Path.Elems.{IsElem}
use nimbus_fs.GoLib.Path.Absolute.{abs_path, resolve_elems-abs_path}

-- What is left of the target, or the number of levels to go up first.
abbrev pub climb : List GoString → List GoString → List GoString
climb [] ts = ts
climb (b ∷ bs) ts = dotdot ∷ climb bs ts

unfoldable pub rel_elems : List GoString → List GoString → List GoString
rel_elems [] ts = ts
rel_elems (b ∷ bs) [] = climb (b ∷ bs) []
rel_elems (b ∷ bs) (t ∷ ts) = if str_eq b t then rel_elems bs ts else climb (b ∷ bs) (t ∷ ts)

-- The elements of the cleaned form of a rooted path.
abbrev pub rooted_elems : GoString → List GoString
rooted_elems p = reverse (resolve_elems true [] (split_slash p))

abbrev pub dot_if_nil : List GoString → GoString
dot_if_nil [] = dot
dot_if_nil (s ∷ ss) = join_slash (s ∷ ss)

-- `none` is Go's error: one path is rooted and the other is not.
unfoldable pub rel : GoString → GoString → Option GoString
unfolding rel_elems join_slash
rel base targ =
    if is_rooted base && is_rooted targ
    then some (dot_if_nil (rel_elems (rooted_elems base) (rooted_elems targ)))
    else none

pub rooted_elems-abs_path : (ss : List GoString) → All IsElem ss → rooted_elems (abs_path ss) ≡ ss
rooted_elems-abs_path ss h =
    ap reverse (resolve_elems-abs_path true [] ss h)
    ∙ ap reverse (append-nil (reverse ss))
    ∙ reverse-reverse ss

pub rel_elems-append : (rs ts : List GoString) → rel_elems rs (rs ++ ts) ≡ ts
unfolding rel_elems
rel_elems-append [] ts = refl
rel_elems-append (r ∷ rs) ts = rw (str_eq_refl r) (rel_elems-append rs ts)

is_rooted-abs_path : (ss : List GoString) → is_rooted (abs_path ss) ≡ true
is_rooted-abs_path [] = refl
is_rooted-abs_path (s ∷ ss) = refl

-- The way from an absolute path to one below it.
pub rel-abs_path :
    (rs ts : List GoString)
    → All IsElem rs
    → All IsElem (rs ++ ts)
    → rel (abs_path rs) (abs_path (rs ++ ts)) ≡ some (dot_if_nil ts)
unfolding rel
rel-abs_path rs ts h k = rw (is_rooted-abs_path rs) (
    rw (is_rooted-abs_path (rs ++ ts)) (
      rw (rooted_elems-abs_path rs h)
        (rw (rooted_elems-abs_path (rs ++ ts) k) (rw (rel_elems-append rs ts) refl))))

-- ===== src/GoLib/Path.antt =====
-- path and path/filepath on Unix: Clean, Join, Dir, Base and Ext. These are lexical; the two packages
-- agree on slash-separated paths.
pub mod Elems
pub mod Absolute
pub mod Parent
pub mod Containment
pub mod Rel
use mathlib.Core.List.{reverse}
use nimbus_fs.Prelude.{
  ℕ, ◌==◌, Bool, true, false, not, ◌&&◌, ◌||◌, ◌≡◌, refl, if◌then◌else◌, List, [], ◌∷◌, ◌++◌,
  GoString, codes, str_eq,
}

abbrev pub slash : ℕ
slash = b'/'

abbrev pub dot : GoString
dot = codes "."

abbrev pub dotdot : GoString
dotdot = codes ".."

abbrev pub push_first : ℕ → List GoString → List GoString
push_first c [] = (c ∷ []) ∷ []
push_first c (s ∷ ss) = (c ∷ s) ∷ ss

-- strings.Split(s, "/")
unfoldable pub split_slash : GoString → List GoString
split_slash [] = [] ∷ []
split_slash (c ∷ s) = if c == slash then [] ∷ split_slash s else push_first c (split_slash s)

-- strings.Join(elems, "/")
unfoldable pub join_slash : List GoString → GoString
join_slash [] = []
join_slash (s ∷ []) = s
join_slash (s ∷ t ∷ r) = s ++ (slash ∷ join_slash (t ∷ r))

-- ".." after the elements of a stack, which has its top at the head.
abbrev pub go_up : Bool → List GoString → List GoString
go_up rooted [] = if rooted then [] else dotdot ∷ []
go_up rooted (t ∷ st) = if str_eq t dotdot then dotdot ∷ t ∷ st else st

unfoldable pub resolve_elem : Bool → List GoString → GoString → List GoString
resolve_elem rooted st e =
    if str_eq e [] || str_eq e dot then st else if str_eq e dotdot then go_up rooted st else e ∷ st

unfoldable pub resolve_elems : Bool → List GoString → List GoString → List GoString
unfolding resolve_elem
resolve_elems rooted st [] = st
resolve_elems rooted st (e ∷ es) = resolve_elems rooted (resolve_elem rooted st e) es

abbrev pub is_rooted : GoString → Bool
is_rooted [] = false
is_rooted (c ∷ s) = c == slash

abbrev or_dot : List GoString → GoString
or_dot [] = dot
or_dot (s ∷ ss) = join_slash (s ∷ ss)

-- filepath.Clean
unfoldable pub clean : GoString → GoString
unfolding split_slash join_slash resolve_elems
clean p =
    let es = reverse (resolve_elems (is_rooted p) [] (split_slash p)) in
    if is_rooted p then slash ∷ join_slash es else or_dot es

-- filepath.Join and path.Join: leading empty elements are dropped, later ones are cleaned away.
unfoldable pub join : List GoString → GoString
join [] = []
join (e ∷ es) = if str_eq e [] then join es else clean (join_slash (e ∷ es))

abbrev pub keep_dir : ℕ → GoString → GoString
keep_dir c [] = if c == slash then c ∷ [] else []
keep_dir c (d ∷ ds) = c ∷ d ∷ ds

-- The text up to and with its last slash.
unfoldable pub dir_prefix : GoString → GoString
dir_prefix [] = []
dir_prefix (c ∷ s) = keep_dir c (dir_prefix s)

-- filepath.Dir
unfoldable pub dir : GoString → GoString
unfolding dir_prefix
dir p = clean (dir_prefix p)

abbrev pub strip_cons : ℕ → GoString → GoString
strip_cons c [] = if c == slash then [] else c ∷ []
strip_cons c (d ∷ ds) = c ∷ d ∷ ds

-- The text with no slash at its end.
unfoldable pub strip_slashes : GoString → GoString
strip_slashes [] = []
strip_slashes (c ∷ s) = strip_cons c (strip_slashes s)

abbrev pub last_or : GoString → List GoString → GoString
last_or d [] = d
last_or d (s ∷ ss) = last_or s ss

-- filepath.Base
unfoldable pub base : GoString → GoString
unfolding strip_slashes split_slash
base [] = dot
base (c ∷ s) =
    let e = last_or [] (split_slash (strip_slashes (c ∷ s))) in
    if str_eq e [] then slash ∷ [] else e

abbrev has_slash : GoString → Bool
has_slash [] = false
has_slash (c ∷ s) = c == slash || has_slash s

abbrev last_dot : ℕ → GoString → GoString → GoString
last_dot c s [] = if c == b'.' && not (has_slash s) then c ∷ s else []
last_dot c s (d ∷ ds) = d ∷ ds

-- filepath.Ext: from the last dot of the last element on.
unfoldable pub ext : GoString → GoString
ext [] = []
ext (c ∷ s) = last_dot c s (ext s)

ext_of_path : ext (codes "a.b/x.tar.gz") ≡ codes ".gz"
unfolding ext
ext_of_path = refl

ext_none : ext (codes "a.b/x") ≡ []
unfolding ext
ext_none = refl

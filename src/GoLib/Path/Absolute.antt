-- ===== src/GoLib/Path/Absolute.antt =====
-- Absolute paths as lists of elements: Clean and Join in these terms.
use mathlib.Core.List.{reverse, reverse-reverse, reverse-append}
use nimbus_fs.Prelude.{
  true, Bool, ◌≡◌, refl, sym, ap, ◌∙◌, List, [], ◌∷◌, ◌++◌, append_assoc, append-nil, arith,
  GoString, str_eq, All,
}
use nimbus_fs.GoLib.Path.{slash, split_slash, join_slash, resolve_elem, resolve_elems, clean, join}
use nimbus_fs.GoLib.Path.Elems.{
  NoSlash, IsElem, split_slash-NoSlash, resolve_elem_empty, resolve_elems-IsElem,
  resolve_elems-append, resolve_elems_of_IsElem, All-reverse,
}

-- A slash before each element.
abbrev pub slashed : List GoString → GoString
slashed [] = []
slashed (s ∷ r) = slash ∷ (s ++ slashed r)

abbrev pub abs_path : List GoString → GoString
abs_path [] = slash ∷ []
abs_path (s ∷ r) = slashed (s ∷ r)

-- The elements of the cleaned path of "/" + p, after those of a stack.
abbrev pub elems_after : List GoString → GoString → List GoString
elems_after st p = reverse (resolve_elems true st (split_slash p))

pub slashed-append : (xs ys : List GoString) → slashed (xs ++ ys) ≡ slashed xs ++ slashed ys
slashed-append [] ys = refl
slashed-append (x ∷ xs) ys =
    rw (slashed-append xs ys) (ap (λ t. slash ∷ t) (sym (append_assoc x _ _)))

slashed_join : (s : GoString) (r : List GoString) → slash ∷ join_slash (s ∷ r) ≡ slashed (s ∷ r)
unfolding join_slash
slashed_join s [] = rw append-nil
slashed_join s (t ∷ r) = rw (slashed_join t r)

pub abs_path_join : (es : List GoString) → slash ∷ join_slash es ≡ abs_path es
unfolding join_slash
abs_path_join [] = refl
abs_path_join (s ∷ r) = slashed_join s r

-- Clean of a rooted path is the absolute path of its elements.
pub clean-rooted : (p : GoString) → clean (slash ∷ p) ≡ abs_path (elems_after [] p)
unfolding clean split_slash resolve_elem str_eq
clean-rooted p = abs_path_join _

pub elems_after-IsElem :
    (st : List GoString) (p : GoString) → All IsElem st → All IsElem (elems_after st p)
elems_after-IsElem st p h =
    All-reverse IsElem _ (resolve_elems-IsElem st (split_slash p) h (split_slash-NoSlash p))

pub All-NoSlash : (ss : List GoString) → All IsElem ss → All NoSlash ss
All-NoSlash [] h = tt
All-NoSlash (s ∷ ss) ((_, _, _, p), h) = (p, All-NoSlash ss h)

-- A text with no slash before a text that is empty or begins with one.
split_slash_first :
    (s y : GoString) (ys : List GoString)
    → NoSlash s
    → split_slash y ≡ [] ∷ ys
    → split_slash (s ++ y) ≡ s ∷ ys
unfolding split_slash
split_slash_first [] y ys h e = e
split_slash_first (c ∷ s) y ys (p, h) e = ground (arith, split_slash_first s y ys h e)

pub split_slash-slashed : (ss : List GoString) → All NoSlash ss → split_slash (slashed ss) ≡ [] ∷ ss
unfolding split_slash
split_slash-slashed [] h = refl
split_slash-slashed (s ∷ ss) (p, h) =
    ap (λ t. [] ∷ t) (split_slash_first s (slashed ss) ss p (split_slash-slashed ss h))

pub split_slash-slashed_append :
    (ss : List GoString) (x : GoString)
    → All NoSlash ss
    → split_slash (slashed ss ++ (slash ∷ x)) ≡ [] ∷ (ss ++ split_slash x)
unfolding split_slash
split_slash-slashed_append [] x h = refl
split_slash-slashed_append (s ∷ ss) x (p, h) =
    ap (λ t. [] ∷ t)
      (ap split_slash (append_assoc s (slashed ss) (slash ∷ x))
        ∙ split_slash_first s _ (ss ++ split_slash x) p (split_slash-slashed_append ss x h))

-- Resolving an absolute path pushes its elements.
pub resolve_elems-abs_path :
    (b : Bool) (st qs : List GoString)
    → All IsElem qs
    → resolve_elems b st (split_slash (abs_path qs)) ≡ reverse qs ++ st
unfolding resolve_elems split_slash str_eq
resolve_elems-abs_path b st [] h = refl
resolve_elems-abs_path b st (q ∷ qs) h =
    rw (split_slash-slashed (q ∷ qs) (All-NoSlash (q ∷ qs) h))
      (resolve_elems_of_IsElem b st (q ∷ qs) h)

resolve_empty_first :
    (b : Bool) (st es : List GoString) → resolve_elems b st ([] ∷ es) ≡ resolve_elems b st es
unfolding resolve_elems
resolve_empty_first b st es = ap (λ t. resolve_elems b t es) (resolve_elem_empty b st)

-- A slash in front changes nothing.
resolve_slash :
    (b : Bool) (st : List GoString) (y : GoString)
    → resolve_elems b st (split_slash (slash ∷ y)) ≡ resolve_elems b st (split_slash y)
unfolding split_slash
resolve_slash b st y = resolve_empty_first b st (split_slash y)

-- So does resolving the elements joined by slashes.
pub resolve_elems-join_slash :
    (b : Bool) (st qs : List GoString)
    → All IsElem qs
    → resolve_elems b st (split_slash (join_slash qs)) ≡ reverse qs ++ st
resolve_elems-join_slash b st qs h =
    sym (resolve_slash b st (join_slash qs))
    ∙ ap (λ p. resolve_elems b st (split_slash p)) (abs_path_join qs)
    ∙ resolve_elems-abs_path b st qs h

join_as_clean :
    (rs : List GoString) (x : GoString)
    → join (abs_path rs ∷ x ∷ []) ≡ clean (abs_path rs ++ (slash ∷ x))
unfolding join join_slash str_eq
join_as_clean [] x = refl
join_as_clean (r ∷ rs) x = refl

pub clean-abs_path_append :
    (rs : List GoString) (x : GoString)
    → All IsElem rs
    → clean (abs_path rs ++ (slash ∷ x)) ≡ abs_path (elems_after (reverse rs) x)
clean-abs_path_append [] x h =
    clean-rooted (slash ∷ x) ∙ ap (λ t. abs_path (reverse t)) (resolve_slash true [] x)
clean-abs_path_append (r ∷ rs) x h =
    clean-rooted _
    ∙ ap (λ t. abs_path (reverse t))
        (sym (resolve_slash true [] _)
          ∙ ap (resolve_elems true [])
              (split_slash-slashed_append (r ∷ rs) x (All-NoSlash (r ∷ rs) h))
          ∙ resolve_empty_first true [] _
          ∙ resolve_elems-append true [] (r ∷ rs) (split_slash x)
          ∙ ap (λ t. resolve_elems true t (split_slash x))
              (resolve_elems_of_IsElem true [] (r ∷ rs) h ∙ append-nil _))

-- Joining any text to an absolute path resolves its elements after those of the path.
pub join-abs_path :
    (rs : List GoString) (x : GoString)
    → All IsElem rs
    → join (abs_path rs ∷ x ∷ []) ≡ abs_path (elems_after (reverse rs) x)
join-abs_path rs x h = join_as_clean rs x ∙ clean-abs_path_append rs x h

elems_onto : (rs qs : List GoString) → reverse (reverse qs ++ reverse rs) ≡ rs ++ qs
elems_onto rs qs = reverse-append (reverse qs) (reverse rs) ∙ simp reverse-reverse

-- Joining an absolute path to another puts its elements behind.
pub join-abs_path-abs_path :
    (rs qs : List GoString)
    → All IsElem rs
    → All IsElem qs
    → join (abs_path rs ∷ abs_path qs ∷ []) ≡ abs_path (rs ++ qs)
join-abs_path-abs_path rs qs h k =
    join-abs_path rs (abs_path qs) h
    ∙ ap abs_path (ap reverse (resolve_elems-abs_path true (reverse rs) qs k) ∙ elems_onto rs qs)

pub join-abs_path-join_slash :
    (rs qs : List GoString)
    → All IsElem rs
    → All IsElem qs
    → join (abs_path rs ∷ join_slash qs ∷ []) ≡ abs_path (rs ++ qs)
join-abs_path-join_slash rs qs h k =
    join-abs_path rs (join_slash qs) h
    ∙ ap abs_path (ap reverse (resolve_elems-join_slash true (reverse rs) qs k) ∙ elems_onto rs qs)

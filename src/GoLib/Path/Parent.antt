-- ===== src/GoLib/Path/Parent.antt =====
-- Dir and Base of an absolute path.
use mathlib.Core.List.{reverse-reverse}
use nimbus_fs.Prelude.{
  ◌≡◌, ◌≢◌, refl, sym, ap, ◌∙◌, List, [], ◌∷◌, ◌++◌, append_assoc, append-nil, arith, GoString,
  str_eq, str_eq_iff, if◌then◌else◌, All,
}
use nimbus_fs.GoLib.Path.{
  slash, split_slash, resolve_elems, clean, dir_prefix, dir, strip_slashes, last_or, base,
}
use nimbus_fs.GoLib.Path.Elems.{NoSlash, IsElem}
use nimbus_fs.GoLib.Path.Absolute.{
  slashed, abs_path, slashed-append, clean-abs_path_append, All-NoSlash, split_slash-slashed,
}

-- The last element stands behind a slash.
abs_path_snoc :
    (ss : List GoString) (s : GoString) → abs_path (ss ++ s ∷ []) ≡ slashed ss ++ (slash ∷ s)
abs_path_snoc [] s = rw append-nil
abs_path_snoc (x ∷ ss) s =
    slashed-append (x ∷ ss) (s ∷ []) ∙ ap (λ t. slashed (x ∷ ss) ++ (slash ∷ t)) (append-nil s)

dir_prefix_of_NoSlash : (s : GoString) → NoSlash s → dir_prefix s ≡ []
unfolding dir_prefix
dir_prefix_of_NoSlash [] h = refl
dir_prefix_of_NoSlash (c ∷ s) (p, h) = rw (dir_prefix_of_NoSlash s h) (ground arith)

dir_prefix-append : (x s : GoString) → NoSlash s → dir_prefix (x ++ (slash ∷ s)) ≡ x ++ (slash ∷ [])
unfolding dir_prefix
dir_prefix-append [] s h = rw (dir_prefix_of_NoSlash s h)
dir_prefix-append (c ∷ []) s h = rw (dir_prefix-append [] s h)
dir_prefix-append (c ∷ d ∷ x) s h = rw (dir_prefix-append (d ∷ x) s h)

clean-slashed :
    (ss : List GoString) → All IsElem ss → clean (slashed ss ++ (slash ∷ [])) ≡ abs_path ss
unfolding clean split_slash resolve_elems str_eq
clean-slashed [] h = refl
clean-slashed (s ∷ ss) h =
    clean-abs_path_append (s ∷ ss) [] h ∙ ap abs_path (reverse-reverse (s ∷ ss))

-- Dir drops the last element.
pub dir-abs_path :
    (ss : List GoString) (s : GoString)
    → All IsElem (ss ++ s ∷ [])
    → All IsElem ss
    → NoSlash s
    → dir (abs_path (ss ++ s ∷ [])) ≡ abs_path ss
unfolding dir
dir-abs_path ss s _ h k =
    ap (λ t. clean (dir_prefix t)) (abs_path_snoc ss s)
    ∙ ap clean (dir_prefix-append (slashed ss) s k)
    ∙ clean-slashed ss h

-- "/" is its own parent.
pub dir-root : dir (abs_path []) ≡ abs_path []
unfolding dir clean str_eq
dir-root = refl

strip_slashes_of_NoSlash : (s : GoString) → NoSlash s → strip_slashes s ≡ s
unfolding strip_slashes
strip_slashes_of_NoSlash [] h = refl
strip_slashes_of_NoSlash (c ∷ []) (p, h) = ground arith
strip_slashes_of_NoSlash (c ∷ d ∷ s) (p, h) = rw (strip_slashes_of_NoSlash (d ∷ s) h)

strip_slashes-append : (x s : GoString) → s ≢ [] → NoSlash s → strip_slashes (x ++ s) ≡ x ++ s
unfolding strip_slashes
strip_slashes-append [] s n h = strip_slashes_of_NoSlash s h
strip_slashes-append (c ∷ []) [] n h = absurd (n refl)
strip_slashes-append (c ∷ []) (d ∷ s) n h = rw (strip_slashes_of_NoSlash (d ∷ s) h)
strip_slashes-append (c ∷ d ∷ x) s n h = rw (strip_slashes-append (d ∷ x) s n h)

last_or_snoc : (d : GoString) (ss : List GoString) (s : GoString) → last_or d (ss ++ s ∷ []) ≡ s
last_or_snoc d [] s = refl
last_or_snoc d (x ∷ ss) s = last_or_snoc x ss s

base_of_ne_nil :
    (p : GoString)
    → p ≢ []
    → base p ≡ (
        let e = last_or [] (split_slash (strip_slashes p)) in if str_eq e [] then slash ∷ [] else e)
unfolding base
base_of_ne_nil [] n = absurd (n refl)
base_of_ne_nil (c ∷ s) n = refl

last_part :
    (ss : List GoString) (s : GoString)
    → All IsElem (ss ++ s ∷ [])
    → IsElem s
    → last_or [] (split_slash (strip_slashes (abs_path (ss ++ s ∷ [])))) ≡ s
last_part ss s h (n, _, _, k) =
    ap (λ t. last_or [] (split_slash t)) whole
    ∙ ap (last_or []) (split_slash-slashed (ss ++ s ∷ []) (All-NoSlash (ss ++ s ∷ []) h))
    ∙ last_or_snoc [] ss s
  where
    regroup : slashed ss ++ (slash ∷ s) ≡ (slashed ss ++ slash ∷ []) ++ s
    regroup = sym (append_assoc (slashed ss) (slash ∷ []) s)

    whole : strip_slashes (abs_path (ss ++ s ∷ [])) ≡ slashed (ss ++ s ∷ [])
    whole =
        ap strip_slashes (abs_path_snoc ss s ∙ regroup)
        ∙ strip_slashes-append (slashed ss ++ slash ∷ []) s n k
        ∙ sym regroup
        ∙ sym (slashed-append ss (s ∷ []) ∙ ap (λ t. slashed ss ++ (slash ∷ t)) (append-nil s))

abs_path-ne-nil : (ss : List GoString) → abs_path ss ≢ []
abs_path-ne-nil [] e = cc
abs_path-ne-nil (s ∷ ss) e = cc

-- Base is the last element.
pub base-abs_path :
    (ss : List GoString) (s : GoString)
    → All IsElem (ss ++ s ∷ [])
    → IsElem s
    → base (abs_path (ss ++ s ∷ [])) ≡ s
base-abs_path ss s h p =
    base_of_ne_nil _ (abs_path-ne-nil (ss ++ s ∷ []))
    ∙ ap (λ e. if str_eq e [] then slash ∷ [] else e) (last_part ss s h p)
    ∙ ground (arith, p.0, str_eq_iff s [])

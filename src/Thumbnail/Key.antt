-- ===== src/Thumbnail/Key.antt =====
-- internal/thumbnail/thumbnail.go: the key of the cache.
use nimbus_fs.Prelude.{
  ℕ, suc, ◌≡◌, refl, sym, ap, ◌∙◌, [], ◌∷◌, ◌++◌, append_assoc, GoString, ℤ, pos, negsuc, All,
  All-right, arith,
}
use nimbus_fs.GoLib.Decimal.{
  IsDigit, format, format_int, format-IsDigit, format_inj, format-is_full,
}
use nimbus_fs.Thumbnail.Generator.{cache_key}

-- Two texts that end in digits after a dash are split at the same place.
split_dash :
    (a b x y : GoString)
    → All IsDigit x
    → All IsDigit y
    → a ++ b'-' ∷ x ≡ b ++ b'-' ∷ y
    → (a ≡ b) × (x ≡ y)
split_dash [] [] x y dx dy e = (refl, cc)
split_dash [] (d ∷ b) x y dx dy e =
    let dash : x ≡ b ++ b'-' ∷ y = cc in
    let ((lo, hi), rest) = All-right IsDigit b (b'-' ∷ y) (rw⁻¹ dash dx) in
    absurd (omega (arith, lo))
split_dash (c ∷ a) [] x y dx dy e =
    let dash : y ≡ a ++ b'-' ∷ x = cc in
    let ((lo, hi), rest) = All-right IsDigit a (b'-' ∷ x) (rw⁻¹ dash dy) in
    absurd (omega (arith, lo))
split_dash (c ∷ a) (d ∷ b) x y dx dy e = let (p, q) = split_dash a b x y dx dy cc in (cc, q)

-- A size and a path before a modification time of either sign.
split_size :
    (p q : GoString) (n m : ℕ) → p ++ b'-' ∷ format n ≡ q ++ b'-' ∷ format m → (p ≡ q) × (n ≡ m)
split_size p q n m e =
    let (same, digits) = split_dash p q _ _ (format-IsDigit n) (format-IsDigit m) e in
    (same, format_inj n m digits)

snoc : (p : GoString) (x : GoString) → p ++ b'-' ∷ b'-' ∷ x ≡ (p ++ b'-' ∷ []) ++ b'-' ∷ x
snoc p x = sym (append_assoc p (b'-' ∷ []) (b'-' ∷ x))

-- A modification time before 1970 and one after it: the dash of the sign cannot be the one that ends
-- the size.
signs_differ :
    (p q : GoString) (n k m : ℕ)
    → (p ++ b'-' ∷ format n) ++ b'-' ∷ format k ≡ q ++ b'-' ∷ b'-' ∷ format (suc m)
    → ⊥
signs_differ p q n k m e =
    let (same, _) =
      split_dash (p ++ b'-' ∷ format n) (q ++ b'-' ∷ []) _ _ (format-IsDigit k)
        (format-IsDigit (suc m)) (e ∙ snoc q (format (suc m))) in
    format-is_full n ((split_dash p q (format n) [] (format-IsDigit n) tt same).1)

split_time :
    (p q : GoString) (n n' : ℕ) (k k' : ℤ)
    → (p ++ b'-' ∷ format n) ++ b'-' ∷ format_int k
      ≡ (q ++ b'-' ∷ format n') ++ b'-' ∷ format_int k'
    → (p ≡ q) × (n ≡ n') × (k ≡ k')
unfolding format_int
split_time p q n n' (pos k) (pos k') e =
    let (same, times) = split_size (p ++ b'-' ∷ format n) (q ++ b'-' ∷ format n') k k' e in
    let (p', n'') = split_size p q n n' same in (p', n'', ap pos times)
split_time p q n n' (pos k) (negsuc m) e = absurd (signs_differ p (q ++ b'-' ∷ format n') n k m e)
split_time p q n n' (negsuc m) (pos k') e =
    absurd (signs_differ q (p ++ b'-' ∷ format n) n' k' m (sym e))
split_time p q n n' (negsuc m) (negsuc m') e =
    let (same, times) =
      split_size ((p ++ b'-' ∷ format n) ++ b'-' ∷ []) ((q ++ b'-' ∷ format n') ++ b'-' ∷ [])
        (suc m) (suc m') (sym (snoc _ _) ∙ e ∙ snoc _ _) in
    let (before, _) = split_dash (p ++ b'-' ∷ format n) (q ++ b'-' ∷ format n') [] [] tt tt same in
    let (p', n'') = split_size p q n n' before in (p', n'', ap negsuc (omega (arith, times)))

-- Keys of the cache that are alike are of the same path, thumbnail size, modification time and file
-- size, also where the path itself holds dashes and digits or the time is before 1970.
pub cache_key_inj :
    (p q : GoString) (size size' : ℕ) (mod_unix mod_unix' : ℤ) (file_size file_size' : ℕ)
    → cache_key p size mod_unix file_size ≡ cache_key q size' mod_unix' file_size'
    → (p ≡ q) × (size ≡ size') × (mod_unix ≡ mod_unix') × (file_size ≡ file_size')
unfolding cache_key
cache_key_inj p q size size' mod_unix mod_unix' file_size file_size' e =
    let (before, files) =
      split_size ((p ++ b'-' ∷ format size) ++ b'-' ∷ format_int mod_unix)
        ((q ++ b'-' ∷ format size') ++ b'-' ∷ format_int mod_unix') file_size file_size' e in
    let (p', size'', time) = split_time p q size size' mod_unix mod_unix' before in
    (p', size'', time, files)

-- ===== src/GoLib/FileMode.antt =====
-- os.FileMode: a number of 32 bits, of which the low nine are the permissions.
use nimbus_fs.Prelude.{
  ℕ, suc, ◌+◌, ◌-◌, ◌/◌, ◌%◌, ◌^◌, ◌==◌, Bool, if◌then◌else◌, [], ◌∷◌, ◌++◌, GoString, codes, ◌≡◌,
  refl,
}

-- m & (1 << k) != 0
abbrev pub bit : ℕ → ℕ → Bool
bit m k = m / 2 ^ k % 2 == 1

-- FileMode.Perm
abbrev pub perm : ℕ → ℕ
perm m = m % 512

-- The letters of the type bits that are set: letter `k` of the text stands for bit 31 - k.
type_letters : ℕ → ℕ → GoString → GoString
type_letters m k [] = []
type_letters m k (c ∷ cs) =
    let rest = type_letters m (suc k) cs in if bit m (31 - k) then c ∷ rest else rest

abbrev or_dash : GoString → GoString
or_dash [] = codes "-"
or_dash (c ∷ cs) = c ∷ cs

-- The permission bits from bit 8 down.
perm_letters : ℕ → ℕ → GoString → GoString
perm_letters m k [] = []
perm_letters m k (c ∷ cs) = (if bit m (8 - k) then c else b'-') ∷ perm_letters m (suc k) cs

-- FileMode.String
unfoldable pub mode_string : ℕ → GoString
unfolding type_letters perm_letters
mode_string m =
    or_dash (type_letters m 0 (codes "dalTLDpSugct?")) ++ perm_letters m 0 (codes "rwxrwxrwx")

mode_string_file : mode_string 0o644 ≡ codes "-rw-r--r--"
unfolding mode_string
mode_string_file = refl

mode_string_dir : mode_string (2 ^ 31 + 0o755) ≡ codes "drwxr-xr-x"
unfolding mode_string
mode_string_dir = refl

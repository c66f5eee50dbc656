-- ===== src/GoLib/Strings.antt =====
-- The strings package on ASCII text.
use nimbus_fs.Prelude.{
  ℕ, ◌+◌, ◌-◌, ◌==◌, leb, Bool, true, false, ◌&&◌, ◌||◌, if◌then◌else◌, List, [], ◌∷◌, GoString,
}

abbrev pub is_space : ℕ → Bool
is_space c = c == 32 || (leb 9 c && leb c 13)

-- strings.TrimSpace of an ASCII string.
unfoldable pub trim_left : GoString → GoString
trim_left [] = []
trim_left (c ∷ s) = let rest = trim_left s in if is_space c then rest else c ∷ s

abbrev pub cons_unless_blank : ℕ → GoString → GoString
cons_unless_blank c [] = if is_space c then [] else c ∷ []
cons_unless_blank c (d ∷ s) = c ∷ d ∷ s

unfoldable pub trim_right : GoString → GoString
trim_right [] = []
trim_right (c ∷ s) = cons_unless_blank c (trim_right s)

unfoldable pub trim_space : GoString → GoString
trim_space s = trim_right (trim_left s)

abbrev pub to_lower : ℕ → ℕ
to_lower c = if leb 65 c && leb c 90 then c + 32 else c

unfoldable pub lower : GoString → GoString
lower [] = []
lower (c ∷ s) = to_lower c ∷ lower s

abbrev pub to_upper : ℕ → ℕ
to_upper c = if leb 97 c && leb c 122 then c - 32 else c

unfoldable pub upper : GoString → GoString
upper [] = []
upper (c ∷ s) = to_upper c ∷ upper s

abbrev pub is_member : ℕ → GoString → Bool
is_member c [] = false
is_member c (d ∷ ds) = c == d || is_member c ds

-- strings.ContainsAny
unfoldable pub contains_any : GoString → GoString → Bool
contains_any [] chars = false
contains_any (c ∷ s) chars = is_member c chars || contains_any s chars

abbrev pub is_blank : GoString → Bool
is_blank [] = true
is_blank (c ∷ s) = false

abbrev push_byte : ℕ → List GoString → List GoString
push_byte c [] = (c ∷ []) ∷ []
push_byte c (l ∷ ls) = (c ∷ l) ∷ ls

-- What lies between newlines: a last line is empty where the text ends in a newline.
unfoldable pub raw_lines : GoString → List GoString
raw_lines [] = [] ∷ []
raw_lines (c ∷ s) = let rest = raw_lines s in if c == 10 then [] ∷ rest else push_byte c rest

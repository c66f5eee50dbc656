-- ===== src/Fsops/Owner.antt =====
-- internal/fsops/owner_linux.go: names of users and groups, with a cache. The two caches and the
-- two functions are alike: `db` is user.LookupId or user.LookupGroupId.
use nimbus_fs.Prelude.{
  ℕ, ◌==◌, ==_iff, if◌then◌else◌, ◌≡◌, refl, inl, inr, List, [], ◌∷◌, Option, none, some,
  Option-cases, GoString, arith,
}
use nimbus_fs.GoLib.Decimal.{format}

abbrev pub Cache : Type 0
Cache = List (ℕ × GoString)

unfoldable pub cached : ℕ → Cache → Option GoString
cached id [] = none
cached id ((i, name) ∷ c) = if i == id then some name else cached id c

abbrev pub or_number : Option GoString → ℕ → GoString
or_number none id = format id
or_number (some name) id = name

-- The name that is asked of the system: the number itself, in decimal, if it has none.
abbrev pub fresh_name : (GoString → Option GoString) → ℕ → GoString
fresh_name db id = or_number (db (format id)) id

-- LookupUserName and LookupGroupName: the name, and the cache after the call.
unfoldable pub lookup_name : (GoString → Option GoString) → ℕ → Cache → GoString × Cache
lookup_name db id c = elim (cached id c) [
  | some name ↦ (name, c)
  | none ↦ (fresh_name db id, (id, fresh_name db id) ∷ c)
]

module _ (db : GoString → Option GoString) where
  -- Whatever the cache holds is what the system says.
  abbrev pub IsCurrent : Cache → Type 0
  IsCurrent c = (id : ℕ) (name : GoString) → cached id c ≡ some name → name ≡ fresh_name db id

  -- While the user database stays the same, the cache never shows: a lookup gives the name that the
  -- system gives, and keeps the cache current, so the next lookups do too.
  pub lookup_name_lem :
      (id : ℕ) (c : Cache)
      → IsCurrent c
      → ((lookup_name db id c).0 ≡ fresh_name db id) × IsCurrent (lookup_name db id c).1
  unfolding lookup_name cached
  lookup_name_lem id c h = elim (Option-cases (cached id c)) [
    | inl e ↦ rw (e, lookup_name) (refl, λ i name e'. ground (arith, h i name, ==_iff id i))
    | inr (name, e) ↦ rw (e, lookup_name) (h id name e, h)
  ]

-- ===== src/Prelude/Dict.antt =====
-- A Go map with string keys, as an association list without regard to its order.
use mathlib.Core.Path.{◌≡◌}
use mathlib.Core.Option.{Option, none, some}
use mathlib.Core.List.{List, [], ◌∷◌}
use native.Mathlib.Omega.{arith}
use nimbus_fs.Prelude.Tests.{if◌then◌else◌}
use nimbus_fs.Prelude.Text.{GoString, str_eq, str_eq_iff}

abbrev pub Dict {ℓ} : Type ℓ → Type ℓ
Dict V = List (GoString × V)

module _ {ℓ} {V : Type ℓ} where
  -- m[k]
  unfoldable pub get : GoString → Dict V → Option V
  get k [] = none
  get k ((j, v) ∷ m) = if str_eq j k then some v else get k m

  -- delete(m, k)
  unfoldable pub remove : GoString → Dict V → Dict V
  remove k [] = []
  remove k ((j, v) ∷ m) = let rest = remove k m in if str_eq j k then rest else (j, v) ∷ rest

  -- m[k] = v
  unfoldable pub put : GoString → V → Dict V → Dict V
  put k v m = (k, v) ∷ remove k m

  pub get-remove :
      (k j : GoString) (m : Dict V) → get j (remove k m) ≡ (if str_eq k j then none else get j m)
  unfolding get remove
  get-remove k j [] = ground arith
  get-remove k j ((i, v) ∷ m) =
      ground (arith, get-remove k j m, str_eq_iff i k, str_eq_iff i j, str_eq_iff k j)

  pub get-put :
      (k j : GoString) (v : V) (m : Dict V)
      → get j (put k v m) ≡ (if str_eq k j then some v else get j m)
  unfolding get put
  get-put k j v m = ground (arith, get-remove k j m)

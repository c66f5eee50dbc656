-- ===== src/Fsops/Sys/Inversion.antt =====
-- Sequences of system calls that succeeded.
use nimbus_fs.Prelude.{◌≡◌, refl, Result, ok, err}
use nimbus_fs.Fsops.Sandbox.{FsError}
use nimbus_fs.Fsops.Sys.{World, Sys, continue, ◌>>=◌}

module _ {S : Type 0} where
  -- Inversion of a sequence that succeeded.
  pub >>=-ok :
      {A B : Type 0} (m : Sys S A) (f : A → Sys S B) (w : World S) (b : B)
      → ((m >>= f) w).0 ≡ ok b
      → (a : A) × ((m w).0 ≡ ok a) × ((m >>= f) w ≡ f a (m w).1)
  unfolding ◌>>=◌
  >>=-ok {A} {B} m f w b h = split (m w).0 (m w).1 h
    where
      split :
          (r : Result FsError A) (w' : World S)
          → (continue r f w').0 ≡ ok b
          → (a : A) × (r ≡ ok a) × (continue r f w' ≡ f a w')
      split (ok a) w' e = (a, refl, refl)
      split (err x) w' e = cc

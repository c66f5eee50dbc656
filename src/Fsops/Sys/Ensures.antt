-- ===== src/Fsops/Sys/Ensures.antt =====
-- What a sequence of system calls promises: a condition on every call it makes, and one on the
-- result that it returns.
use nimbus_fs.Prelude.{◌≡◌, refl, ◌⊎◌, List, GoString, All, Result, ok, err}
use nimbus_fs.GoLib.Path.{dir}
use nimbus_fs.Fsops.Sandbox.{FsError, Sandbox, resolve, resolve_within}
use nimbus_fs.Fsops.Sandbox.Contained.{IsRoot, Below, resolve-Below, resolve_within-Below}
use nimbus_fs.GoLib.Path.Elems.{IsElem}
use nimbus_fs.Prelude.{append_assoc, ap, ◌∙◌, ◌++◌, All-append}
use nimbus_fs.GoLib.Path.Absolute.{abs_path}
use nimbus_fs.Fsops.Sys.Lookups.{Above, lookups-All, lookups_within-All}
use nimbus_fs.Fsops.Sys.{
  DirEntry, Action, mkdir, mkdir_all, create_new, truncate, write, remove_all, rename, Event, did,
  read, stat_of, listed, lstat_of, followed, Os, World, Sys, continue, ◌>>=◌, lift, resolved,
  resolved_within, does, stats, lists, opens, reads,
}

-- No condition on the result.
abbrev pub Anything : {A : Type 0} → A → Type 0
Anything a = Unit

module _ (rs : List GoString) where
  -- The paths of a call lie below the root; Resolve also asks for ancestors of it, and MkdirAll is also called on the parent of such a path.
  abbrev pub IsConfinedAction : Action → Type 0
  IsConfinedAction (mkdir p m) = Below rs p
  IsConfinedAction (mkdir_all p m) = Below rs p ⊎ ((q : GoString) × Below rs q × (p ≡ dir q))
  IsConfinedAction (create_new p m) = Below rs p
  IsConfinedAction (truncate p m) = Below rs p
  IsConfinedAction (write p t) = Below rs p
  IsConfinedAction (remove_all p) = Below rs p
  IsConfinedAction (rename p q) = Below rs p × Below rs q

  abbrev pub IsConfined : Event → Type 0
  IsConfined (did a) = IsConfinedAction a
  IsConfined (read p) = Below rs p
  IsConfined (stat_of p) = Below rs p
  IsConfined (listed p) = Below rs p
  IsConfined (lstat_of p) = Below rs p ⊎ Above rs p
  IsConfined (followed p) = Below rs p ⊎ Above rs p

  abbrev pub OnSuccess : {A : Type 0} → (A → Type 0) → Result FsError A → Type 0
  OnSuccess P (ok a) = P a
  OnSuccess P (err e) = Unit

  -- From confined calls the sequence makes confined calls, and a result that it returns has `P`.
  pub record Ensures {S A : Type 0} (m : Sys S A) (P : A → Type 0) : Type 0 where
    pub at :
        (w : World S) → All IsConfined w.trace → All IsConfined (m w).1.trace × OnSuccess P (m w).0

  module _ {S A B : Type 0} where
    continue-Ensures :
        (P : A → Type 0) (Q : B → Type 0) (f : A → Sys S B) (r : Result FsError A) (w : World S)
        → ((a : A) → P a → Ensures (f a) Q)
        → All IsConfined w.trace
        → OnSuccess P r
        → All IsConfined (continue r f w).1.trace × OnSuccess Q (continue r f w).0
    continue-Ensures P Q f (ok a) w h t p = (h a p).at w t
    continue-Ensures P Q f (err e) w h t p = (t, tt)

    pub bind-Ensures :
        {m : Sys S A} {f : A → Sys S B} (P : A → Type 0) {Q : B → Type 0}
        → Ensures m P
        → ((a : A) → P a → Ensures (f a) Q)
        → Ensures (m >>= f) Q
    unfolding ◌>>=◌
    bind-Ensures {m} {f} P {Q} hm hf = record {
      at = λ w t. continue-Ensures P Q f (m w).0 (m w).1 hf (hm.at w t).0 (hm.at w t).1;
    }

  lift_result :
      {A : Type 0} (P : A → Type 0) (r : Result FsError A)
      → ((a : A) → r ≡ ok a → P a)
      → OnSuccess P r
  lift_result P (ok a) h = h a refl
  lift_result P (err e) h = tt

  module _ {S A : Type 0} where
    pub lift-Ensures :
        (P : A → Type 0) (r : Result FsError A)
        → ((a : A) → r ≡ ok a → P a)
        → Ensures (lift {S = S} r) P
    unfolding lift
    lift-Ensures P r h = record { at = λ w t. (t, lift_result P r h) }

  any_result : {A : Type 0} (r : Result FsError A) → OnSuccess Anything r
  any_result (ok a) = tt
  any_result (err e) = tt

  module _ {S : Type 0} (os : Os S) where
    pub does-Ensures : (a : Action) → IsConfinedAction a → Ensures (does os a) Anything
    unfolding does
    does-Ensures a c = record { at = λ w t. ((c, t), any_result (os.act a w.state).0) }

    pub stats-Ensures : (p : GoString) → Below rs p → Ensures (stats os p) Anything
    unfolding stats
    stats-Ensures p b = record { at = λ w t. ((b, t), any_result (os.stat p w.state)) }

    pub opens-Ensures : (p : GoString) → Below rs p → Ensures (opens os p) Anything
    unfolding opens
    opens-Ensures p b = record { at = λ w t. ((b, t), any_result (os.open_file p w.state)) }

    pub reads-Ensures : (p : GoString) → Below rs p → Ensures (reads os p) Anything
    unfolding reads
    reads-Ensures p b = record { at = λ w t. ((b, t), any_result (os.content p w.state)) }

    -- What a listing promises is the kernel's: `P` holds of every listing.
    pub lists-Ensures :
        (P : List DirEntry → Type 0)
        → ((p : GoString) (st : S) (es : List DirEntry) → os.read_dir p st ≡ ok es → P es)
        → (p : GoString) → Below rs p
        → Ensures (lists os p) P
    unfolding lists
    lists-Ensures P h p b = record {
      at = λ w t. ((b, t), lift_result P (os.read_dir p w.state) (h p w.state));
    }

    module _ (s : Sandbox) (root : IsRoot s rs) where
      pub resolved-Ensures : (request : GoString) → Ensures (resolved os s request) (Below rs)
      unfolding resolved
      resolved-Ensures request = record {
        at = λ w t. (
          lookups-All IsConfined rs (λ p n. (n, n)) s root (os.disk w.state) request w.trace t,
          lift_result (Below rs) (resolve (os.disk w.state) s request)
              (resolve-Below s rs root (os.disk w.state) request),
        );
      }

      within-Below :
          (w : World S) (scope sub full : GoString)
          → resolve_within (os.disk w.state) s scope sub ≡ ok full
          → Below rs full
      within-Below w scope sub full h =
          let (st, k, _, (t, kt, same)) =
            resolve_within-Below s rs root (os.disk w.state) scope sub full h in
          (st ++ t, All-append IsElem st t k kt, same ∙ ap abs_path (append_assoc rs st t))

      pub resolved_within-Ensures :
          (scope sub : GoString) → Ensures (resolved_within os s scope sub) (Below rs)
      unfolding resolved_within
      resolved_within-Ensures scope sub = record {
        at = λ w t. (
          lookups_within-All IsConfined rs (λ p n. (n, n)) s root (os.disk w.state) scope sub
              w.trace t,
          lift_result (Below rs) (resolve_within (os.disk w.state) s scope sub)
              (within-Below w scope sub),
        );
      }

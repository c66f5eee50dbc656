-- ===== src/Fsops/Sys.antt =====
-- The system calls of internal/fsops/ops.go, as an interface with a record of the calls made.
-- What a call does is the kernel's matter and a parameter; that it is made, with which arguments and
-- in which order, is the program's.
pub mod Ensures
pub mod Lookups
pub mod Inversion
use nimbus_fs.Prelude.{
  ℕ, zero, suc, Bool, ◌||◌, if◌then◌else◌, List, [], ◌∷◌, ◌++◌, GoString, str_eq, Result, ok, err,
  Time,
}
use nimbus_fs.GoLib.Path.{slash, clean, join, dir}
use nimbus_fs.Fsops.Sandbox.{FsError, Disk, Sandbox, within, deepest_fuel, resolve, resolve_within}

-- os.FileInfo, with the numbers of its Stat_t.
pub record Info : Type 0 where
  pub name : GoString
  pub is_dir : Bool
  pub size : ℕ
  pub modified : Time
  pub mode : ℕ
  pub uid : ℕ
  pub gid : ℕ

-- os.DirEntry: its Info may fail.
pub record DirEntry : Type 0 where
  pub name : GoString
  pub is_dir : Bool
  pub info : Result FsError Info

-- Calls that change the disk. `create_new` opens with O_EXCL, `truncate` with O_TRUNC.
pub data Action : Type 0 where
  mkdir mkdir_all create_new truncate : GoString → ℕ → Action
  write : GoString → GoString → Action
  remove_all : GoString → Action
  rename : GoString → GoString → Action

pub data Event : Type 0 where
  did : Action → Event
  read stat_of listed : GoString → Event
  lstat_of followed : GoString → Event

-- The calls of deepestExisting and the EvalSymlinks behind it, the newest first: Lstat of each path of
-- the search, and EvalSymlinks of the one at which it ends.
unfoldable pub search_from : Disk → ℕ → GoString → List Event → List Event
search_from d zero cur trace = trace
search_from d (suc f) cur trace =
    let rest = search_from d f (dir cur) (lstat_of cur ∷ trace) in
    if d.exists cur || str_eq (dir cur) cur then followed cur ∷ lstat_of cur ∷ trace else rest

-- The calls of Resolve: none behind a first check that fails.
abbrev pub joined_lookups : Disk → Sandbox → GoString → List Event → List Event
joined_lookups d s joined trace =
    if within s joined then search_from d (deepest_fuel joined) joined trace else trace

abbrev pub lookups : Disk → Sandbox → GoString → List Event → List Event
lookups d s request = joined_lookups d s (join (s.root ∷ clean (slash ∷ request) ∷ []))

-- The calls of ResolveWithin: those for the path, if the scope resolves.
abbrev pub behind_scope : Result FsError GoString → List Event → List Event → List Event
behind_scope (err e) before after = before
behind_scope (ok scope_abs) before after = after

abbrev pub lookups_within : Disk → Sandbox → GoString → GoString → List Event → List Event
lookups_within d s scope sub trace =
    let before = lookups d s scope trace in
    behind_scope (resolve d s scope) before (lookups d s (join (scope ∷ sub ∷ [])) before)

pub record Os (S : Type 0) : Type 0 where
  pub disk : S → Disk
  pub stat : GoString → S → Result FsError Info
  pub read_dir : GoString → S → Result FsError (List DirEntry)
  pub open_file : GoString → S → Result FsError Info
  pub content : GoString → S → Result FsError GoString
  pub act : Action → S → Result FsError (Unit {0}) × S

pub record World (S : Type 0) : Type 0 where
  pub state : S
  pub trace : List Event

abbrev pub Sys : Type 0 → Type 0 → Type 0
Sys S A = World S → Result FsError A × World S

module _ {S A B : Type 0} where
  abbrev pub continue : Result FsError A → (A → Sys S B) → Sys S B
  continue (ok a) f w = f a w
  continue (err e) f w = (err e, w)

  infixl 10 ◌>>=◌ ◌>>◌
  unfoldable pub ◌>>=◌ : Sys S A → (A → Sys S B) → Sys S B
  ◌>>=◌ m f w = let (r, w') = m w in continue r f w'

  abbrev pub ◌>>◌ : Sys S A → Sys S B → Sys S B
  m >> n = m >>= λ _. n

module _ {S A : Type 0} where
  unfoldable pub lift : Result FsError A → Sys S A
  lift r w = (r, w)

module _ {S : Type 0} (os : Os S) where
  -- A path is looked up on the disk as it is at that moment.
  unfoldable pub resolved : Sandbox → GoString → Sys S GoString
  resolved s request w = (
    resolve (os.disk w.state) s request,
    record w { trace = lookups (os.disk w.state) s request w.trace },
  )

  unfoldable pub resolved_within : Sandbox → GoString → GoString → Sys S GoString
  resolved_within s scope sub w = (
    resolve_within (os.disk w.state) s scope sub,
    record w { trace = lookups_within (os.disk w.state) s scope sub w.trace },
  )

  unfoldable pub does : Action → Sys S (Unit {0})
  does a w =
      let (r, state') = os.act a w.state in (r, record { state = state'; trace = did a ∷ w.trace })

  unfoldable pub stats : GoString → Sys S Info
  stats p w = (os.stat p w.state, record w { trace = stat_of p ∷ w.trace })

  unfoldable pub lists : GoString → Sys S (List DirEntry)
  lists p w = (os.read_dir p w.state, record w { trace = listed p ∷ w.trace })

  unfoldable pub opens : GoString → Sys S Info
  opens p w = (os.open_file p w.state, record w { trace = read p ∷ w.trace })

  unfoldable pub reads : GoString → Sys S GoString
  reads p w = (os.content p w.state, record w { trace = read p ∷ w.trace })

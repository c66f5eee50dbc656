-- ===== src/Fsops/Sandbox.antt =====
-- internal/fsops/sandbox.go: mapping a request path to a path on disk below one root.
-- What the kernel says of a path is a parameter: which paths exist (os.Lstat), and what a path is
-- once its symbolic links are followed (filepath.EvalSymlinks).
pub mod Existing
pub mod Contained
pub mod SlashRoot
pub mod Lexical
pub mod Requests
pub mod Root
use nimbus_fs.Prelude.{
  ℕ, zero, suc, Bool, true, false, ◌&&◌, ◌||◌, not, if◌then◌else◌, Option, none, some, List, [],
  ◌∷◌, ◌++◌, GoString, codes, str_eq, has_prefix, length, Result, ok, err, ◌>>=◌, ◌>>◌,
}
use nimbus_fs.GoLib.Path.Rel.{rel}
use nimbus_fs.GoLib.Path.{slash, clean, join, dir, base}

-- An error of a file operation: ErrEscape, os.ErrNotExist, os.ErrPermission, and all others.
pub data FsError : Type 0 where
  escape not_exist permission : FsError
  other : GoString → FsError

pub record Disk : Type 0 where
  pub exists : GoString → Bool
  pub eval_symlinks : GoString → Result FsError GoString

pub record Sandbox : Type 0 where
  pub root : GoString

unfoldable pub within : Sandbox → GoString → Bool
within s p = str_eq p s.root || has_prefix p (s.root ++ slash ∷ [])

-- The loop of deepestExisting: `parts` are the base names cut off so far. `none` is a loop that
-- still runs when its fuel is spent.
unfoldable pub deepest_from : Disk → ℕ → GoString → List GoString → Option (GoString × GoString)
deepest_from d zero cur parts = none
deepest_from d (suc f) cur parts =
    let parent = dir cur in
    let more = base cur ∷ parts in
    let rest = deepest_from d f parent more in
    if d.exists cur
    then some (cur, join parts)
    else if str_eq parent cur
    then some (parent, join more)
    else rest

abbrev pub deepest_fuel : GoString → ℕ
deepest_fuel p = suc (length p)

unfoldable pub deepest_existing : Disk → GoString → Option (GoString × GoString)
unfolding deepest_from
deepest_existing d p = deepest_from d (deepest_fuel p) p []

abbrev pub guard : Bool → FsError → Result FsError (Unit {0})
guard true e = ok tt
guard false e = err e

-- A search that ran out of fuel would be no result of the program's.
abbrev pub finished : Option (GoString × GoString) → Result FsError (GoString × GoString)
finished none = err (other (codes "out of fuel"))
finished (some r) = ok r

-- The part of Resolve behind its first check.
unfoldable pub resolve_joined : Disk → Sandbox → GoString → Result FsError GoString
resolve_joined d s joined = do
  guard (within s joined) escape
  found ← finished (deepest_existing d joined)
  resolved ← d.eval_symlinks found.0
  guard (within s resolved) escape
  let full = join (resolved ∷ found.1 ∷ [])
  guard (within s full) escape
  ok full

-- Resolve
unfoldable pub resolve : Disk → Sandbox → GoString → Result FsError GoString
resolve d s request = resolve_joined d s (join (s.root ∷ clean (slash ∷ request) ∷ []))

-- ResolveWithin
unfoldable pub resolve_within : Disk → Sandbox → GoString → GoString → Result FsError GoString
resolve_within d s scope sub = do
  scope_abs ← resolve d s scope
  full ← resolve d s (join (scope ∷ sub ∷ []))
  guard (str_eq full scope_abs || has_prefix full (scope_abs ++ slash ∷ [])) escape
  ok full

-- The end of RelPath: "." is the root.
abbrev pub request_of : Option GoString → Result FsError GoString
request_of none = err (other (codes "Rel: can't make path relative"))
request_of (some r) = ok (if str_eq r (codes ".") then slash ∷ [] else slash ∷ r)

-- RelPath
unfoldable pub rel_path : Sandbox → GoString → Result FsError GoString
rel_path s abs = request_of (rel s.root abs)

-- filepath.Abs, for a working directory, `none` where Getwd fails.
abbrev pub joined_to : Option GoString → GoString → Result FsError GoString
joined_to none p = err (other (codes "getwd"))
joined_to (some wd) p = ok (join (wd ∷ p ∷ []))

unfoldable pub absolute : Option GoString → GoString → Result FsError GoString
absolute wd p = if has_prefix p (slash ∷ []) then ok (clean p) else joined_to wd p

-- NewSandbox
unfoldable pub new_sandbox : Option GoString → Disk → GoString → Result FsError Sandbox
new_sandbox wd d root = do
  abs ← absolute wd root
  resolved ← d.eval_symlinks abs
  ok (record { root = resolved })

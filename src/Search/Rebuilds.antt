-- ===== src/Search/Rebuilds.antt =====
-- internal/search/index.go: Index under calls of Rebuild by any number of goroutines. A call makes
-- its steps on the shared index one at a time, and a schedule says whose turn it is.
pub mod Exclusive
pub mod Ends
use nimbus_fs.Prelude.{ℕ, ◌==◌, Bool, true, false, if◌then◌else◌, Option, none, some, List, [], ◌∷◌}
use nimbus_fs.Fsops.Sandbox.{Sandbox}
use nimbus_fs.Search.{Visit, Bleve, build}

-- Index, without the sandbox and the lock, under which only `bleve` is read or written.
pub record Index (I : Type 0) : Type 0 where
  pub bleve : Option I
  pub ready : Bool
  pub building : Bool

-- Where a goroutine stands: not in Rebuild, or before NewMemOnly, before the walk into a new index,
-- before ready.Store and before the deferred building.Store.
pub data Pc (I : Type 0) : Type 0 where
  idle : Pc I
  opening : Pc I
  walking : I → Pc I
  published : Pc I
  closing : Pc I

-- A turn: what WalkDir visits, and whether NewMemOnly succeeds, where the step asks for it.
pub record Turn : Type 0 where
  pub thread : ℕ
  pub opens : Bool
  pub visits : List Visit

pub record System (I : Type 0) : Type 0 where
  pub index : Index I
  pub threads : ℕ → Pc I

abbrev pub update {ℓ} : {A : Type ℓ} → ℕ → A → (ℕ → A) → ℕ → A
update t a f u = if u == t then a else f u

abbrev pub opened : {I : Type 0} → Option I → Pc I
opened none = closing
opened (some i) = walking i

abbrev pub moved : {I : Type 0} → ℕ → (ℕ → Pc I) → Pc I × Index I → System I
moved t threads (pc, ix) = record { index = ix; threads = update t pc threads }

module _ {I : Type 0} {B : Type 0} (bleve : Bleve I B) (s : Sandbox) where
  -- Rebuild from one access of the shared index to the next; the walk writes to its own index only.
  unfoldable pub advance : Turn → Pc I → Index I → Pc I × Index I
  advance turn idle ix =
      if ix.building then (idle, ix) else (opening, record ix { building = true })
  advance turn opening ix = (if turn.opens then opened bleve.new_mem_only else closing, ix)
  advance turn (walking i) ix =
      (published, record ix { bleve = some (build bleve s turn.visits i) })
  advance turn published ix = (closing, record ix { ready = true })
  advance turn closing ix = (idle, record ix { building = false })

  unfoldable pub step : Turn → System I → System I
  step turn sys = moved turn.thread sys.threads (advance turn (sys.threads turn.thread) sys.index)

  unfoldable pub run : List Turn → System I → System I
  run [] sys = sys
  run (turn ∷ turns) sys = run turns (step turn sys)

-- New, and no call yet.
abbrev pub new_system : {I : Type 0} → System I
new_system = record {
  index = record { bleve = none; ready = false; building = false };
  threads = λ t. idle;
}

-- ===== src/Search.antt =====
-- internal/search/index.go: the documents of the search index, and how Rebuild collects them. The
-- bleve library is a parameter; what WalkDir visits is a list of calls of its callback.
pub mod Batches
pub mod Rebuilds
use nimbus_fs.Prelude.{
  ℕ, ◌==◌, ltb, leb, Bool, true, false, not, if◌then◌else◌, Option, none, some, List, [], ◌∷◌, ◌++◌,
  length, map, take, GoString, codes, str_eq, Result, ok, err, ℤ, unix,
}
use nimbus_fs.GoLib.Path.{ext}
use nimbus_fs.GoLib.FileMode.{perm}
use nimbus_fs.GoLib.Strings.{trim_space, lower, contains_any, is_blank}
use nimbus_fs.Fsops.Sandbox.{FsError, Sandbox, rel_path}
use nimbus_fs.Fsops.Sys.{Info}

-- doc
pub record Doc : Type 0 where
  pub path : GoString
  pub name : GoString
  pub name_lower : GoString
  pub ext : GoString
  pub is_dir : Bool
  pub uid : ℕ
  pub gid : ℕ
  pub mode : ℕ
  pub size : ℕ
  pub modified : ℤ

-- The arguments of the callback: the error is only tested, and Info may fail.
pub record Visit : Type 0 where
  pub path : GoString
  pub failed : Bool
  pub info : Option Info

-- strings.TrimPrefix(ext, ".")
abbrev pub without_dot : GoString → GoString
without_dot [] = []
without_dot (c ∷ s) = if c == b'.' then s else c ∷ s

abbrev pub entry_of : GoString → Info → Doc
entry_of rel info = record {
  path = rel;
  name = info.name;
  name_lower = lower info.name;
  ext = lower (without_dot (ext info.name));
  is_dir = info.is_dir;
  uid = info.uid;
  gid = info.gid;
  mode = perm info.mode;
  size = info.size;
  modified = unix info.modified;
}

abbrev pub doc_at : Result FsError GoString → Option Info → Option Doc
doc_at rel none = none
doc_at (err e) (some info) = none
doc_at (ok rel) (some info) = some (entry_of rel info)

-- The part of the callback before the batch: the entry of a visit that is not left out.
unfoldable pub doc_of : Sandbox → Visit → Option Doc
doc_of s v =
    if v.failed
    then none
    else if str_eq v.path s.root
    then none
    else doc_at (rel_path s v.path) v.info

-- What is used of bleve: a new index in memory, an empty batch, the number of its documents, Index
-- of a batch, and Batch, which writes the documents of one.
pub record Bleve (I : Type 0) (B : Type 0) : Type 0 where
  pub new_mem_only : Option I
  pub new_batch : B
  pub size : B → ℕ
  pub add : GoString → Doc → B → Option B
  pub apply : B → I → Option I

abbrev pub batch_size : ℕ
batch_size = 1000

-- The variables of Rebuild that the callback changes.
pub record Building (I : Type 0) (B : Type 0) : Type 0 where
  pub batch : B
  pub next : I

module _ {I : Type 0} {B : Type 0} (bleve : Bleve I B) where
  -- A batch that fails stays as it is.
  abbrev pub flushed : Building I B → Option I → Building I B
  flushed b none = b
  flushed b (some next) = record { batch = bleve.new_batch; next = next }

  -- flush, whose error is only logged.
  unfoldable pub flush : Building I B → Building I B
  flush b = if bleve.size b.batch == 0 then b else flushed b (bleve.apply b.batch b.next)

  abbrev pub flush_full : Building I B → Building I B
  flush_full b = if leb batch_size (bleve.size b.batch) then flush b else b

  abbrev pub added : Building I B → Option B → Building I B
  added b none = b
  added b (some batch) = flush_full (record b { batch = batch })

  abbrev pub batched : Building I B → Option Doc → Building I B
  batched b none = b
  batched b (some d) = added b (bleve.add d.path d b.batch)

  -- The callback of WalkDir.
  unfoldable pub visit : Sandbox → Visit → Building I B → Building I B
  visit s v b = batched b (doc_of s v)

  -- The walk, in the order of the visits.
  unfoldable pub walk : Sandbox → List Visit → Building I B → Building I B
  walk s [] b = b
  walk s (v ∷ vs) b = walk s vs (visit s v b)

  -- The index that Rebuild publishes: the walk into an empty index, and the last flush.
  unfoldable pub build : Sandbox → List Visit → I → I
  build s vs next = (flush (walk s vs (record { batch = bleve.new_batch; next = next }))).next

abbrev pub wildcards : GoString
wildcards = codes "*?"

-- The pattern of buildQuery, which is matched with the lowercase names.
unfoldable pub build_query : GoString → GoString
build_query raw =
    let q = lower (trim_space raw) in
    if is_blank q
    then codes "*"
    else if contains_any q wildcards
    then q
    else codes "*" ++ q ++ codes "*"

abbrev pub max_results : ℕ
max_results = 200

-- What a search sees of the index: Ready, and the search of the current index, if there is one, with
-- the documents that a pattern matches in the order of their scores, `none` where bleve fails.
pub record View : Type 0 where
  pub ready : Bool
  pub current : Option (GoString → Option (List Doc))

abbrev pub limited : Option (List Doc) → Option (List Doc)
limited none = none
limited (some ds) = some (take max_results ds)

-- Search: the hits are the stored fields of the documents.
unfoldable pub search_index : View → GoString → Option (List Doc)
search_index view query = elim view.current [
  | none ↦ some []
  | some find ↦ limited (find (build_query query))
]

-- ===== src/Search/Batches.antt =====
-- internal/search/index.go: what the batches of Rebuild leave in the index.
use nimbus_fs.Prelude.{
  ◌==◌, leb, ◌≡◌, Bool, true, false, Bool-cases, if◌then◌else◌, Option, none, some, List, [], ◌∷◌,
  ==_iff, inl, inr,
}
use nimbus_fs.Fsops.Sandbox.{Sandbox}
use nimbus_fs.Search.{
  Doc, Visit, doc_of, Bleve, batch_size, Building, flushed, flush, flush_full, batched, visit, walk,
  build,
}

-- What bleve documents of batches: writing one is writing its documents, one after the other.
pub record IsLawful {I : Type 0} {B : Type 0} (bleve : Bleve I B) (accepts : Doc → Bool)
    (write : Doc → I → I) : Type 0 where
  pub refused : (d : Doc) (b : B) → accepts d ≡ false → bleve.add d.path d b ≡ none
  pub taken : (d : Doc) (b : B) → accepts d ≡ true → (b' : B) × (bleve.add d.path d b ≡ some b')
  pub apply_none : (b : B) (i : I) → bleve.size b ≡ 0 → bleve.apply b i ≡ some i
  pub apply_new : (i : I) → bleve.apply bleve.new_batch i ≡ some i
  pub apply_add :
      (d : Doc) (b b' : B) (i j : I)
      → bleve.add d.path d b ≡ some b'
      → bleve.apply b i ≡ some j
      → bleve.apply b' i ≡ some (write d j)

module _ {I : Type 0} (accepts : Doc → Bool) (write : Doc → I → I) where
  -- Writing one document at a time, as the comment of Rebuild describes the slow way.
  abbrev pub write_one : Option Doc → I → I
  write_one none i = i
  write_one (some d) i = if accepts d then write d i else i

  unfoldable pub one_by_one : Sandbox → List Visit → I → I
  one_by_one s [] i = i
  one_by_one s (v ∷ vs) i = one_by_one s vs (write_one (doc_of s v) i)

module _ {I : Type 0} {B : Type 0} (bleve : Bleve I B) {accepts : Doc → Bool} {write : Doc → I → I}
    (law : IsLawful bleve accepts write) where
  -- The index with what waits in the batch.
  abbrev Stands : Building I B → I → Type 0
  Stands b i = bleve.apply b.batch b.next ≡ some i

  flushed-Stands :
      (b : Building I B) (o : Option I) (i : I)
      → o ≡ some i
      → Stands (flushed bleve b o) i × ((flushed bleve b o).next ≡ i)
  flushed-Stands b none i e = cc
  flushed-Stands b (some next) i e = (cc (law.apply_new next), cc)

  flush-Stands :
      (b : Building I B) (i : I)
      → Stands b i
      → Stands (flush bleve b) i × ((flush bleve b).next ≡ i)
  unfolding flush
  flush-Stands b i h = elim (Bool-cases (bleve.size b.batch == 0)) [
    | inl e ↦ rw e (h, cc (law.apply_none b.batch b.next ((==_iff (bleve.size b.batch) 0).0 e)))
    | inr e ↦ rw e (flushed-Stands b _ i h)
  ]

  flush_full-Stands : (b : Building I B) (i : I) → Stands b i → Stands (flush_full bleve b) i
  flush_full-Stands b i h = elim (Bool-cases (leb batch_size (bleve.size b.batch))) [
    | inl e ↦ rw e ((flush-Stands b i h).0)
    | inr e ↦ rw e h
  ]

  batched-Stands :
      (b : Building I B) (o : Option Doc) (i : I)
      → Stands b i
      → Stands (batched bleve b o) (write_one accepts write o i)
  batched-Stands b none i h = h
  batched-Stands b (some d) i h = elim (Bool-cases (accepts d)) [
    | inl e ↦
        let (b', t) = law.taken d b.batch e in
        rw (e, t)
          (flush_full-Stands (record b { batch = b' }) _ (law.apply_add d b.batch b' b.next i t h))
    | inr e ↦ rw (e, law.refused d b.batch e) h
  ]

  walk-Stands :
      (s : Sandbox) (vs : List Visit) (b : Building I B) (i : I)
      → Stands b i
      → Stands (walk bleve s vs b) (one_by_one accepts write s vs i)
  unfolding walk visit one_by_one
  walk-Stands s [] b i h = h
  walk-Stands s (v ∷ vs) b i h = walk-Stands s vs _ _ (batched-Stands b (doc_of s v) i h)

-- Rebuild, which writes in batches, leaves the index that has got the entries of the walk one at a
-- time and in their order, without those that were left out or that bleve refused, where batches of
-- bleve do what it documents.
pub build-eq-one_by_one :
    {I : Type 0} {B : Type 0} (bleve : Bleve I B) (accepts : Doc → Bool) (write : Doc → I → I)
    (law : IsLawful bleve accepts write) (s : Sandbox) (vs : List Visit) (next : I)
    → build bleve s vs next ≡ one_by_one accepts write s vs next
unfolding build
build-eq-one_by_one bleve accepts write law s vs next =
    (flush-Stands bleve law _ _ (walk-Stands bleve law s vs _ next (law.apply_new next))).1

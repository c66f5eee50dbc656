-- ===== src/Search/Rebuilds/Exclusive.antt =====
-- internal/search/index.go: one rebuild at a time, and only whole indexes in use.
use nimbus_fs.Prelude.{
  ℕ, ◌==◌, ==_iff, true, false, if◌then◌else◌, ◌≡◌, refl, sym, Option, none, some, List, [], ◌∷◌,
  ◌⊎◌, inl, inr, arith, Bool-cases,
}
use nimbus_fs.Fsops.Sandbox.{Sandbox}
use nimbus_fs.Search.{Visit, Bleve, build}
use nimbus_fs.Search.Rebuilds.{
  Index, Pc, idle, opening, walking, published, closing, Turn, System, update, opened, advance,
  moved, step, run, new_system,
}

module _ {ℓ} {A : Type ℓ} where
  pub update_same : (t : ℕ) (a : A) (f : ℕ → A) → update t a f t ≡ a
  update_same t a f = ground (arith, ==_iff t t)

  pub update_other : (t u : ℕ) (a : A) (f : ℕ → A) → (u == t) ≡ false → update t a f u ≡ f u
  update_other t u a f e = rw e refl

module _ {I : Type 0} {B : Type 0} (bleve : Bleve I B) (s : Sandbox) where
  -- An index that one walk of the tree filled from a new one.
  abbrev pub IsWhole : I → Type 0
  IsWhole i =
      (next : I) × (vs : List Visit) × (bleve.new_mem_only ≡ some next)
      × (i ≡ build bleve s vs next)

  -- What a goroutine that is in Rebuild has to do with.
  abbrev pub PcHolds : Option I → Pc I → Type 0
  PcHolds o idle = ⊥
  PcHolds o opening = Unit
  PcHolds o (walking i) = bleve.new_mem_only ≡ some i
  PcHolds o published = (i : I) × (o ≡ some i)
  PcHolds o closing = Unit

  abbrev pub AllIdle : (ℕ → Pc I) → Type 0
  AllIdle threads = (t : ℕ) → threads t ≡ idle

  abbrev pub OneBusy : Option I → (ℕ → Pc I) → Type 0
  OneBusy o threads =
      (t : ℕ) × PcHolds o (threads t) × ((u : ℕ) → (u == t) ≡ false → threads u ≡ idle)

  pub record IsExclusive (sys : System I) : Type 0 where
    pub one :
        (sys.index.building ≡ false × AllIdle sys.threads)
        ⊎ (sys.index.building ≡ true × OneBusy sys.index.bleve sys.threads)
    pub ready_some : sys.index.ready ≡ true → (i : I) × (sys.index.bleve ≡ some i)
    pub whole : (i : I) → sys.index.bleve ≡ some i → IsWhole i

  IsExclusive-new_system : IsExclusive new_system
  IsExclusive-new_system = record {
    one = inl (refl, λ t. refl);
    ready_some = λ e. cc;
    whole = λ i e. cc;
  }

  opened-PcHolds : (old o : Option I) → o ≡ bleve.new_mem_only → PcHolds old (opened o)
  opened-PcHolds old none e = tt
  opened-PcHolds old (some i) e = sym e

  opening-PcHolds :
      (turn : Turn) (old : Option I)
      → PcHolds old (if turn.opens then opened bleve.new_mem_only else closing)
  opening-PcHolds turn old = elim (Bool-cases turn.opens) [
    | inl e ↦ rw e (opened-PcHolds old bleve.new_mem_only refl)
    | inr e ↦ rw e tt
  ]

  on_own :
      (turn : Turn) (threads : ℕ → Pc I) (pc : Pc I) (old : Option I)
      → PcHolds old pc
      → PcHolds old (update turn.thread pc threads turn.thread)
  on_own turn threads pc old p = rw (update_same turn.thread pc threads) p

  away :
      (turn : Turn) (threads : ℕ → Pc I) (pc : Pc I)
      → ((u : ℕ) → (u == turn.thread) ≡ false → threads u ≡ idle)
      → (u : ℕ) → (u == turn.thread) ≡ false
      → update turn.thread pc threads u ≡ idle
  away turn threads pc others u e = rw e (others u e)

  -- A step of the goroutine that is in Rebuild.
  moved-IsExclusive :
      (turn : Turn) (threads : ℕ → Pc I) (ix : Index I) (pc : Pc I)
      → ix.building ≡ true
      → PcHolds ix.bleve pc
      → ((u : ℕ) → (u == turn.thread) ≡ false → threads u ≡ idle)
      → (ix.ready ≡ true → (i : I) × (ix.bleve ≡ some i))
      → ((i : I) → ix.bleve ≡ some i → IsWhole i)
      → IsExclusive (moved turn.thread threads (advance bleve s turn pc ix))
  unfolding advance
  moved-IsExclusive turn threads ix idle b p others rs wh = absurd p
  moved-IsExclusive turn threads ix opening b p others rs wh = record {
    one = inr (
      b,
      (
        turn.thread,
        on_own turn threads _ ix.bleve (opening-PcHolds turn ix.bleve),
        away turn threads _ others,
      ),
    );
    ready_some = rs;
    whole = wh;
  }
  moved-IsExclusive turn threads ix (walking i) b p others rs wh =
      let full = build bleve s turn.visits i in
      record {
        one = inr (
          b,
          (
            turn.thread,
            on_own turn threads published (some full) (full, refl),
            away turn threads published others,
          ),
        );
        ready_some = λ e. (full, refl);
        whole = λ j e. (i, turn.visits, p, cc);
      }
  moved-IsExclusive turn threads ix published b p others rs wh = record {
    one = inr (
      b,
      (turn.thread, on_own turn threads closing ix.bleve tt, away turn threads closing others),
    );
    ready_some = λ e. p;
    whole = wh;
  }
  moved-IsExclusive turn threads ix closing b p others rs wh = record {
    one = inl (
      refl,
      λ u. elim (Bool-cases (u == turn.thread)) [ inl e ↦ rw e refl | inr e ↦ rw e (others u e) ],
    );
    ready_some = rs;
    whole = wh;
  }

  -- The first step of a call, which finds no rebuild under way.
  entered-IsExclusive :
      (turn : Turn) (threads : ℕ → Pc I) (ix : Index I)
      → ix.building ≡ false
      → AllIdle threads
      → (ix.ready ≡ true → (i : I) × (ix.bleve ≡ some i))
      → ((i : I) → ix.bleve ≡ some i → IsWhole i)
      → IsExclusive (moved turn.thread threads (advance bleve s turn (threads turn.thread) ix))
  unfolding advance
  entered-IsExclusive turn threads ix nb all rs wh =
      rw (all turn.thread, nb)
        record {
          one = inr (
            refl,
            (
              turn.thread,
              on_own turn threads opening ix.bleve tt,
              away turn threads opening (λ u e. all u),
            ),
          );
          ready_some = rs;
          whole = wh;
        }

  -- A turn of a goroutine that is not in Rebuild while another one is: its call is dropped.
  dropped-IsExclusive :
      (turn : Turn) (threads : ℕ → Pc I) (ix : Index I)
      → ix.building ≡ true
      → (one : OneBusy ix.bleve threads) → (one.0 == turn.thread) ≡ false
      → (ix.ready ≡ true → (i : I) × (ix.bleve ≡ some i))
      → ((i : I) → ix.bleve ≡ some i → IsWhole i)
      → IsExclusive (moved turn.thread threads (advance bleve s turn (threads turn.thread) ix))
  unfolding advance
  dropped-IsExclusive turn threads ix b (t, p, others) ne rs wh =
      rw (others turn.thread (ground (arith, ne)), b)
        record {
          one = inr (
            refl,
            (
              t,
              rw (update_other turn.thread t idle threads ne) p,
              λ u e. elim (Bool-cases (u == turn.thread)) [
                | inl c ↦ rw c refl
                | inr c ↦ rw c (others u e)
              ],
            ),
          );
          ready_some = rs;
          whole = wh;
        }

  step-IsExclusive :
      (turn : Turn) (sys : System I) → IsExclusive sys → IsExclusive (step bleve s turn sys)
  unfolding step
  step-IsExclusive turn sys h = elim h.one [
    | inl (nb, all) ↦ entered-IsExclusive turn sys.threads sys.index nb all h.ready_some h.whole
    | inr (b, (t, p, others)) ↦ elim (Bool-cases (t == turn.thread)) [
      | inl e ↦
          let own : t ≡ turn.thread = (==_iff t turn.thread).0 e in
          moved-IsExclusive turn sys.threads sys.index (sys.threads turn.thread) b (rw⁻¹ own p)
            (λ u ne. others u (rw own ne)) h.ready_some h.whole
      | inr e ↦
          dropped-IsExclusive turn sys.threads sys.index b (t, p, others) e h.ready_some h.whole
    ]
  ]

  run-IsExclusive :
      (turns : List Turn) (sys : System I) → IsExclusive sys → IsExclusive (run bleve s turns sys)
  unfolding run
  run-IsExclusive [] sys h = h
  run-IsExclusive (turn ∷ turns) sys h =
      run-IsExclusive turns (step bleve s turn sys) (step-IsExclusive turn sys h)

-- Whatever the turns of the goroutines that call Rebuild, on a new Index: either no rebuild is under
-- way, `building` is false and every goroutine is outside, or `building` is true and exactly one is
-- inside; once `ready` is set there is an index to search; and an index that a search can see is the
-- result of one whole walk and its last flush into an index that was new, never one being built.
pub run-new_system-IsExclusive :
    {I : Type 0} {B : Type 0} (bleve : Bleve I B) (s : Sandbox) (turns : List Turn)
    → IsExclusive bleve s (run bleve s turns new_system)
run-new_system-IsExclusive bleve s turns =
    run-IsExclusive bleve s turns new_system (IsExclusive-new_system bleve s)

-- ===== src/Search/Rebuilds/Ends.antt =====
-- internal/search/index.go: a rebuild comes to its end, so that later ones are not dropped for ever.
use nimbus_fs.Prelude.{
  ℕ, suc, ◌==◌, ==_iff, ◌≤◌, true, false, if◌then◌else◌, ◌≡◌, refl, sym, ◌∙◌, subst, false≢true,
  Option, none, some, List, [], ◌∷◌, ◌⊎◌, inl, inr, arith, Bool-cases,
}
use nimbus_fs.Fsops.Sandbox.{Sandbox}
use nimbus_fs.Search.{Bleve, build}
use nimbus_fs.Search.Rebuilds.{
  Index, Pc, idle, opening, walking, published, closing, Turn, System, update, opened, advance,
  moved, step, run, new_system,
}
use nimbus_fs.Search.Rebuilds.Exclusive.{
  update_same, update_other, PcHolds, run-new_system-IsExclusive,
}

-- The steps a goroutine still has before it.
abbrev pub remaining : {I : Type 0} → Pc I → ℕ
remaining idle = 0
remaining opening = 4
remaining (walking i) = 3
remaining published = 2
remaining closing = 1

abbrev pub turns_of : ℕ → List Turn → ℕ
turns_of t [] = 0
turns_of t (turn ∷ turns) =
    let rest = turns_of t turns in if turn.thread == t then suc rest else rest

module _ {I : Type 0} {B : Type 0} (bleve : Bleve I B) (s : Sandbox) where
  -- At some point of the schedule no rebuild is under way.
  abbrev pub Frees : List Turn → System I → Type 0
  Frees [] sys = sys.index.building ≡ false
  Frees (turn ∷ turns) sys = (sys.index.building ≡ false) ⊎ Frees turns (step bleve s turn sys)

  Frees-now : (turns : List Turn) (sys : System I) → sys.index.building ≡ false → Frees turns sys
  Frees-now [] sys e = e
  Frees-now (turn ∷ turns) sys e = inl e

  -- The goroutine `t` is the one in Rebuild and has at most `n` steps before it.
  record IsBusy (t : ℕ) (n : ℕ) (sys : System I) : Type 0 where
    building : sys.index.building ≡ true
    inside : 1 ≤ remaining (sys.threads t)
    bounded : remaining (sys.threads t) ≤ n
    others : (u : ℕ) → (u == t) ≡ false → sys.threads u ≡ idle

  update-others :
      (t : ℕ) (pc : Pc I) (threads : ℕ → Pc I)
      → ((u : ℕ) → (u == t) ≡ false → threads u ≡ idle)
      → (u : ℕ) → (u == t) ≡ false
      → update t pc threads u ≡ idle
  update-others t pc threads others u e = rw e (others u e)

  next-IsBusy :
      (t n : ℕ) (threads : ℕ → Pc I) (ix : Index I) (pc : Pc I)
      → ix.building ≡ true
      → 1 ≤ remaining pc
      → remaining pc ≤ n
      → ((u : ℕ) → (u == t) ≡ false → threads u ≡ idle)
      → IsBusy t n (moved t threads (pc, ix))
  next-IsBusy t n threads ix pc b i r others = record {
    building = b;
    inside = rw (update_same t pc threads) i;
    bounded = rw (update_same t pc threads) r;
    others = update-others t pc threads others;
  }

  opened-remaining : (o : Option I) → (1 ≤ remaining (opened o)) × (remaining (opened o) ≤ 3)
  opened-remaining none = (omega arith, omega arith)
  opened-remaining (some i) = (omega arith, omega arith)

  opening-remaining :
      (turn : Turn)
      → let pc = if turn.opens then opened bleve.new_mem_only else closing in
        (1 ≤ remaining pc) × (remaining pc ≤ 3)
  opening-remaining turn = elim (Bool-cases turn.opens) [
    | inl e ↦ rw e (opened-remaining bleve.new_mem_only)
    | inr e ↦ rw e (omega arith, omega arith)
  ]

  -- A turn of the goroutine in Rebuild is its last one or leaves it one step less.
  own-IsBusy :
      (turn : Turn) (n : ℕ) (threads : ℕ → Pc I) (ix : Index I) (pc : Pc I)
      → ix.building ≡ true
      → 1 ≤ remaining pc
      → remaining pc ≤ suc n
      → ((u : ℕ) → (u == turn.thread) ≡ false → threads u ≡ idle)
      → let sys = moved turn.thread threads (advance bleve s turn pc ix) in
        (sys.index.building ≡ false) ⊎ IsBusy turn.thread n sys
  unfolding advance
  own-IsBusy turn n threads ix idle b i r others = absurd (omega (arith, i))
  own-IsBusy turn n threads ix opening b i r others =
      let (lo, hi) = opening-remaining turn in
      inr (next-IsBusy turn.thread n threads ix _ b lo (omega (arith, hi, r)) others)
  own-IsBusy turn n threads ix (walking x) b i r others = inr (
      next-IsBusy turn.thread n threads (record ix { bleve = some (build bleve s turn.visits x) })
        published b (omega arith) (omega arith) others)
  own-IsBusy turn n threads ix published b i r others = inr (
      next-IsBusy turn.thread n threads (record ix { ready = true }) closing b (omega arith)
        (omega arith) others)
  own-IsBusy turn n threads ix closing b i r others = inl refl

  -- A turn of another goroutine changes nothing for it.
  dropped-IsBusy :
      (turn : Turn) (t n : ℕ) (sys : System I)
      → IsBusy t n sys
      → (turn.thread == t) ≡ false
      → IsBusy t n (step bleve s turn sys)
  unfolding step advance
  dropped-IsBusy turn t n sys h ne =
      let other : (t == turn.thread) ≡ false = ground (arith, ne) in
      let kept = update_other turn.thread t idle sys.threads other in
      rw (h.others turn.thread ne, h.building)
        record {
          building = refl;
          inside = rw kept h.inside;
          bounded = rw kept h.bounded;
          others = λ u e. elim (Bool-cases (u == turn.thread)) [
            | inl c ↦ rw c refl
            | inr c ↦ rw c (h.others u e)
          ];
        }

  step-IsBusy :
      (turn : Turn) (n : ℕ) (sys : System I)
      → IsBusy turn.thread (suc n) sys
      → ((step bleve s turn sys).index.building ≡ false)
        ⊎ IsBusy turn.thread n (step bleve s turn sys)
  unfolding step
  step-IsBusy turn n sys h =
      own-IsBusy turn n sys.threads sys.index (sys.threads turn.thread) h.building h.inside
        h.bounded h.others

  run-Frees :
      (turns : List Turn) (t : ℕ) (sys : System I)
      → IsBusy t (turns_of t turns) sys
      → Frees turns sys
  run-Frees [] t sys h = absurd (omega (arith, h.inside, h.bounded))
  run-Frees (turn ∷ turns) t sys h = elim (Bool-cases (turn.thread == t)) [
    | inl e ↦
        let own : t ≡ turn.thread = omega (arith, (==_iff turn.thread t).0 e) in
        let counted : turns_of t (turn ∷ turns) ≡ suc (turns_of t turns) = rw e refl in
        let busy = subst (λ n. IsBusy t n sys) counted h in
        inr (elim (step-IsBusy turn (turns_of t turns) sys (rw⁻¹ own busy)) [
          | inl free ↦ Frees-now turns _ free
          | inr busy' ↦
              run-Frees turns t _
                (subst (λ u. IsBusy u (turns_of t turns) (step bleve s turn sys)) (sym own) busy')
        ])
    | inr e ↦
        let counted : turns_of t (turn ∷ turns) ≡ turns_of t turns = rw e refl in
        let busy = subst (λ n. IsBusy t n sys) counted h in
        inr (run-Frees turns t _ (dropped-IsBusy turn t (turns_of t turns) sys busy e))
  ]

  -- The goroutine inside, which an exclusive state has, has at most the four steps of a whole call.
  remaining_le : (pc : Pc I) → remaining pc ≤ 4
  remaining_le idle = omega arith
  remaining_le opening = omega arith
  remaining_le (walking i) = omega arith
  remaining_le published = omega arith
  remaining_le closing = omega arith

  inside-remaining : (o : Option I) (pc : Pc I) → PcHolds bleve s o pc → 1 ≤ remaining pc
  inside-remaining o idle h = absurd h
  inside-remaining o opening h = omega arith
  inside-remaining o (walking i) h = omega arith
  inside-remaining o published h = omega arith
  inside-remaining o closing h = omega arith

-- A rebuild that is under way, in any state that a new Index comes to, is one goroutine's, and ends:
-- in every further schedule that gives that goroutine four turns, whatever the others do between
-- them and whether or not NewMemOnly succeeds, there is a point where `building` is false again, so
-- that a later call is not dropped.
pub rebuild-Frees :
    {I : Type 0} {B : Type 0} (bleve : Bleve I B) (s : Sandbox) (turns : List Turn)
    → (run bleve s turns new_system).index.building ≡ true
    → (t : ℕ) × ((more : List Turn)
        → 4 ≤ turns_of t more
        → Frees bleve s more (run bleve s turns new_system))
rebuild-Frees bleve s turns b =
    let sys = run bleve s turns new_system in
    elim ((run-new_system-IsExclusive bleve s turns).one) [
      | inl (nb, all) ↦ absurd (false≢true (sym nb ∙ b))
      | inr (b', (t, p, others)) ↦ (
        t,
        λ more four. run-Frees bleve s more t sys (record {
          building = b;
          inside = inside-remaining bleve s _ (sys.threads t) p;
          bounded = omega (arith, remaining_le bleve s (sys.threads t), four);
          others = others;
        }),
      )
    ]

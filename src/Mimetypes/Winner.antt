-- ===== src/Mimetypes/Winner.antt =====
-- internal/mimetypes/mimetypes.go: which type names an extension.
use nimbus_fs.Prelude.{
  Bool, true, false, if◌then◌else◌, ◌≡◌, ◌≢◌, ◌⊎◌, inl, inr, refl, sym, subst, Option, none, some,
  List, [], ◌∷◌, GoString, codes, str_eq, str_eq_iff, str_eq_refl, ℤ, pos, negsuc, ltb_ℤ, All,
  arith, Bool-cases,
}
use nimbus_fs.Prelude.Dict.{Dict, get, get-put}
use nimbus_fs.GoLib.Strings.{is_blank}
use nimbus_fs.Mimetypes.{
  Glob, MimeType, Candidate, default_comment, single_extension, weight_of, beats, offer, offer_glob,
  offer_globs, offer_types, names_of, parse,
}

below_trans : (a b c : ℤ) → ltb_ℤ b a ≡ false → ltb_ℤ b c ≡ true → ltb_ℤ a c ≡ true
below_trans (pos a) (pos b) (pos c) h k = ground arith
below_trans (pos a) (pos b) (negsuc c) h k = ground arith
below_trans (pos a) (negsuc b) (pos c) h k = ground arith
below_trans (pos a) (negsuc b) (negsuc c) h k = ground arith
below_trans (negsuc a) (pos b) (pos c) h k = ground arith
below_trans (negsuc a) (pos b) (negsuc c) h k = ground arith
below_trans (negsuc a) (negsuc b) (pos c) h k = ground arith
below_trans (negsuc a) (negsuc b) (negsuc c) h k = ground arith

below_not_above : (a b : ℤ) → ltb_ℤ a b ≡ true → ltb_ℤ b a ≡ false
below_not_above (pos a) (pos b) h = ground arith
below_not_above (pos a) (negsuc b) h = ground arith
below_not_above (negsuc a) (pos b) h = ground arith
below_not_above (negsuc a) (negsuc b) h = ground arith

never_above : (a : ℤ) → ltb_ℤ a a ≡ false
never_above (pos a) = ground arith
never_above (negsuc a) = ground arith

-- The candidates that were offered so far, each for its extension, the newest first.
abbrev pub Offers : Type 0
Offers = List (GoString × Candidate)

-- Every earlier candidate for the extension has less weight.
abbrev pub AllBelow : GoString → ℤ → Offers → Type 0
AllBelow ext w seen = All (λ o. o.0 ≡ ext → ltb_ℤ o.1.weight w ≡ true) seen

-- The candidate was offered for the extension, each earlier one has less weight, and no later one more.
abbrev pub Wins : GoString → Candidate → Offers → Type 0
Wins ext c [] = ⊥
Wins ext c (o ∷ seen) =
    ((o.0 ≡ ext) × (o.1 ≡ c) × AllBelow ext c.weight seen)
    ⊎ ((o.0 ≡ ext → ltb_ℤ c.weight o.1.weight ≡ false) × Wins ext c seen)

-- What the map holds for an extension is the winner; where it holds nothing, nothing was offered.
abbrev pub IsBest : GoString → Option Candidate → Offers → Type 0
IsBest ext none seen = All (λ o. o.0 ≢ ext) seen
IsBest ext (some c) seen = Wins ext c seen

-- A candidate of more weight than the winner has more than all.
Wins-AllBelow :
    (ext : GoString) (c : Candidate) (w : ℤ) (seen : Offers)
    → ltb_ℤ c.weight w ≡ true
    → Wins ext c seen
    → AllBelow ext w seen
Wins-AllBelow ext c w [] less h = absurd h
Wins-AllBelow ext c w (o ∷ seen) less (inl (same, is_c, below)) =
    (λ e. rw is_c less, all_below seen below)
  where
    all_below : (seen : Offers) → AllBelow ext c.weight seen → AllBelow ext w seen
    all_below [] b = tt
    all_below (p ∷ ps) (b, bs) = (
      λ e. below_trans p.1.weight c.weight w (below_not_above p.1.weight c.weight (b e)) less,
      all_below ps bs,
    )
Wins-AllBelow ext c w (o ∷ seen) less (inr (not_above, h)) =
    (λ e. below_trans o.1.weight c.weight w (not_above e) less, Wins-AllBelow ext c w seen less h)

nothing-AllBelow :
    (ext : GoString) (w : ℤ) (seen : Offers) → All (λ o. o.0 ≢ ext) seen → AllBelow ext w seen
nothing-AllBelow ext w [] h = tt
nothing-AllBelow ext w (o ∷ seen) (n, h) = (λ e. absurd (n e), nothing-AllBelow ext w seen h)

-- The best after one more offer for an extension.
abbrev best_of : Candidate → Option Candidate → Option Candidate
best_of c old = if beats c old then some c else old

best_of-IsBest :
    (ext : GoString) (c : Candidate) (old : Option Candidate) (seen : Offers)
    → IsBest ext old seen
    → IsBest ext (best_of c old) ((ext, c) ∷ seen)
best_of-IsBest ext c none seen h = inl (refl, refl, nothing-AllBelow ext c.weight seen h)
best_of-IsBest ext c (some cur) seen h = elim (Bool-cases (ltb_ℤ cur.weight c.weight)) [
  | inl e ↦ rw e (inl (refl, refl, Wins-AllBelow ext cur c.weight seen e h))
  | inr e ↦ rw e (inr (λ _. e, h))
]

other-IsBest :
    (ext ext' : GoString) (c : Candidate) (old : Option Candidate) (seen : Offers)
    → (ext' ≢ ext)
    → IsBest ext old seen
    → IsBest ext old ((ext', c) ∷ seen)
other-IsBest ext ext' c none seen n h = (n, h)
other-IsBest ext ext' c (some cur) seen n h = inr (λ e. absurd (n e), h)

-- The map holds the best of what was offered.
abbrev pub HoldsBest : Dict Candidate → Offers → Type 0
HoldsBest best seen = (ext : GoString) → IsBest ext (get ext best) seen

offer_same :
    (ext : GoString) (c : Candidate) (best : Dict Candidate)
    → get ext (offer ext c best) ≡ best_of c (get ext best)
unfolding offer
offer_same ext c best = elim (Bool-cases (beats c (get ext best))) [
  | inl e ↦ rw (e, get-put ext ext c best, str_eq_refl ext) refl
  | inr e ↦ rw e refl
]

offer_other :
    (k ext : GoString) (c : Candidate) (best : Dict Candidate)
    → str_eq ext k ≡ false
    → get k (offer ext c best) ≡ get k best
unfolding offer
offer_other k ext c best n = elim (Bool-cases (beats c (get ext best))) [
  | inl e ↦ rw (e, get-put ext k c best, n) refl
  | inr e ↦ rw e refl
]

offer-HoldsBest :
    (ext : GoString) (c : Candidate) (best : Dict Candidate) (seen : Offers)
    → HoldsBest best seen
    → HoldsBest (offer ext c best) ((ext, c) ∷ seen)
offer-HoldsBest ext c best seen h k = elim (Bool-cases (str_eq ext k)) [
  | inl e ↦
      subst (λ j. IsBest j (get j (offer ext c best)) ((ext, c) ∷ seen)) ((str_eq_iff ext k).0 e)
        (subst (λ o. IsBest ext o ((ext, c) ∷ seen)) (sym (offer_same ext c best))
          (best_of-IsBest ext c (get ext best) seen (h ext)))
  | inr e ↦
      subst (λ o. IsBest k o ((ext, c) ∷ seen)) (sym (offer_other k ext c best e))
        (other-IsBest k ext c (get k best) seen (λ same. cc (e, (str_eq_iff ext k).1 same)) (h k))
]

-- The offers of a database, in its order, before those that were made already.
abbrev pub glob_offer : GoString → Glob → Option GoString → Offers → Offers
glob_offer name g none seen = seen
glob_offer name g (some ext) seen =
    (ext, record { weight = weight_of g.weight; name = name }) ∷ seen

abbrev pub offers_of_globs : GoString → List Glob → Offers → Offers
offers_of_globs name [] seen = seen
offers_of_globs name (g ∷ gs) seen =
    offers_of_globs name gs
      (glob_offer name g (single_extension g.pattern (str_eq g.case_sensitive (codes "true"))) seen)

-- A type without a comment in no language makes none.
abbrev pub offers_of_types : List MimeType → Offers → Offers
offers_of_types [] seen = seen
offers_of_types (t ∷ ts) seen =
    let name = default_comment t.comments in
    let offered = offers_of_globs name t.globs seen in
    offers_of_types ts (if is_blank name then seen else offered)

offer_glob-HoldsBest :
    (name : GoString) (g : Glob) (ext : Option GoString) (best : Dict Candidate) (seen : Offers)
    → HoldsBest best seen
    → HoldsBest (offer_glob name g ext best) (glob_offer name g ext seen)
offer_glob-HoldsBest name g none best seen h = h
offer_glob-HoldsBest name g (some ext) best seen h = offer-HoldsBest ext _ best seen h

offer_globs-HoldsBest :
    (name : GoString) (gs : List Glob) (best : Dict Candidate) (seen : Offers)
    → HoldsBest best seen
    → HoldsBest (offer_globs name gs best) (offers_of_globs name gs seen)
unfolding offer_globs
offer_globs-HoldsBest name [] best seen h = h
offer_globs-HoldsBest name (g ∷ gs) best seen h =
    offer_globs-HoldsBest name gs _ _ (offer_glob-HoldsBest name g _ best seen h)

offer_types-HoldsBest :
    (ts : List MimeType) (best : Dict Candidate) (seen : Offers)
    → HoldsBest best seen
    → HoldsBest (offer_types ts best) (offers_of_types ts seen)
unfolding offer_types
offer_types-HoldsBest [] best seen h = h
offer_types-HoldsBest (t ∷ ts) best seen h =
    offer_types-HoldsBest ts _ _ (given (is_blank (default_comment t.comments)))
  where
    given :
        (b : Bool)
        → HoldsBest
            (if b then best else offer_globs (default_comment t.comments) t.globs best)
            (if b then seen else offers_of_globs (default_comment t.comments) t.globs seen)
    given true = h
    given false = offer_globs-HoldsBest _ t.globs best seen h

abbrev pub name_at : Option Candidate → Option GoString
name_at none = none
name_at (some c) = some c.name

get-names_of :
    (ext : GoString) (best : Dict Candidate) → get ext (names_of best) ≡ name_at (get ext best)
unfolding names_of get
get-names_of ext [] = refl
get-names_of ext ((e, c) ∷ best) = elim (Bool-cases (str_eq e ext)) [
  | inl b ↦ rw b refl
  | inr b ↦ rw b (get-names_of ext best)
]

-- Where the database is well-formed, parse gives an extension the name of the type whose glob for it
-- has the most weight, the first of them in the database where several have; it gives it none exactly
-- where no type with a comment in no language has a glob for it. The offers stand newest first.
pub parse-IsBest :
    (decode : GoString → Option (List MimeType)) (text : GoString) (types : List MimeType)
    → decode text ≡ some types
    → (names : Dict GoString) × (parse decode text ≡ some names)
      × ((ext : GoString)
          → (best : Option Candidate) × IsBest ext best (offers_of_types types [])
            × (get ext names ≡ name_at best))
unfolding parse get
parse-IsBest decode text types e = (
  names_of (offer_types types []),
  rw (e, parse) refl,
  λ ext. (
    get ext (offer_types types []),
    offer_types-HoldsBest types [] [] (λ k. tt) ext,
    get-names_of ext (offer_types types []),
  ),
)

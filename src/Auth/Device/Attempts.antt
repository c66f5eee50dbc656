-- ===== src/Auth/Device/Attempts.antt =====
-- The retry budget, and the single use of a challenge.
use nimbus_fs.Prelude.{
  ℕ, zero, suc, ◌+◌, ◌≤◌, ◌==◌, ==_iff, leb, Bool, true, false, if◌then◌else◌, ◌≡◌, ◌⊎◌, refl,
  subst, ap, ◌∙◌, inl, inr, none, some, Option-cases, Bool-cases, GoString, str_eq_iff, str_eq_refl,
  Time, arith,
}
use nimbus_fs.Prelude.Dict.{Dict, get, remove, get-remove}
use nimbus_fs.Auth.Device.{
  approved, Challenge, Address, DeviceStore, update, deref, unless_expired, by_code, by_poll_token,
  register_attempt, attempted, count_attempt, approve, consume, max_verify_attempts,
}
use nimbus_fs.Auth.Device.Invariant.{Inv, register_attempt-Inv, Reach, Reach-Inv}

-- RegisterAttempt called `n` times in a row with one code.
pub register_times : ℕ → DeviceStore → GoString → DeviceStore
register_times zero st code = st
register_times (suc n) st code = register_times n (register_attempt st code).2 code

-- The code is unknown, or leads to a challenge with at least `n` failed attempts.
abbrev Spent : ℕ → DeviceStore → GoString → Type 0
Spent n st code =
    (get code st.by_code ≡ none)
    ⊎ ((a : Address) × (c : Challenge) × (get code st.by_code ≡ some a)
        × (st.heap a ≡ some c)
        × (n ≤ c.attempts))

module _ (st : DeviceStore) (code : GoString) (v : Inv st) where
  -- One more failure is counted, or the code is gone.
  register_attempt-Spent :
      (n : ℕ) → Spent n st code → Spent (suc n) (register_attempt st code).2 code
  unfolding register_attempt
  register_attempt-Spent n (inl e) = rw (e, register_attempt) (inl e)
  register_attempt-Spent n (inr (a, c, at, here, le)) =
      rw (at, register_attempt, deref) (rw (here, deref) (counted a c at here le))
    where
      counted :
          (a : Address) (c : Challenge)
          → get code st.by_code ≡ some a
          → st.heap a ≡ some c
          → n ≤ c.attempts
          → Spent (suc n) (count_attempt st a c).2 code
      counted a c at here le = elim (Bool-cases (leb max_verify_attempts (suc c.attempts))) [
        | inl e ↦ rw e (
            inl (
              ground (
                arith,
                get-remove c.user_code code st.by_code,
                v.code_keyed code a c at here,
                str_eq_iff c.user_code code,
              )))
        | inr e ↦ rw e (inr (a, attempted c, at, ground (arith, ==_iff a a), omega arith))
      ]

register_times-Spent :
    (n m : ℕ) (st : DeviceStore) (code : GoString)
    → Inv st
    → Spent m st code
    → Inv (register_times n st code) × Spent (m + n) (register_times n st code) code
unfolding register_times
register_times-Spent zero m st code v h =
    (v, subst (λ k. Spent k st code) (let e : m ≡ m + zero = omega arith in e) h)
register_times-Spent (suc n) m st code v h =
    let (v', h') =
      register_times-Spent n (suc m) (register_attempt st code).2 code
        (register_attempt-Inv st code v) (register_attempt-Spent st code v m h) in
    (
      v',
      subst (λ k. Spent k (register_times n (register_attempt st code).2 code) code)
          (let e : suc m + n ≡ m + suc n = omega arith in e) h',
    )

Spent-from_start :
    (st : DeviceStore) (code : GoString) → Spent 0 st code ⊎ (deref st (get code st.by_code) ≡ none)
Spent-from_start st code = elim (Option-cases (get code st.by_code)) [
  | inl e ↦ inl (inl e)
  | inr (a, e) ↦ elim (Option-cases (st.heap a)) [
    | inl e' ↦ inr (rw (e, deref) (rw (e', deref) refl))
    | inr (c, e') ↦ inl (inr (a, c, e, e', omega arith))
  ]
]

unknown_stays :
    (n : ℕ) (st : DeviceStore) (code : GoString)
    → deref st (get code st.by_code) ≡ none
    → register_times n st code ≡ st
unfolding register_times register_attempt
unknown_stays zero st code h = refl
unknown_stays (suc n) st code h =
    ap (λ (t : DeviceStore). register_times n t code)
      (let e : (register_attempt st code).2 ≡ st = rw (h, register_attempt) refl in e)
    ∙ unknown_stays n st code h

-- In any store that calls lead to, five failed attempts in a row with one code end it: the code is
-- unknown from then on, whatever the time.
pub five_failures :
    (st : DeviceStore) (code : GoString) (now : Time)
    → Reach st
    → by_code (register_times max_verify_attempts st code) code now ≡ none
unfolding by_code
five_failures st code now r = elim (Spent-from_start st code) [
  | inl h ↦ unknown (register_times-Spent max_verify_attempts 0 st code (Reach-Inv r) h)
  | inr e ↦ rw (unknown_stays max_verify_attempts st code e) (rw e refl)
]
  where
    unknown :
        Inv (register_times max_verify_attempts st code)
          × Spent (0 + max_verify_attempts) (register_times max_verify_attempts st code) code
        → unless_expired now (
            deref
              (register_times max_verify_attempts st code)
              (get code (register_times max_verify_attempts st code).by_code))
          ≡ none
    unknown (v, inl e) = rw e refl
    unknown (v, inr (a, c, at, here, le)) =
        absurd (omega (arith, (v.code_keyed code a c at here).1))

-- In any store that calls lead to, a poll token that leads to a challenge can be consumed once: after
-- that neither it nor the code of its challenge leads anywhere.
pub consume_single_use :
    (st : DeviceStore) (token : GoString) (a : Address) (c : Challenge) (now : Time)
    → Reach st
    → get token st.by_token ≡ some a
    → st.heap a ≡ some c
    → (by_poll_token (consume st token) token now ≡ none)
      × (by_code (consume st token) c.user_code now ≡ none)
unfolding consume by_poll_token by_code
consume_single_use st token a c now r at here =
    rw (at, consume, deref)
      (rw (here, deref) (rw (gone_token st.by_token) refl, rw (gone_code st.by_code) refl))
  where
    gone_token : (m : Dict Address) → get token (remove c.poll_token m) ≡ none
    gone_token m = ground (
      arith,
      get-remove c.poll_token token m,
      (Reach-Inv r).token_keyed token a c at here,
      str_eq_iff c.poll_token token,
    )

    gone_code : (m : Dict Address) → get c.user_code (remove c.user_code m) ≡ none
    gone_code m = ground (arith, get-remove c.user_code c.user_code m, str_eq_refl c.user_code)

approve_known :
    (st : DeviceStore) (code : GoString) (a : Address) (c : Challenge)
    → get code st.by_code ≡ some a
    → st.heap a ≡ some c
    → approve st code
      ≡ (true, record st { heap = update st.heap a (record c { status = approved }) })
unfolding approve
approve_known st code a c ca ha = rw (ca, approve, deref) (rw (ha, deref) refl)

-- Approve marks the challenge that its code leads to, as each poll token that leads to a challenge
-- sees it, and no other one.
pub by_poll_token-approve :
    (st : DeviceStore) (code token : GoString) (a b : Address) (c d : Challenge) (now : Time)
    → get code st.by_code ≡ some a
    → st.heap a ≡ some c
    → get token st.by_token ≡ some b
    → st.heap b ≡ some d
    → by_poll_token (approve st code).1 token now
      ≡ unless_expired now (some (b, if a == b then record c { status = approved } else d))
unfolding by_poll_token
by_poll_token-approve st code token a b c d now ca ha tb hb =
    ap (λ (r : Bool × DeviceStore). unless_expired now (deref r.1 (get token r.1.by_token)))
      (approve_known st code a c ca ha)
    ∙ rw (tb, deref) (split (Bool-cases (a == b)))
  where
    split :
        ((a == b) ≡ true) ⊎ ((a == b) ≡ false)
        → unless_expired now (
            deref (record st { heap = update st.heap a (record c { status = approved }) }) (some b))
          ≡ unless_expired now (some (b, if a == b then record c { status = approved } else d))
    split (inl e) = rw (e, deref) refl
    split (inr e) = rw (e, deref) (rw (hb, deref) refl)

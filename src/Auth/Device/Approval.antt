-- ===== src/Auth/Device/Approval.antt =====
-- What is true of each challenge that is approved, in every store that the calls lead to.
use nimbus_fs.Prelude.{
  suc, leb, ◌==◌, ◌≡◌, refl, sym, ap, ◌∙◌, subst, inl, inr, Option, none, some, Option-cases,
  Bool-cases, [], ◌∷◌, GoString, Time, arith,
}
use nimbus_fs.Prelude.Dict.{Dict, get, remove}
use nimbus_fs.Auth.Device.{
  approved, Challenge, Address, DeviceStore, Random, empty, update, deref, is_expired, sweep_entry,
  sweep_entries, sweep, new_challenge, insert, new, unless_expired, by_code, by_poll_token,
  attempted, count_attempt, register_attempt, approve, consume, max_verify_attempts,
}

unless_expired-eq-some :
    (now : Time) (o : Option (Address × Challenge)) (c : Challenge)
    → unless_expired now o ≡ some c
    → (a : Address) × (o ≡ some (a, c))
unless_expired-eq-some now none c h = cc
unless_expired-eq-some now (some (a, d)) c h = (a, ground arith)

deref-eq-some :
    (st : DeviceStore) (o : Option Address) (a : Address) (c : Challenge)
    → deref st o ≡ some (a, c)
    → (o ≡ some a) × (st.heap a ≡ some c)
deref-eq-some st none a c h = cc
deref-eq-some st (some b) a c h = elim (Option-cases (st.heap b)) [
  | inl e ↦ cc (e, h)
  | inr (d, e) ↦
      let k : some (b, d) ≡ some (a, c) = sym (rw (e, deref) refl) ∙ h in
      let same : b ≡ a = cc k in (ap some same, subst (λ x. st.heap x ≡ some c) same (e ∙ cc k))
]

pub by_code-eq-some :
    (st : DeviceStore) (code : GoString) (now : Time) (c : Challenge)
    → by_code st code now ≡ some c
    → (a : Address) × (get code st.by_code ≡ some a) × (st.heap a ≡ some c)
unfolding by_code
by_code-eq-some st code now c h =
    let (a, e) = unless_expired-eq-some now _ c h in
    let (at, here) = deref-eq-some st _ a c e in (a, at, here)

pub by_poll_token-eq-some :
    (st : DeviceStore) (token : GoString) (now : Time) (c : Challenge)
    → by_poll_token st token now ≡ some c
    → (a : Address) × (get token st.by_token ≡ some a) × (st.heap a ≡ some c)
unfolding by_poll_token
by_poll_token-eq-some st token now c h =
    let (a, e) = unless_expired-eq-some now _ c h in
    let (at, here) = deref-eq-some st _ a c e in (a, at, here)

sweep_entries-heap :
    (now : Time) (entries : Dict Address) (st : DeviceStore)
    → (sweep_entries now entries st).heap ≡ st.heap
unfolding sweep_entries
sweep_entries-heap now [] st = refl
sweep_entries-heap now ((code, a) ∷ entries) st =
    sweep_entries-heap now entries (sweep_entry now code a st)
    ∙ elim (Bool-cases (is_expired now (st.heap a))) [ inl e ↦ rw e refl | inr e ↦ rw e refl ]

-- A statement about the nonce and the user of each approved challenge, whether or not a code or a
-- token still leads to it.
module _ (Approved : GoString → GoString → Type 0) where
  abbrev pub HoldsOfApproved : DeviceStore → Type 0
  HoldsOfApproved st =
      (a : Address) (c : Challenge)
      → st.heap a ≡ some c
      → c.status ≡ approved
      → Approved c.nonce c.username

  -- Writing one challenge of which it holds.
  update-HoldsOfApproved :
      (st : DeviceStore) (a : Address) (c : Challenge) (next : Address)
      (codes tokens : Dict Address)
      → HoldsOfApproved st
      → (c.status ≡ approved → Approved c.nonce c.username)
      → HoldsOfApproved
          (record { heap = update st.heap a c; next = next; by_code = codes; by_token = tokens })
  update-HoldsOfApproved st a c next codes tokens h k b d e s = elim (Bool-cases (a == b)) [
    | inl same ↦
        let eq : c ≡ d = cc (let z : some c ≡ some d = sym (rw same refl) ∙ e in z) in
        subst (λ x. Approved x.nonce x.username) eq (k (ap (λ x. x.status) eq ∙ s))
    | inr other ↦ h b d (sym (rw other refl) ∙ e) s
  ]

  pub empty-HoldsOfApproved : HoldsOfApproved empty
  empty-HoldsOfApproved a c e s = cc

  pub new-HoldsOfApproved :
      (st : DeviceStore) (r : Option Random) (username : GoString) (now : Time) (c : Challenge)
      (st' : DeviceStore)
      → HoldsOfApproved st
      → new st r username now ≡ some (c, st')
      → HoldsOfApproved st'
  unfolding new sweep
  new-HoldsOfApproved st none username now c st' h e = cc
  new-HoldsOfApproved st (some r) username now c st' h e =
      subst HoldsOfApproved {x = insert (sweep st now) (new_challenge r username now)} {y = st'}
        (cc e)
        (update-HoldsOfApproved (sweep st now) (sweep st now).next (new_challenge r username now)
          (insert (sweep st now) (new_challenge r username now)).next
          (insert (sweep st now) (new_challenge r username now)).by_code
          (insert (sweep st now) (new_challenge r username now)).by_token
          (λ a d at s. h a d (ap (λ f. f a) (sym (sweep_entries-heap now st.by_code st)) ∙ at) s)
          (λ s. cc))

  pub register_attempt-HoldsOfApproved :
      (st : DeviceStore) (code : GoString)
      → HoldsOfApproved st
      → HoldsOfApproved (register_attempt st code).2
  unfolding register_attempt
  register_attempt-HoldsOfApproved st code h =
      elim (Option-cases (deref st (get code st.by_code))) [
        | inl e ↦ rw (e, register_attempt) h
        | inr ((a, c), e) ↦
            rw (e, register_attempt) (counted a c (deref-eq-some st (get code st.by_code) a c e).1)
      ]
    where
      counted :
          (a : Address) (c : Challenge)
          → st.heap a ≡ some c
          → HoldsOfApproved (count_attempt st a c).2
      counted a c here = elim (Bool-cases (leb max_verify_attempts (suc c.attempts))) [
        | inl e ↦ rw e (
            update-HoldsOfApproved st a (attempted c) st.next (remove c.user_code st.by_code)
              (remove c.poll_token st.by_token) h (h a c here))
        | inr e ↦ rw e (
            update-HoldsOfApproved st a (attempted c) st.next st.by_code st.by_token h (h a c here))
      ]

  pub approve-HoldsOfApproved :
      (st : DeviceStore) (code : GoString) (now : Time) (c : Challenge)
      → HoldsOfApproved st
      → by_code st code now ≡ some c
      → Approved c.nonce c.username
      → HoldsOfApproved (approve st code).1
  unfolding approve
  approve-HoldsOfApproved st code now c h found holds =
      let (a, at, here) = by_code-eq-some st code now c found in
      rw (at, approve, deref)
        (rw (here, deref)
          (update-HoldsOfApproved st a (record c { status = approved }) st.next st.by_code
            st.by_token h (λ s. holds)))

  pub consume-HoldsOfApproved :
      (st : DeviceStore) (token : GoString)
      → HoldsOfApproved st
      → HoldsOfApproved (consume st token)
  unfolding consume
  consume-HoldsOfApproved st token h = elim (Option-cases (deref st (get token st.by_token))) [
    | inl e ↦ rw (e, consume) h
    | inr ((a, c), e) ↦ rw (e, consume) h
  ]

-- ===== src/Auth/Device/Invariant.antt =====
-- What holds of the store after any sequence of calls.
use nimbus_fs.Prelude.{
  suc, ◌<◌, ==_iff, leb, Bool, true, false, if◌then◌else◌, ◌≡◌, refl, subst, inl, inr, Option, none,
  some, Option-cases, Bool-cases, [], ◌∷◌, GoString, str_eq_iff, Time, arith,
}
use nimbus_fs.Prelude.Dict.{Dict, get, remove, get-remove, get-put}
use nimbus_fs.Auth.Device.{
  approved, Challenge, Address, DeviceStore, Random, empty, update, deref, is_expired, token_at,
  sweep_entry, sweep_entries, sweep, new_challenge, insert, new, drop_challenge, register_attempt,
  attempted, count_attempt, approve, consume, max_verify_attempts,
}

-- Each code leads to a challenge of that code with attempts left, each token to one of that token.
pub record Inv (st : DeviceStore) : Type 0 where
  pub code_allocated : (k : GoString) (a : Address) → get k st.by_code ≡ some a → a < st.next
  pub token_allocated : (k : GoString) (a : Address) → get k st.by_token ≡ some a → a < st.next
  pub code_keyed :
      (k : GoString) (a : Address) (c : Challenge)
      → get k st.by_code ≡ some a
      → st.heap a ≡ some c
      → (c.user_code ≡ k) × (c.attempts < max_verify_attempts)
  pub token_keyed :
      (k : GoString) (a : Address) (c : Challenge)
      → get k st.by_token ≡ some a
      → st.heap a ≡ some c
      → c.poll_token ≡ k

pub empty-Inv : Inv empty
unfolding get
empty-Inv = record {
  code_allocated = λ k a h. cc;
  token_allocated = λ k a h. cc;
  code_keyed = λ k a c h e. cc;
  token_keyed = λ k a c h e. cc;
}

-- Removing keys keeps the invariant.
get-of_remove :
    (k j : GoString) (a : Address) (m : Dict Address)
    → get j (remove k m) ≡ some a
    → get j m ≡ some a
get-of_remove k j a m h = ground (arith, get-remove k j m)

remove-Inv :
    (st : DeviceStore) (k t : GoString)
    → Inv st
    → Inv (record st { by_code = remove k st.by_code; by_token = remove t st.by_token })
remove-Inv st k t v = record {
  code_allocated = λ j a h. v.code_allocated j a (get-of_remove k j a st.by_code h);
  token_allocated = λ j a h. v.token_allocated j a (get-of_remove t j a st.by_token h);
  code_keyed = λ j a c h e. v.code_keyed j a c (get-of_remove k j a st.by_code h) e;
  token_keyed = λ j a c h e. v.token_keyed j a c (get-of_remove t j a st.by_token h) e;
}

sweep_entries-Inv :
    (now : Time) (entries : Dict Address) (st : DeviceStore)
    → Inv st
    → Inv (sweep_entries now entries st)
unfolding sweep_entries
sweep_entries-Inv now [] st v = v
sweep_entries-Inv now ((code, a) ∷ entries) st v =
    sweep_entries-Inv now entries (sweep_entry now code a st) (one (is_expired now (st.heap a)))
  where
    one :
        (b : Bool)
        → Inv (
            if b
            then record st {
              by_code = remove code st.by_code;
              by_token = remove (token_at (st.heap a)) st.by_token;
            }
            else st)
    one true = remove-Inv st code (token_at (st.heap a)) v
    one false = v

sweep-Inv : (st : DeviceStore) (now : Time) → Inv st → Inv (sweep st now)
unfolding sweep
sweep-Inv st now v = sweep_entries-Inv now st.by_code st v

insert-Inv :
    (st : DeviceStore) (c : Challenge)
    → c.attempts < max_verify_attempts
    → Inv st
    → Inv (insert st c)
insert-Inv st c lt v = record {
  code_allocated =
      λ k a h. ground (arith, get-put c.user_code k st.next st.by_code, v.code_allocated k a);
  token_allocated =
      λ k a h. ground (arith, get-put c.poll_token k st.next st.by_token, v.token_allocated k a);
  code_keyed = λ k a d h e. ground (
    arith,
    get-put c.user_code k st.next st.by_code,
    v.code_allocated k a,
    v.code_keyed k a d,
    str_eq_iff c.user_code k,
  );
  token_keyed = λ k a d h e. ground (
    arith,
    get-put c.poll_token k st.next st.by_token,
    v.token_allocated k a,
    v.token_keyed k a d,
    str_eq_iff c.poll_token k,
  );
}

-- A challenge that is written over keeps its code and token.
overwrite-Inv :
    (st : DeviceStore) (a : Address) (c d : Challenge)
    → st.heap a ≡ some c
    → d.user_code ≡ c.user_code
    → d.poll_token ≡ c.poll_token
    → d.attempts < max_verify_attempts
    → Inv st
    → Inv (record st { heap = update st.heap a d })
overwrite-Inv st a c d at code token lt v = record {
  code_allocated = v.code_allocated;
  token_allocated = v.token_allocated;
  code_keyed = λ k b x h e. ground (arith, v.code_keyed k b x h, v.code_keyed k b c h, ==_iff a b);
  token_keyed =
      λ k b x h e. ground (arith, v.token_keyed k b x h, v.token_keyed k b c h, ==_iff a b);
}

pub deref-eq-some :
    (st : DeviceStore) (o : Option Address) (a : Address) (c : Challenge)
    → deref st o ≡ some (a, c)
    → (o ≡ some a) × (st.heap a ≡ some c)
deref-eq-some st none a c h = cc
deref-eq-some st (some b) a c h = elim (Option-cases (st.heap b)) [
  | inl e ↦ cc (rw (e, deref) at h)
  | inr (d, e) ↦ ground arith
]

-- The last attempt: the challenge is written over and its keys are removed.
exhaust-Inv :
    (st : DeviceStore) (a : Address) (c d : Challenge)
    → st.heap a ≡ some c
    → d.user_code ≡ c.user_code
    → d.poll_token ≡ c.poll_token
    → Inv st
    → Inv (drop_challenge (record st { heap = update st.heap a d }) d)
exhaust-Inv st a c d at code token v = record {
  code_allocated = λ k b h. v.code_allocated k b (get-of_remove d.user_code k b st.by_code h);
  token_allocated = λ k b h. v.token_allocated k b (get-of_remove d.poll_token k b st.by_token h);
  code_keyed = λ k b x h e. ground (
    arith,
    get-remove d.user_code k st.by_code,
    v.code_keyed k b x,
    v.code_keyed k b c,
    ==_iff a b,
    str_eq_iff d.user_code k,
  );
  token_keyed = λ k b x h e. ground (
    arith,
    get-remove d.poll_token k st.by_token,
    v.token_keyed k b x,
    v.token_keyed k b c,
    ==_iff a b,
    str_eq_iff d.poll_token k,
  );
}

new-Inv :
    (st st' : DeviceStore) (r : Option Random) (username : GoString) (now : Time) (c : Challenge)
    → new st r username now ≡ some (c, st')
    → Inv st
    → Inv st'
unfolding new
new-Inv st st' none username now c h v = cc
new-Inv st st' (some r) username now c h v =
    let same : insert (sweep st now) (new_challenge r username now) ≡ st' = ground arith in
    subst Inv same
      (insert-Inv (sweep st now) (new_challenge r username now) (omega arith) (sweep-Inv st now v))

module _ (st : DeviceStore) (code : GoString) (v : Inv st) where
  pub register_attempt-Inv : Inv (register_attempt st code).2
  unfolding register_attempt
  register_attempt-Inv = elim (Option-cases (deref st (get code st.by_code))) [
    | inl e ↦ rw (e, register_attempt) v
    | inr ((a, c), e) ↦ rw (e, register_attempt) (counted a c (deref-eq-some st _ a c e).1)
  ]
    where
      counted : (a : Address) (c : Challenge) → st.heap a ≡ some c → Inv (count_attempt st a c).2
      counted a c at = elim (Bool-cases (leb max_verify_attempts (suc c.attempts))) [
        | inl e ↦ rw e (exhaust-Inv st a c (attempted c) at refl refl v)
        | inr e ↦ rw e (overwrite-Inv st a c (attempted c) at refl refl (ground arith) v)
      ]

  approve-Inv : Inv (approve st code).1
  unfolding approve
  approve-Inv = elim (Option-cases (deref st (get code st.by_code))) [
    | inl e ↦ rw (e, approve) v
    | inr ((a, c), e) ↦
        let (k, at) = deref-eq-some st _ a c e in
        rw (e, approve)
          (overwrite-Inv st a c (record c { status = approved }) at refl refl
            (v.code_keyed code a c k at).1 v)
  ]

  consume-Inv : Inv (consume st code)
  unfolding consume
  consume-Inv = elim (Option-cases (deref st (get code st.by_token))) [
    | inl e ↦ rw (e, consume) v
    | inr ((a, c), e) ↦ rw (e, consume) (remove-Inv st c.user_code c.poll_token v)
  ]

-- The calls that change the store, in any order and at any time.
pub data Step (st : DeviceStore) : DeviceStore → Type 0 where
  starts :
      {st' : DeviceStore} (r : Random) (username : GoString) (now : Time) (c : Challenge)
      → new st (some r) username now ≡ some (c, st')
      → Step st st'
  fails : (code : GoString) → Step st (register_attempt st code).2
  approves : (code : GoString) → Step st (approve st code).1
  consumes : (token : GoString) → Step st (consume st token)

pub data Reach : DeviceStore → Type 0 where
  start : Reach empty
  next : {st st' : DeviceStore} → Reach st → Step st st' → Reach st'

Step-Inv : {st st' : DeviceStore} → Step st st' → Inv st → Inv st'
Step-Inv {st} {st'} (starts r username now c h) v = new-Inv st st' (some r) username now c h v
Step-Inv {st} (fails code) v = register_attempt-Inv st code v
Step-Inv {st} (approves code) v = approve-Inv st code v
Step-Inv {st} (consumes token) v = consume-Inv st token v

-- After any calls, each code leads to a challenge with that code and fewer than five failed
-- attempts, and each poll token to a challenge with that token.
pub Reach-Inv : {st : DeviceStore} → Reach st → Inv st
Reach-Inv start = empty-Inv
Reach-Inv (next r s) = Step-Inv s (Reach-Inv r)

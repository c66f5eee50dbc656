-- ===== src/Auth/Device.antt =====
-- internal/auth/sshdevice.go: logins by SSH key that are under way. Both maps hold pointers, so the
-- store is a heap of challenges and two maps from text to addresses: a challenge that is changed
-- through its code is the one that its poll token leads to.
pub mod Invariant
pub mod Attempts
pub mod Approval
use nimbus_fs.Prelude.{
  ℕ, take, zero, suc, ◌+◌, ◌-◌, ◌*◌, ◌==◌, ltb, leb, Bool, true, false, if◌then◌else◌, Option, none,
  some, List, [], ◌∷◌, GoString, Time, minute,
}
use nimbus_fs.Prelude.Dict.{Dict, get, put, remove}

-- deviceCodeTTL and maxVerifyAttempts.
abbrev pub device_code_ttl : ℕ
device_code_ttl = 5 * minute

abbrev pub max_verify_attempts : ℕ
max_verify_attempts = 5

pub data Status : Type 0 where
  pending approved : Status

-- SSHChallenge
pub record Challenge : Type 0 where
  pub user_code : GoString
  pub poll_token : GoString
  pub username : GoString
  pub nonce : GoString
  pub status : Status
  pub attempts : ℕ
  pub expires_at : Time

abbrev pub Address : Type 0
Address = ℕ

-- SSHDeviceStore. Addresses from `next` on are free.
pub record DeviceStore : Type 0 where
  pub heap : Address → Option Challenge
  pub next : Address
  pub by_code : Dict Address
  pub by_token : Dict Address

abbrev pub empty : DeviceStore
empty = record { heap = λ a. none; next = 0; by_code = []; by_token = [] }

abbrev pub update : (Address → Option Challenge) → Address → Challenge → Address → Option Challenge
update heap a c b = if a == b then some c else heap b

abbrev pub deref : DeviceStore → Option Address → Option (Address × Challenge)
deref st none = none
deref st (some a) = elim (st.heap a) [ none ↦ none | some c ↦ some (a, c) ]

abbrev pub is_expired : Time → Option Challenge → Bool
is_expired now none = false
is_expired now (some c) = ltb c.expires_at now

abbrev pub token_at : Option Challenge → GoString
token_at none = []
token_at (some c) = c.poll_token

-- One round of the loop of sweep.
abbrev pub sweep_entry : Time → GoString → Address → DeviceStore → DeviceStore
sweep_entry now code a st =
    if is_expired now (st.heap a)
    then record st {
      by_code = remove code st.by_code;
      by_token = remove (token_at (st.heap a)) st.by_token;
    }
    else st

unfoldable pub sweep_entries : Time → Dict Address → DeviceStore → DeviceStore
sweep_entries now [] st = st
sweep_entries now ((code, a) ∷ entries) st = sweep_entries now entries (sweep_entry now code a st)

unfoldable pub sweep : DeviceStore → Time → DeviceStore
sweep st now = sweep_entries now st.by_code st

-- What crypto/rand gives a new challenge, encoded.
pub record Random : Type 0 where
  pub nonce : GoString
  pub code_raw : GoString
  pub token : GoString

abbrev pub new_challenge : Random → GoString → Time → Challenge
new_challenge r username now = record {
  user_code = take 8 r.code_raw;
  poll_token = r.token;
  username = username;
  nonce = r.nonce;
  status = pending;
  attempts = 0;
  expires_at = now + device_code_ttl;
}

abbrev pub insert : DeviceStore → Challenge → DeviceStore
insert st c = record {
  heap = update st.heap st.next c;
  next = suc st.next;
  by_code = put c.user_code st.next st.by_code;
  by_token = put c.poll_token st.next st.by_token;
}

-- New: `none` is an error of crypto/rand.
unfoldable pub new :
    DeviceStore → Option Random → GoString → Time → Option (Challenge × DeviceStore)
new st none username now = none
new st (some r) username now =
    some (new_challenge r username now, insert (sweep st now) (new_challenge r username now))

abbrev pub unless_expired : Time → Option (Address × Challenge) → Option Challenge
unless_expired now none = none
unless_expired now (some (a, c)) = if ltb c.expires_at now then none else some c

-- ByCode
unfoldable pub by_code : DeviceStore → GoString → Time → Option Challenge
by_code st code now = unless_expired now (deref st (get code st.by_code))

-- ByPollToken
unfoldable pub by_poll_token : DeviceStore → GoString → Time → Option Challenge
by_poll_token st token now = unless_expired now (deref st (get token st.by_token))

abbrev pub drop_challenge : DeviceStore → Challenge → DeviceStore
drop_challenge st c = record st {
  by_code = remove c.user_code st.by_code;
  by_token = remove c.poll_token st.by_token;
}

abbrev pub attempted : Challenge → Challenge
attempted c = record c { attempts = suc c.attempts }

-- The part of RegisterAttempt behind its lookup.
abbrev pub count_attempt : DeviceStore → Address → Challenge → ℕ × Bool × DeviceStore
count_attempt st a c =
    let st' = record st { heap = update st.heap a (attempted c) } in
    if leb max_verify_attempts (suc c.attempts)
    then (0, false, drop_challenge st' (attempted c))
    else (max_verify_attempts - suc c.attempts, true, st')

-- RegisterAttempt: the attempts left, whether the challenge goes on, and the store.
unfoldable pub register_attempt : DeviceStore → GoString → ℕ × Bool × DeviceStore
register_attempt st code = elim (deref st (get code st.by_code)) [
  | none ↦ (0, false, st)
  | some (a, c) ↦ count_attempt st a c
]

-- Approve
unfoldable pub approve : DeviceStore → GoString → Bool × DeviceStore
approve st code = elim (deref st (get code st.by_code)) [
  | none ↦ (false, st)
  | some (a, c) ↦ (true, record st { heap = update st.heap a (record c { status = approved }) })
]

-- Consume
unfoldable pub consume : DeviceStore → GoString → DeviceStore
consume st token = elim (deref st (get token st.by_token)) [
  | none ↦ st
  | some (a, c) ↦ drop_challenge st c
]

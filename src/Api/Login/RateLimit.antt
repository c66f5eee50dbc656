-- ===== src/Api/Login/RateLimit.antt =====
-- internal/api/api.go: the rate limit of Login, and the session that it starts.
use nimbus_fs.Prelude.{
  ℕ, ◌-◌, ◌≤◌, ◌<◌, suc, leb, true, false, ◌||◌, ◌≡◌, refl, some, [], codes, str_eq_refl, arith,
  minute, Time, unix, ltb_ℤ, ◌+◌, sym, ap, subst, inl, inr, List, ◌∷◌, length, GoString, Bool-cases,
}
use nimbus_fs.Config.{is_empty}
use nimbus_fs.Store.{count_rows, recent_failed_attempts, record_login_attempt, record_audit}
use nimbus_fs.Api.{Request, Env, App, client_ip, audited}
use nimbus_fs.Api.Login.{LoginRequest, check_login, login_with, login, attempt_recorded}

-- The failed attempts from an address in the minute before.
abbrev pub failures : {S : Type 0} → Env S → Request → App S → ℕ
failures env r app = recent_failed_attempts app.store (client_ip r) (env.now - minute)

le→leb : (a b : ℕ) → a ≤ b → leb a b ≡ true
le→leb a b h = ground arith

leb-le : (a b : ℕ) → leb a b ≡ true → a ≤ b
leb-le a b h = ground arith

lt→leb : (a b : ℕ) → a < b → leb b a ≡ false
lt→leb a b h = ground arith

unix_later : (now : Time) → ltb_ℤ (unix now) (unix (now - minute)) ≡ false
unfolding unix
unix_later now = ground arith

-- Behind the limit.
login_limited :
    {S : Type 0} (env : Env S) (req : LoginRequest) (r : Request) (app : App S)
    → env.config.auth.pam ≡ true
    → 5 ≤ failures env r app
    → ((login env (some req) r app).0.status ≡ 429) × ((login env (some req) r app).1 ≡ app)
unfolding login login_with
login_limited env req r app on h = rw on (rw (le→leb _ _ h) (refl, refl))

-- The failure of an address is the newest that its limit counts.
failures_recorded :
    {S : Type 0} (env : Env S) (req : LoginRequest) (r : Request) (app : App S)
    → app.store.writable ≡ true
    → failures env r (
        audited env req.username
          (codes "login_failed")
          []
          (client_ip r)
          []
          (attempt_recorded env req r false app))
      ≡ suc (failures env r app)
unfolding record_login_attempt record_audit recent_failed_attempts audited
failures_recorded env req r app on =
    rw on (unfold count_rows in rw (str_eq_refl (client_ip r)) (rw (unix_later env.now) refl))

-- With password login enabled, a wrong password that is sent with a user name, below the limit, is
-- answered 401, and it adds one to the failures that the limit counts, if the database can be
-- written.
pub login_counts :
    {S : Type 0} (env : Env S) (req : LoginRequest) (r : Request) (app : App S)
    → env.config.auth.pam ≡ true
    → failures env r app < 5
    → (is_empty req.username || is_empty req.password) ≡ false
    → env.authenticate req.username req.password ≡ false
    → app.store.writable ≡ true
    → ((login env (some req) r app).0.status ≡ 401)
      × (failures env r (login env (some req) r app).1 ≡ suc (failures env r app))
unfolding login login_with check_login audited
login_counts env req r app pam below given wrong on =
    rw pam (rw (lt→leb _ _ below) (rw given (rw wrong (refl, failures_recorded env req r app on))))

-- Logins one after the other, each of its own request.
abbrev pub after_logins : {S : Type 0} → Env S → List (LoginRequest × Request) → App S → App S
after_logins env [] app = app
after_logins env ((q, r) ∷ qs) app = after_logins env qs (login env (some q) r app).1

-- Each login has a user name and a wrong password, and comes from the address.
abbrev pub AreWrong : {S : Type 0} → Env S → GoString → List (LoginRequest × Request) → Type 0
AreWrong env ip [] = Unit
AreWrong env ip ((q, r) ∷ qs) =
    (client_ip r ≡ ip)
    × ((is_empty q.username || is_empty q.password) ≡ false)
    × (env.authenticate q.username q.password ≡ false)
    × AreWrong env ip qs

module _ {S : Type 0} (env : Env S) (pam : env.config.auth.pam ≡ true) where
  login-writable :
      (q : LoginRequest) (r : Request) (app : App S)
      → (is_empty q.username || is_empty q.password) ≡ false
      → env.authenticate q.username q.password ≡ false
      → app.store.writable ≡ true
      → (login env (some q) r app).1.store.writable ≡ true
  unfolding login login_with check_login audited record_login_attempt record_audit
  login-writable q r app given wrong on = rw pam (elim (Bool-cases (leb 5 (failures env r app))) [
    | inl e ↦ rw e on
    | inr e ↦ rw e (rw given (rw wrong (rw on refl)))
  ])

  -- A wrong login counts, or the limit is reached and stays so.
  login-counts :
      (q : LoginRequest) (r : Request) (app : App S) (n : ℕ)
      → (is_empty q.username || is_empty q.password) ≡ false
      → env.authenticate q.username q.password ≡ false
      → app.store.writable ≡ true
      → 5 ≤ suc n + failures env r app
      → 5 ≤ n + failures env r (login env (some q) r app).1
  login-counts q r app n given wrong on h = elim (Bool-cases (leb 5 (failures env r app))) [
    | inl e ↦
        let same = ap (failures env r) (login_limited env q r app pam (ground (arith, e))).1 in
        omega (arith, same, leb-le 5 (failures env r app) e)
    | inr e ↦
        let below : failures env r app < 5 = ground (arith, e) in
        omega (arith, h, (login_counts env q r app pam below given wrong on).1)
  ]

  locked_out :
      (qs : List (LoginRequest × Request)) (req : LoginRequest) (r : Request) (app : App S)
      → app.store.writable ≡ true
      → AreWrong env (client_ip r) qs
      → 5 ≤ length qs + failures env r app
      → ((login env (some req) r (after_logins env qs app)).0.status ≡ 429)
        × ((login env (some req) r (after_logins env qs app)).1 ≡ after_logins env qs app)
  locked_out [] req r app on wrong h = login_limited env req r app pam (omega (arith, h))
  locked_out ((q, r') ∷ qs) req r app on (same, given, wrong, rest) h =
      locked_out qs req r _ (login-writable q r' app given wrong on) rest (
        subst
          (λ ip.
            5
            ≤ length qs
              + recent_failed_attempts (login env (some q) r' app).1.store ip (env.now - minute))
          same
          (login-counts q r' app (length qs) given wrong on (
            subst
              (λ ip. 5 ≤ suc (length qs) + recent_failed_attempts app.store ip (env.now - minute))
              (sym same) h)))

-- With password login enabled and a database that can be written: after five or more logins at one
-- time and from one address, by whatever requests and for whatever users, each with a wrong password,
-- any further login from that address at that time is answered 429, whatever its user and password,
-- and changes nothing.
pub login_limited_lem :
    {S : Type 0} (env : Env S) (qs : List (LoginRequest × Request)) (req : LoginRequest)
    (r : Request) (app : App S)
    → env.config.auth.pam ≡ true
    → app.store.writable ≡ true
    → AreWrong env (client_ip r) qs
    → 5 ≤ length qs
    → ((login env (some req) r (after_logins env qs app)).0.status ≡ 429)
      × ((login env (some req) r (after_logins env qs app)).1 ≡ after_logins env qs app)
login_limited_lem env qs req r app pam on wrong h =
    locked_out env pam qs req r app on wrong (omega (arith, h))

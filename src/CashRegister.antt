-- ===== src/CashRegister.antt =====
-- cash-register/cash-register.service.ts: the sessions of a restaurant's cash register.
pub mod Sessions
pub mod Breakdown
pub mod Till
use restosync_api.Base.{
  ℕ, Bool, true, false, not, ◌&&◌, Option, none, some, List, [], ◌∷◌, String, ◌==◌, if◌then◌else◌,
  length,
}
use restosync_api.Base.Dict.{lookup, insert}
use restosync_api.Base.Int.{ℤ, pos, ltb_ℤ, ◌+ℤ◌, ◌-ℤ◌, sum_by}
use restosync_api.Schema.{
  Uuid, AuthUser, Payment, PaymentMethod, PaymentStatus, CashRegisterSession, payment_method_index,
  same_payment_status,
}
use restosync_api.Prisma.{desc}
use restosync_api.World.{
  World, Exec, Env, session_already_open, no_active_session, session_not_found, cents_or_zero, gets,
  guard, throw, pure, create_row, or_throw, update_or_throw, ◌>>=◌, ◌>>◌,
}

pub record OpenSessionDto : Type 0 where
  pub opening_float_cents : ℤ
  pub notes : Option String

pub record CloseSessionDto : Type 0 where
  pub counted_cents : ℤ
  pub notes : Option String

pub record SessionSummary : Type 0 where
  pub session : CashRegisterSession
  pub total_sales_cents : ℤ
  pub ticket_count : ℕ
  pub by_method : List (PaymentMethod × ℤ)

abbrev pub put_sessions : List CashRegisterSession → World → World
put_sessions rows w = record w { sessions = rows }

abbrev pub is_null : Option ℕ → Bool
is_null none = true
is_null (some t) = false

-- `where: { closedAt: null, restaurantId }`
unfoldable pub is_open_in : Uuid → CashRegisterSession → Bool
is_open_in restaurant_id s = is_null s.closed_at && s.restaurant_id == restaurant_id

-- `if (active) throw`
unfoldable pub refuse_open : Option CashRegisterSession → Exec (Unit {0})
refuse_open none = pure tt
refuse_open (some s) = throw session_already_open

abbrev pub in_session : Option Uuid → Uuid → Bool
in_session none session_id = false
in_session (some id) session_id = id == session_id

-- `where: { sessionId, status: SUCCEEDED, restaurantId }`
unfoldable pub counts_for : Uuid → Uuid → Payment → Bool
counts_for session_id restaurant_id p =
    in_session p.session_id session_id
    && same_payment_status p.status PaymentStatus.succeeded
    && p.restaurant_id == restaurant_id

abbrev or_notes : Option String → Option String → Option String
or_notes none old = old
or_notes (some text) old = some text

unfoldable pub opened : OpenSessionDto → AuthUser → ℕ → Uuid → CashRegisterSession
opened dto user now id = record {
  id = id;
  opened_by_id = user.id;
  opened_at = now;
  closed_by_id = none;
  closed_at = none;
  opening_float_cents = dto.opening_float_cents;
  expected_cents = none;
  counted_cents = none;
  difference_cents = none;
  notes = dto.notes;
  restaurant_id = user.restaurant_id;
}

unfoldable pub closed :
    CloseSessionDto → AuthUser → ℕ → ℤ → CashRegisterSession → CashRegisterSession
closed dto user now expected s = record s {
  closed_by_id = some user.id;
  closed_at = some now;
  expected_cents = some expected;
  counted_cents = some dto.counted_cents;
  difference_cents = some (dto.counted_cents -ℤ expected);
  notes = or_notes dto.notes s.notes;
}

-- `byMethodRaw[p.method] = (byMethodRaw[p.method] ?? 0) + p.amountCents`
unfoldable pub by_method_raw : List Payment → List (ℕ × ℤ) → List (ℕ × ℤ)
by_method_raw [] raw = raw
by_method_raw (p ∷ rest) raw =
    let m = payment_method_index p.method in
    by_method_raw rest (insert m (cents_or_zero (lookup m raw) +ℤ p.amount_cents) raw)

-- `if (amount && amount > 0) byMethod[method] = amount`
unfoldable pub keep_positive :
    PaymentMethod → Option ℤ → List (PaymentMethod × ℤ) → List (PaymentMethod × ℤ)
keep_positive method none rest = rest
keep_positive method (some amount) rest =
    if ltb_ℤ (pos 0) amount then (method, amount) ∷ rest else rest

-- `Object.values(PaymentMethod)`
abbrev pub payment_methods : List PaymentMethod
payment_methods =
    PaymentMethod.cash ∷ PaymentMethod.card ∷ PaymentMethod.transfer ∷ PaymentMethod.stripe ∷ []

unfoldable pub by_method_of : List (ℕ × ℤ) → List PaymentMethod → List (PaymentMethod × ℤ)
by_method_of raw [] = []
by_method_of raw (m ∷ rest) =
    keep_positive m (lookup (payment_method_index m) raw) (by_method_of raw rest)

unfoldable pub by_method : List Payment → List (PaymentMethod × ℤ)
by_method payments = by_method_of (by_method_raw payments []) payment_methods

unfoldable pub summary_of : CashRegisterSession → List Payment → SessionSummary
summary_of session payments = record {
  session = session;
  total_sales_cents = sum_by (λ p. p.amount_cents) (pos 0) payments;
  ticket_count = length payments;
  by_method = by_method payments;
}

unfoldable pub session_in_restaurant : Option CashRegisterSession → Uuid → Exec CashRegisterSession
session_in_restaurant none restaurant_id = throw session_not_found
session_in_restaurant (some s) restaurant_id =
    guard (s.restaurant_id == restaurant_id) session_not_found >> pure s

module _ (env : Env) where
  -- The session that is open, the newest if there were several
  unfoldable pub active_session : Uuid → World → Option CashRegisterSession
  active_session restaurant_id w =
      env.sessions.find_first (is_open_in restaurant_id) (desc (λ s. s.opened_at) ∷ []) w.sessions

  unfoldable pub open_session : OpenSessionDto → AuthUser → Exec CashRegisterSession
  open_session dto user = do
    active ← gets (λ w. env.sessions.find_first (is_open_in user.restaurant_id) [] w.sessions)
    refuse_open active
    now ← gets (λ w. w.now)
    create_row env.sessions (λ w. w.sessions) put_sessions (opened dto user now)

  unfoldable pub close_session : CloseSessionDto → AuthUser → Exec CashRegisterSession
  close_session dto user = do
    active ← gets (active_session user.restaurant_id)
    session ← or_throw active no_active_session
    expected ←
        gets (λ w.
          cents_or_zero (env.sum_amounts (counts_for session.id user.restaurant_id) w.payments))
    now ← gets (λ w. w.now)
    update_or_throw env.sessions (λ w. w.sessions) put_sessions session.id
        (closed dto user now expected)

  unfoldable pub get_session_summary : Uuid → AuthUser → Exec SessionSummary
  get_session_summary session_id user = do
    found ← gets (λ w. env.sessions.find_unique session_id w.sessions)
    session ← session_in_restaurant found user.restaurant_id
    payments ←
        gets (λ w. env.payments.find_many (counts_for session_id user.restaurant_id) [] w.payments)
    pure (summary_of session payments)

  unfoldable pub get_current_summary : AuthUser → Exec SessionSummary
  get_current_summary user = do
    active ← gets (active_session user.restaurant_id)
    session ← or_throw active no_active_session
    get_session_summary session.id user

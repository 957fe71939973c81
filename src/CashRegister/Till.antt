-- ===== src/CashRegister/Till.antt =====
-- cash-register/cash-register.service.ts: the sessions of a restaurant as a till that is open or shut.
use restosync_api.Base.{
  ◌≡◌, refl, sym, ◌∙◌, subst, Bool, true, false, none, some, List, [], ◌∷◌, ◌==◌, ==_iff, inl, inr,
  Bool-cases, Option-cases,
}
use restosync_api.Schema.{Uuid, AuthUser, CashRegisterSession}
use restosync_api.World.{
  World, Outcome, done, thrown, Env, IsPrisma, create_row, update_or_throw, ◌>>=◌,
}
use restosync_api.World.Atomic.{Atomic}
use restosync_api.CashRegister.{
  OpenSessionDto, CloseSessionDto, is_open_in, refuse_open, active_session, open_session,
  close_session,
}
use restosync_api.CashRegister.Sessions.{
  HasOneOpen, Opens, Closes, open_session-HasOneOpen, close_session-Closes,
}

-- The till of a restaurant: shut, or open as a session
pub data Till : Type 0 where
  shut : Till
  open_as : Uuid → Till

-- The sessions that a till stands for
abbrev pub Shows : Env → Uuid → World → Till → Type 0
Shows env r w shut =
    (i : Uuid) (s : CashRegisterSession)
    → env.sessions.find_unique i w.sessions ≡ some s
    → is_open_in r s ≡ false
Shows env r w (open_as k) =
    ((s : CashRegisterSession) × (env.sessions.find_unique k w.sessions ≡ some s)
      × (is_open_in r s ≡ true))
    × HasOneOpen env r w

-- The two requests that change the till
pub data Request : Type 0 where
  open_request : OpenSessionDto → Request
  close_request : CloseSessionDto → Request

-- What a request does to a till: an open till refuses to be opened, and a shut one to be closed.
pub data TillStep : Request → Till → Till → Type 0 where
  opens : (dto : OpenSessionDto) (i : Uuid) → TillStep (open_request dto) shut (open_as i)
  stays_open :
      (dto : OpenSessionDto) (i : Uuid) → TillStep (open_request dto) (open_as i) (open_as i)
  closes : (dto : CloseSessionDto) (i : Uuid) → TillStep (close_request dto) (open_as i) shut
  stays_shut : (dto : CloseSessionDto) → TillStep (close_request dto) shut shut

-- Requests one after the other
pub data TillRun : List Request → Till → Till → Type 0 where
  stops : (t : Till) → TillRun [] t t
  steps :
      (r : Request) (rest : List Request) (t u v : Till)
      → TillStep r t u
      → TillRun rest u v
      → TillRun (r ∷ rest) t v

abbrev pub world_after : {A : Type 0} → Outcome A → World
world_after (done a v) = v
world_after (thrown e v) = v

module _ (env : Env) (user : AuthUser) where
  -- The world after a request
  unfoldable pub handle : Request → World → World
  handle (open_request dto) w = world_after (open_session env dto user w)
  handle (close_request dto) w = world_after (close_session env dto user w)

  unfoldable pub handle_all : List Request → World → World
  unfolding handle
  handle_all [] w = w
  handle_all (request ∷ rest) w = handle_all rest (handle request w)

clash : (b : Bool) → b ≡ true → b ≡ false → ⊥
clash b h k = cc

module _ (env : Env) (db : IsPrisma env) (user : AuthUser) where
  abbrev Simulates : Request → Till → World → Type 0
  Simulates r t v = (u : Till) × TillStep r t u × Shows env user.restaurant_id v u

  module _ (w : World) where
    refused :
        {A : Type 0} (Q : A → World → Type 0) (o : Outcome A)
        → Atomic Q w o
        → ((a : A) (v : World) → Q a v → ⊥)
        → world_after o ≡ w
    refused Q (done a v) h never = absurd (never a v h)
    refused Q (thrown e v) h never = h

    returned :
        {A : Type 0} (Q : A → World → Type 0) (o : Outcome A) (a : A) (v : World)
        → o ≡ done a v
        → Atomic Q w o
        → Q a v
    returned Q (done b u) a v e h = subst (Atomic Q w) e h
    returned Q (thrown x u) a v e h = cc

    none_active :
        Shows env user.restaurant_id w shut
        → env.sessions.find_first (is_open_in user.restaurant_id) [] w.sessions ≡ none
    none_active shows =
        elim (Option-cases
          (env.sessions.find_first (is_open_in user.restaurant_id) [] w.sessions)) [
            | inl e ↦ e
            | inr (s, e) ↦
                let found =
                  db.sessions.first_found (is_open_in user.restaurant_id) [] w.sessions s e in
                let pass =
                  db.sessions.first_where (is_open_in user.restaurant_id) [] w.sessions s e in
                absurd (clash _ pass (shows s.id s found))
          ]

    some_active :
        (k : Uuid)
        → Shows env user.restaurant_id w (open_as k)
        → (s : CashRegisterSession) × (active_session env user.restaurant_id w ≡ some s)
    unfolding active_session
    some_active k ((s, found, is_open), only) =
        elim (Option-cases (active_session env user.restaurant_id w)) [
          | inr x ↦ x
          | inl e ↦ absurd (
              clash _ is_open
                (db.sessions.first_none (is_open_in user.restaurant_id) _ w.sessions k s e found))
        ]

    open_returns :
        (dto : OpenSessionDto)
        → env.sessions.find_first (is_open_in user.restaurant_id) [] w.sessions ≡ none
        → (s : CashRegisterSession) × (v : World) × (open_session env dto user w ≡ done s v)
    unfolding open_session ◌>>=◌ create_row refuse_open
    open_returns dto e = rw e (_, _, refl)

    close_returns :
        (dto : CloseSessionDto) (s : CashRegisterSession)
        → active_session env user.restaurant_id w ≡ some s
        → (s' : CashRegisterSession) × (v : World) × (close_session env dto user w ≡ done s' v)
    unfolding close_session active_session ◌>>=◌ update_or_throw
    close_returns dto s e =
        let found = db.sessions.first_found (is_open_in user.restaurant_id) _ w.sessions s e in
        rw (e, update_or_throw, found) (_, _, refl)

    opened_till :
        (dto : OpenSessionDto) (v : World)
        → Opens env db user w v
        → HasOneOpen env user.restaurant_id v
        → Simulates (open_request dto) shut v
    opened_till dto v o one =
        (open_as o.session.id, opens dto o.session.id, ((o.session, o.stored, o.is_open), one))

    closed_till :
        (k : Uuid) (dto : CloseSessionDto) (v : World)
        → Shows env user.restaurant_id w (open_as k)
        → Closes env db user w dto v
        → Simulates (close_request dto) (open_as k) v
    closed_till k dto v ((s, found, is_open), only) c = (
      shut,
      closes dto k,
      λ i x e. elim (Bool-cases (c.session.id == i)) [
        | inl q ↦
            let same : c.session.id ≡ i = (==_iff c.session.id i).0 q in
            let stored =
              subst (λ j. env.sessions.find_unique j v.sessions ≡ some c.after) same c.stored in
            let x_is : c.after ≡ x = cc in
            subst (λ y. is_open_in user.restaurant_id y ≡ false) x_is c.is_closed
        | inr ne ↦ elim (Bool-cases (is_open_in user.restaurant_id x)) [
          | inr shut_now ↦ shut_now
          | inl still ↦
              let same =
                only c.session.id i c.session x c.found (sym (c.others i ne) ∙ e) c.was_open
                  still in
              absurd (clash _ ((==_iff c.session.id i).1 same) ne)
        ]
      ],
    )

    handle-Simulates :
        (r : Request) (t : Till)
        → Shows env user.restaurant_id w t
        → Simulates r t (handle env user r w)
    unfolding handle
    handle-Simulates (open_request dto) shut shows =
        let (s, v, e) = open_returns dto (none_active shows) in
        let (o, one) =
          returned _ (open_session env dto user w) s v e
            (open_session-HasOneOpen env db user w dto) in
        rw e (opened_till dto v o one)
    handle-Simulates (open_request dto) (open_as k) ((s, found, is_open), only) =
        let kept =
          refused _ (open_session env dto user w) (open_session-HasOneOpen env db user w dto)
            λ a v (o, one). clash _ is_open (o.none_open k s found) in
        rw kept (open_as k, stays_open dto k, ((s, found, is_open), only))
    handle-Simulates (close_request dto) shut shows =
        let kept =
          refused _ (close_session env dto user w) (close_session-Closes env db user w dto)
            λ a v c. clash _ c.was_open (shows c.session.id c.session c.found) in
        rw kept (shut, stays_shut dto, shows)
    handle-Simulates (close_request dto) (open_as k) shows =
        let (s, active) = some_active k shows in
        let (s', v, e) = close_returns dto s active in
        let c =
          returned _ (close_session env dto user w) s' v e
            (close_session-Closes env db user w dto) in
        rw e (closed_till k dto v shows c)

  -- In a database that keeps Prisma's laws, the sessions of a restaurant refine a till that is
  -- shut or open as one session: if the state shows a till, then after any sequence of requests
  -- of one of its users to open and to close a session it shows the till that these requests
  -- lead to, where opening a shut till and closing an open one succeed, and opening an open one
  -- and closing a shut one change nothing.
  pub handle_all-Shows :
      (requests : List Request) (w : World) (t : Till)
      → Shows env user.restaurant_id w t
      → (u : Till) × TillRun requests t u
        × Shows env user.restaurant_id (handle_all env user requests w) u
  unfolding handle_all
  handle_all-Shows [] w t shows = (t, stops t, shows)
  handle_all-Shows (r ∷ rest) w t shows =
      let (u, step, after) = handle-Simulates w r t shows in
      let (v, run, final) = handle_all-Shows rest (handle env user r w) u after in
      (v, steps r rest t u v step run, final)

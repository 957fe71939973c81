-- ===== src/CashRegister/Sessions.antt =====
-- cash-register/cash-register.service.ts: what opening and closing a session do.
use restosync_api.Base.{
  ◌≡◌, refl, ap, sym, ◌∙◌, true, false, Option, none, some, [], ◌∷◌, arith, ◌==◌, inl, inr,
  Bool-cases, ==_iff,
}
use restosync_api.Base.Int.{pos, ◌-ℤ◌, sum_by}
use restosync_api.Schema.{Uuid, AuthUser, CashRegisterSession}
use restosync_api.Prisma.{desc}
use restosync_api.Prisma.Laws.{update_self, update_ne, create_self, create_ne}
use restosync_api.World.{World, done, Env, IsPrisma, cents_or_zero, ◌>>=◌}
use restosync_api.World.Atomic.{Atomic, Atomic-map}
use restosync_api.World.Reads.{Reads, reads, Atomic-read, Atomic-gets, Atomic-or_throw_here}
use restosync_api.World.Writes.{Atomic-create_last, Atomic-update_last}
use restosync_api.CashRegister.{
  OpenSessionDto, CloseSessionDto, put_sessions, is_open_in, refuse_open, active_session,
  counts_for, opened, closed, open_session, close_session,
}

-- No two sessions of the restaurant are open.
abbrev pub HasOneOpen : Env → Uuid → World → Type 0
HasOneOpen env r w =
    (i j : Uuid) (s t : CashRegisterSession)
    → env.sessions.find_unique i w.sessions ≡ some s
    → env.sessions.find_unique j w.sessions ≡ some t
    → is_open_in r s ≡ true
    → is_open_in r t ≡ true
    → i ≡ j

refuse_open-Reads : (x : Option CashRegisterSession) → Reads (refuse_open x)
unfolding refuse_open
refuse_open-Reads none = search reads
refuse_open-Reads (some s) = search reads

refuse_open-eq :
    (x : Option CashRegisterSession) (w : World) → refuse_open x w ≡ done tt w → x ≡ none
unfolding refuse_open ◌>>=◌
refuse_open-eq none w h = refl
refuse_open-eq (some s) w h = cc

module _ (env : Env) (db : IsPrisma env) (user : AuthUser) (w : World) where
  -- What opening a session leaves: none was open before, and now the new one is.
  pub record Opens (v : World) : Type 0 where
    pub none_open :
        (i : Uuid) (s : CashRegisterSession)
        → env.sessions.find_unique i w.sessions ≡ some s
        → is_open_in user.restaurant_id s ≡ false
    pub session : CashRegisterSession
    pub stored : env.sessions.find_unique session.id v.sessions ≡ some session
    pub is_open : is_open_in user.restaurant_id session ≡ true
    pub others :
        (j : Uuid)
        → (session.id == j) ≡ false
        → env.sessions.find_unique j v.sessions ≡ env.sessions.find_unique j w.sessions

  pub open_session-Opens :
      (dto : OpenSessionDto) → Atomic (λ _ v. Opens v) w (open_session env dto user w)
  unfolding open_session opened is_open_in
  open_session-Opens dto = Atomic-gets _ _ _ w w (
      Atomic-read _ (refuse_open _) _ w (refuse_open-Reads _) λ _ e. Atomic-gets _ _ _ w w (
        Atomic-create_last _ env.sessions (λ u. u.sessions) put_sessions 0 (opened dto user w.now) w
          w
          (record {
            none_open = λ i s f.
                db.sessions.first_none (is_open_in user.restaurant_id) [] w.sessions i s
                  (refuse_open-eq _ w e) f;
            session = opened dto user w.now (env.sessions.new_id w.sessions);
            stored =
                create_self db.sessions (opened dto user w.now (env.sessions.new_id w.sessions))
                  w.sessions refl;
            is_open = ground arith;
            others = λ j ne.
                create_ne db.sessions (opened dto user w.now (env.sessions.new_id w.sessions)) j
                  w.sessions refl ne;
          })))

  Opens-only :
      (v : World) (o : Opens v) (i : Uuid) (s : CashRegisterSession)
      → env.sessions.find_unique i v.sessions ≡ some s
      → is_open_in user.restaurant_id s ≡ true
      → o.session.id ≡ i
  Opens-only v o i s f s_open = elim (Bool-cases (o.session.id == i)) [
    | inl e ↦ (==_iff o.session.id i).0 e
    | inr ne ↦ cc (o.none_open i s (sym (o.others i ne) ∙ f), s_open)
  ]

  -- In a database that keeps Prisma's laws, `openSession` returns, or throws and leaves the
  -- state as it was. If it returns, no session of the restaurant was open, a new open one is
  -- stored and the others are as they were; so afterwards at most one session of the restaurant
  -- is open.
  pub open_session-HasOneOpen :
      (dto : OpenSessionDto)
      → Atomic
          (λ _ v. Opens v × HasOneOpen env user.restaurant_id v)
          w
          (open_session env dto user w)
  open_session-HasOneOpen dto =
      Atomic-map (λ _ v. Opens v) (λ _ v. Opens v × HasOneOpen env user.restaurant_id v) w _
        (open_session-Opens dto)
        λ _ v o. (
          o,
          λ i j s t fs ft s_open t_open.
              sym (Opens-only v o i s fs s_open) ∙ Opens-only v o j t ft t_open,
        )

  -- What closing leaves: the session that was open has the sum of its sales, the count, and their
  -- difference, and is open no more. No other session has changed.
  pub record Closes (dto : CloseSessionDto) (v : World) : Type 0 where
    pub session : CashRegisterSession
    pub found : env.sessions.find_unique session.id w.sessions ≡ some session
    pub was_open : is_open_in user.restaurant_id session ≡ true
    pub after : CashRegisterSession
    pub stored : env.sessions.find_unique session.id v.sessions ≡ some after
    pub is_closed : is_open_in user.restaurant_id after ≡ false
    pub expected :
        after.expected_cents
        ≡ some (
            sum_by
              (λ p. p.amount_cents)
              (pos 0)
              (env.payments.find_many (counts_for session.id user.restaurant_id) [] w.payments))
    pub difference :
        after.difference_cents
        ≡ some (
            dto.counted_cents
            -ℤ sum_by
                (λ p. p.amount_cents)
                (pos 0)
                (env.payments.find_many (counts_for session.id user.restaurant_id) [] w.payments))
    pub others :
        (j : Uuid)
        → (session.id == j) ≡ false
        → env.sessions.find_unique j v.sessions ≡ env.sessions.find_unique j w.sessions

  close_found-Closes :
      (dto : CloseSessionDto) (s : CashRegisterSession)
      → active_session env user.restaurant_id w ≡ some s
      → let f =
          closed dto user w.now
            (cents_or_zero (env.sum_amounts (counts_for s.id user.restaurant_id) w.payments)) in
        Closes dto (record w { sessions = env.sessions.update s.id f w.sessions })
  unfolding active_session closed is_open_in
  close_found-Closes dto s e =
      let order = desc (λ (x : CashRegisterSession). x.opened_at) ∷ [] in
      let found = db.sessions.first_found (is_open_in user.restaurant_id) order w.sessions s e in
      let f =
        closed dto user w.now
          (cents_or_zero (env.sum_amounts (counts_for s.id user.restaurant_id) w.payments)) in
      let total = db.sum_amounts (counts_for s.id user.restaurant_id) w.payments in
      record {
        session = s;
        found = found;
        was_open = db.sessions.first_where (is_open_in user.restaurant_id) order w.sessions s e;
        after = f s;
        stored = update_self db.sessions s.id f w.sessions s (λ y. refl) found;
        is_closed = refl;
        expected = ap some total;
        difference = ap (λ z. some (dto.counted_cents -ℤ z)) total;
        others = λ j ne. update_ne db.sessions s.id j f w.sessions (λ y. refl) ne;
      }

  -- In a database that keeps Prisma's laws, `closeSession` returns, or throws and leaves the
  -- state as it was. If it returns, a session that was open in the restaurant is no longer
  -- open, its expected amount is the sum of the payments that count for it and its difference
  -- the counted amount less that sum, and the other sessions are as they were.
  pub close_session-Closes :
      (dto : CloseSessionDto) → Atomic (λ _ v. Closes dto v) w (close_session env dto user w)
  unfolding close_session active_session
  close_session-Closes dto = Atomic-gets _ _ _ w w (
      Atomic-or_throw_here _ _ _ _ w λ s e. Atomic-gets _ _ _ w w (
        Atomic-gets _ _ _ w w (
          Atomic-update_last _ env.sessions (λ u. u.sessions) put_sessions s.id _ w w s
            (db.sessions.first_found (is_open_in user.restaurant_id) _ w.sessions s e)
            (close_found-Closes dto s e))))

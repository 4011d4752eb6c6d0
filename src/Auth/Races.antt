-- ===== src/Auth/Races.antt =====
-- Requests that rotate a refresh token at the same time, in any order of their steps.
use mathlib.Core.Path.{subst}
use qisma_be.Prelude.{
  ℕ, zero, suc, ◌+◌, ◌≡◌, ◌≢◌, ◌⊎◌, inl, inr, refl, sym, ap, ◌∙◌, Bool, true, false, List, [], ◌∷◌,
  arith, All, Option-cases, Bool-cases, ◌==◌, keep,
}
use qisma_be.Prelude.Result.{Result-cases}
use qisma_be.Auth.{
  RefreshToken, Tokens, JwtLib, unused, mark_as_used, update_many, revoke_user_sessions,
  generate_token_pair, check_stored, revoke_refresh_token, revoke, refresh,
}
use qisma_be.Auth.Stages.{
  Stage, reading, marking, minting, revoking_family, flagging, revoking_user, rotated, failed,
  Request, Event, turn, login, logout, revoke_sessions, sweep, advance, turn_at, serve, run,
}
use qisma_be.Auth.Rotation.{Spent, mark-Spent, Spent-append, mark-none}

-- Rows that are changed but for their ids and marks.
Spent-update :
    (id : ℕ) (p : RefreshToken → Bool) (f : RefreshToken → RefreshToken) (rows : List RefreshToken)
    → ((r : RefreshToken) → (f r).id ≡ r.id)
    → ((r : RefreshToken) → (f r).used_at ≡ r.used_at)
    → Spent id rows
    → Spent id (update_many p f rows)
Spent-update id p f [] h k s = tt
Spent-update id p f (r ∷ rows) h k (a, s) =
    ((λ e. ground (arith, h r, k r, a)), Spent-update id p f rows h k s)

Spent-mark :
    (now id other : ℕ) (rows : List RefreshToken)
    → Spent id rows
    → Spent id (mark_as_used now other rows).1
unfolding mark_as_used
Spent-mark now id other [] s = tt
Spent-mark now id other (r ∷ rows) (a, s) =
    ((λ e. ground (arith, a)), Spent-mark now id other rows s)

Spent-keep :
    (id : ℕ) (p : RefreshToken → Bool) (rows : List RefreshToken)
    → Spent id rows
    → Spent id (keep p rows)
Spent-keep id p [] s = tt
Spent-keep id p (r ∷ rows) (a, s) = elim (Bool-cases (p r)) [
  | inl e ↦ rw e (a, Spent-keep id p rows s)
  | inr e ↦ rw e (Spent-keep id p rows s)
]

-- 1 where the request has got past the mark with a row of this id: it has its new pair, or will.
abbrev pub won : ℕ → Stage → ℕ
won id (minting payload stored) = elim (stored.id == id) [ true ↦ 1 | false ↦ 0 ]
won id (rotated stored pair) = elim (stored.id == id) [ true ↦ 1 | false ↦ 0 ]
won id _ = 0

abbrev pub winners : ℕ → List Request → ℕ
winners id [] = 0
winners id (q ∷ qs) = won id q.stage + winners id qs

-- No new row gets this id.
abbrev pub DrawsOther : ℕ → Event → Type 0
DrawsOther id (login now fresh user identifier family) = fresh ≢ id
DrawsOther id _ = Unit

module _ (jwt : JwtLib) (id : ℕ) where
  generate-Spent :
      (now fresh user identifier family : ℕ) (db : Tokens)
      → fresh ≢ id
      → Spent id db.rows
      → Spent id (generate_token_pair jwt now fresh user identifier family db).1.rows
  unfolding generate_token_pair
  generate-Spent now fresh user identifier family db h s = Spent-append id db.rows _ s h

  -- What reads changes nothing.
  reading-lem :
      (now fresh token : ℕ) (db : Tokens)
      → let (stage, db') = advance jwt now fresh token reading db in (db' ≡ db) × (won id stage ≡ 0)
  unfolding advance
  reading-lem now fresh token db = elim (Result-cases (check_stored jwt now token db)) [
    | inr (x, e) ↦ (ground (arith, e), ground (arith, e))
    | inl ((payload, stored), e) ↦ elim (Bool-cases (unused stored)) [
      | inl u ↦ (ground (arith, e), ground (arith, e, u))
      | inr u ↦ (ground (arith, e), ground (arith, e, u))
    ]
  ]

  -- From the mark on, nobody else gets past it.
  advance-Spent :
      (now fresh token : ℕ) (stage : Stage) (db : Tokens)
      → fresh ≢ id
      → Spent id db.rows
      → let (stage', db') = advance jwt now fresh token stage db in
        Spent id db'.rows × (won id stage' ≡ won id stage)
  unfolding advance
  advance-Spent now fresh token reading db h s =
      let (e, w) = reading-lem now fresh token db in (subst (λ d. Spent id d.rows) (sym e) s, w)
  advance-Spent now fresh token (marking payload stored) db h s = (
    Spent-mark now id stored.id db.rows s,
    elim (Bool-cases (stored.id == id)) [
      | inl e ↦
          let same : stored.id ≡ id = ground arith in
          ground (arith, ap (λ i. (mark_as_used now i db.rows).0) same ∙ mark-none now id db.rows s)
      | inr e ↦ ground arith
    ],
  )
  advance-Spent now fresh token (minting payload stored) db h s =
      (generate-Spent now fresh stored.user_id payload.identifier stored.family_id db h s, refl)
  advance-Spent now fresh token (revoking_family stored) db h s =
      (Spent-update id _ _ db.rows (λ r. refl) (λ r. refl) s, refl)
  advance-Spent now fresh token (flagging stored) db h s = (s, refl)
  advance-Spent now fresh token (revoking_user stored) db h s =
      (Spent-update id _ _ db.rows (λ r. refl) (λ r. refl) s, refl)
  advance-Spent now fresh token (rotated stored pair) db h s = (s, refl)
  advance-Spent now fresh token (failed e) db h s = (s, refl)

  -- Who gets past the mark leaves nothing to be marked.
  advance-won :
      (now fresh token : ℕ) (stage : Stage) (db : Tokens)
      → let (stage', db') = advance jwt now fresh token stage db in
        (won id stage' ≡ won id stage) ⊎ ((won id stage' ≡ suc (won id stage)) × Spent id db'.rows)
  unfolding advance
  advance-won now fresh token reading db = inl (reading-lem now fresh token db).1
  advance-won now fresh token (marking payload stored) db =
      elim (Bool-cases ((mark_as_used now stored.id db.rows).0 == 0)) [
        | inl e ↦ inl (rw e refl)
        | inr e ↦ elim (Bool-cases (stored.id == id)) [
          | inl f ↦ inr (
            ground (arith, e, f),
            subst (λ i. Spent i (mark_as_used now stored.id db.rows).1) (ground arith)
                (mark-Spent now stored.id db.rows),
          )
          | inr f ↦ inl (ground (arith, e, f))
        ]
      ]
  advance-won now fresh token (minting payload stored) db = inl refl
  advance-won now fresh token (revoking_family stored) db = inl refl
  advance-won now fresh token (flagging stored) db = inl refl
  advance-won now fresh token (revoking_user stored) db = inl refl
  advance-won now fresh token (rotated stored pair) db = inl refl
  advance-won now fresh token (failed e) db = inl refl

  abbrev Fresh : List Request → Type 0
  Fresh = All (λ q. q.fresh ≢ id)

  turn_at-Fresh :
      (now i : ℕ) (qs : List Request) (db : Tokens) → Fresh qs → Fresh (turn_at jwt now i qs db).0
  unfolding turn_at
  turn_at-Fresh now i [] db h = tt
  turn_at-Fresh now zero (q ∷ qs) db (a, h) = (a, h)
  turn_at-Fresh now (suc i) (q ∷ qs) db (a, h) = (a, turn_at-Fresh now i qs db h)

  turn_at-Spent :
      (now i : ℕ) (qs : List Request) (db : Tokens)
      → Fresh qs
      → Spent id db.rows
      → let (qs', db') = turn_at jwt now i qs db in
        Spent id db'.rows × (winners id qs' ≡ winners id qs)
  unfolding turn_at
  turn_at-Spent now i [] db h s = (s, refl)
  turn_at-Spent now zero (q ∷ qs) db (a, h) s =
      let (s', e) = advance-Spent now q.fresh q.token q.stage db a s in
      (s', ap (λ n. n + winners id qs) e)
  turn_at-Spent now (suc i) (q ∷ qs) db (a, h) s =
      let (s', e) = turn_at-Spent now i qs db h s in (s', ap (λ n. won id q.stage + n) e)

  turn_at-winners :
      (now i : ℕ) (qs : List Request) (db : Tokens)
      → let (qs', db') = turn_at jwt now i qs db in
        (winners id qs' ≡ winners id qs)
        ⊎ ((winners id qs' ≡ suc (winners id qs)) × Spent id db'.rows)
  unfolding turn_at
  turn_at-winners now i [] db = inl refl
  turn_at-winners now zero (q ∷ qs) db = elim (advance-won now q.fresh q.token q.stage db) [
    | inl e ↦ inl (ap (λ n. n + winners id qs) e)
    | inr (e, s) ↦ inr (omega (arith, e), s)
  ]
  turn_at-winners now (suc i) (q ∷ qs) db = elim (turn_at-winners now i qs db) [
    | inl e ↦ inl (ap (λ n. won id q.stage + n) e)
    | inr (e, s) ↦ inr (omega (arith, e), s)
  ]

  logout-Spent :
      (now token : ℕ) (db : Tokens)
      → Spent id db.rows
      → Spent id (revoke_refresh_token jwt now token db).rows
  unfolding revoke_refresh_token
  logout-Spent now token db s = elim (Option-cases (jwt.verify refresh now token)) [
    | inl e ↦
        let q : revoke_refresh_token jwt now token db ≡ db = ground (arith, e) in
        subst (λ d. Spent id d.rows) (sym q) s
    | inr (p, e) ↦ elim (Option-cases p.jti) [
      | inl f ↦
          let q : revoke_refresh_token jwt now token db ≡ db = ground (arith, e, f) in
          subst (λ d. Spent id d.rows) (sym q) s
      | inr (j, f) ↦
          let q : (revoke_refresh_token jwt now token db).rows ≡ revoke now j db.rows =
            ground (arith, e, f) in
          subst (Spent id) (sym q) (Spent-update id _ _ db.rows (λ r. refl) (λ r. refl) s)
    ]
  ]

  -- Either nobody has got past the mark, or one has and nothing is left to be marked.
  abbrev pub AtMostOne : List Request → Tokens → Type 0
  AtMostOne qs db = (winners id qs ≡ 0) ⊎ ((winners id qs ≡ 1) × Spent id db.rows)

  serve-AtMostOne :
      (e : Event) (qs : List Request) (db : Tokens)
      → DrawsOther id e
      → Fresh qs
      → AtMostOne qs db
      → let (qs', db') = serve jwt e qs db in AtMostOne qs' db' × Fresh qs'
  unfolding serve revoke_user_sessions
  serve-AtMostOne (turn now i) qs db d h (inl z) = (
    elim (turn_at-winners now i qs db) [ inl e ↦ inl (e ∙ z) | inr (e, s) ↦ inr (e ∙ ap suc z, s) ],
    turn_at-Fresh now i qs db h,
  )
  serve-AtMostOne (turn now i) qs db d h (inr (z, s)) =
      let (s', e) = turn_at-Spent now i qs db h s in (inr (e ∙ z, s'), turn_at-Fresh now i qs db h)
  serve-AtMostOne (login now fresh user identifier family) qs db d h (inl z) = (inl z, h)
  serve-AtMostOne (login now fresh user identifier family) qs db d h (inr (z, s)) =
      (inr (z, generate-Spent now fresh user identifier family db d s), h)
  serve-AtMostOne (logout now token) qs db d h (inl z) = (inl z, h)
  serve-AtMostOne (logout now token) qs db d h (inr (z, s)) =
      (inr (z, logout-Spent now token db s), h)
  serve-AtMostOne (revoke_sessions now user) qs db d h (inl z) = (inl z, h)
  serve-AtMostOne (revoke_sessions now user) qs db d h (inr (z, s)) =
      (inr (z, Spent-update id _ _ db.rows (λ r. refl) (λ r. refl) s), h)
  serve-AtMostOne (sweep now) qs db d h (inl z) = (inl z, h)
  serve-AtMostOne (sweep now) qs db d h (inr (z, s)) = (inr (z, Spent-keep id _ db.rows s), h)

  run-AtMostOne :
      (es : List Event) (qs : List Request) (db : Tokens)
      → All (DrawsOther id) es
      → Fresh qs
      → AtMostOne qs db
      → let (qs', db') = run jwt es qs db in AtMostOne qs' db'
  unfolding run
  run-AtMostOne [] qs db d h m = m
  run-AtMostOne (e ∷ es) qs db (d, ds) h m =
      let (m', h') = serve-AtMostOne e qs db d h m in
      run-AtMostOne es (serve jwt e qs db).0 (serve jwt e qs db).1 ds h' m'

  starts : (qs : List Request) → All (λ q. q.stage ≡ reading) qs → winners id qs ≡ 0
  starts [] h = refl
  starts (q ∷ qs) (e, h) = ground (arith, ap (won id) e, starts qs h)

  -- Any number of requests rotate refresh tokens at the same time, each a statement at a time in any
  -- order, with logins, logouts, revocations and sweeps between them; no new row gets the id. Then of
  -- those that read the row of that id at most one gets past its mark to a new pair, and once one
  -- has, no row with the id is left to be used.
  pub race_one_winner :
      (es : List Event) (qs : List Request) (db : Tokens)
      → All (DrawsOther id) es
      → All (λ q. q.fresh ≢ id) qs
      → All (λ q. q.stage ≡ reading) qs
      → let (qs', db') = run jwt es qs db in
        (winners id qs' ≡ 0) ⊎ ((winners id qs' ≡ 1) × Spent id db'.rows)
  race_one_winner es qs db d h r = run-AtMostOne es qs db d h (inl (starts qs r))

-- ===== src/Auth/Rotation.antt =====
-- `rotateRefreshToken`: a refresh token is good for one rotation, also between requests that race.
use mathlib.Core.Path.{subst}
use qisma_be.Prelude.{
  ◌<◌, ap, ℕ, ◌+◌, ◌*◌, ◌/◌, ◌≤◌, ◌≡◌, ◌≢◌, ◌⊎◌, inl, inr, refl, sym, ◌∙◌, true, false, none, some,
  List, [], ◌∷◌, ◌++◌, arith, All, Option-cases, Bool-cases,
}
use qisma_be.Prelude.Result.{Result, ok, err}
use qisma_be.Auth.{
  TokenPayload, RefreshToken, Tokens, TokenError, TokenPair, token_reused, JwtLib, find_by_id,
  unused, mark_as_used, revoke_family, revoke_all_for_user, revoke_user_sessions, on_reuse,
  generate_token_pair, check_stored, redeem, rotate_refresh_token, refresh, refresh_seconds,
}

-- No row with this id is still to be used.
abbrev pub Spent : ℕ → List RefreshToken → Type 0
Spent id = All (λ r. r.id ≡ id → unused r ≡ false)

pub mark-Spent : (now id : ℕ) (rows : List RefreshToken) → Spent id (mark_as_used now id rows).1
unfolding mark_as_used
mark-Spent now id [] = tt
mark-Spent now id (r ∷ rows) = ((λ e. ground arith), mark-Spent now id rows)

pub Spent-append :
    (id : ℕ) (rows : List RefreshToken) (r : RefreshToken)
    → Spent id rows
    → r.id ≢ id
    → Spent id (rows ++ (r ∷ []))
Spent-append id [] r s h = ((λ e. absurd (h e)), tt)
Spent-append id (x ∷ rows) r (p, s) h = (p, Spent-append id rows r s h)

pub mark-none :
    (now id : ℕ) (rows : List RefreshToken) → Spent id rows → (mark_as_used now id rows).0 ≡ 0
unfolding mark_as_used
mark-none now id [] s = refl
mark-none now id (r ∷ rows) (p, s) = ground (arith, p, mark-none now id rows s)

-- No row of the user is valid.
abbrev pub Dead : ℕ → List RefreshToken → Type 0
Dead user = All (λ r. r.user_id ≡ user → r.is_valid ≡ false)

pub revoke-Dead :
    (now user : ℕ) (rows : List RefreshToken) → Dead user (revoke_all_for_user now user rows)
revoke-Dead now user [] = tt
revoke-Dead now user (r ∷ rows) = ((λ e. ground arith), revoke-Dead now user rows)

on_reuse-Dead :
    (now : ℕ) (stored : RefreshToken) (db : Tokens)
    → Dead stored.user_id (on_reuse now stored db).rows
unfolding on_reuse revoke_user_sessions
on_reuse-Dead now stored db =
    revoke-Dead now stored.user_id (revoke_family now stored.family_id db.rows)

find-Spent :
    (id : ℕ) (rows : List RefreshToken) (r : RefreshToken)
    → Spent id rows
    → find_by_id id rows ≡ some r
    → unused r ≡ false
find-Spent id [] r s e = absurd (ground arith)
find-Spent id (x ∷ rows) r (p, s) e = ground (arith, p, find-Spent id rows r s)

pub find-id :
    (id : ℕ) (rows : List RefreshToken) (r : RefreshToken) → find_by_id id rows ≡ some r → r.id ≡ id
find-id id [] r e = absurd (ground arith)
find-id id (x ∷ rows) r e = ground (arith, find-id id rows r)

pub mark-some :
    (now id : ℕ) (rows : List RefreshToken) (r : RefreshToken)
    → find_by_id id rows ≡ some r
    → r.used_at ≡ none
    → 0 < (mark_as_used now id rows).0
unfolding mark_as_used
mark-some now id [] r e u = absurd (ground arith)
mark-some now id (x ∷ rows) r e u = ground (arith, mark-some now id rows r)

module _ (jwt : JwtLib) where
  redeem-ok :
      (now fresh : ℕ) (payload : TokenPayload) (stored : RefreshToken) (db : Tokens)
      → stored.used_at ≡ none
      → 0 < (mark_as_used now stored.id db.rows).0
      → (pair : TokenPair) × ((redeem jwt now fresh payload stored db).0 ≡ ok pair)
  unfolding redeem
  redeem-ok now fresh payload stored db u h = (
    (generate_token_pair jwt now fresh stored.user_id payload.identifier stored.family_id
        (record db { rows = (mark_as_used now stored.id db.rows).1 })).0,
    ground arith,
  )

  -- What a redemption that succeeds leaves: the mark, and a new row at the end.
  pub redeem-rows :
      (now fresh : ℕ) (payload : TokenPayload) (stored : RefreshToken) (db : Tokens)
      {pair : TokenPair}
      → (redeem jwt now fresh payload stored db).0 ≡ ok pair
      → (row : RefreshToken) × (row.id ≡ fresh)
        × ((redeem jwt now fresh payload stored db).1.rows
            ≡ (mark_as_used now stored.id db.rows).1 ++ (row ∷ []))
  unfolding redeem generate_token_pair
  redeem-rows now fresh payload stored db e =
      let t = jwt.sign refresh (record {
        sub = stored.user_id;
        identifier = payload.identifier;
        jti = some fresh;
        type = refresh;
        iat = some (now / 1000);
      }) in
      (
        record {
          id = fresh;
          user_id = stored.user_id;
          token_hash = jwt.hash_token t;
          family_id = stored.family_id;
          is_valid = true;
          used_at = none;
          revoked_at = none;
          expires_at = now + refresh_seconds * 1000;
        },
        refl,
        ground arith,
      )

  redeem-Spent :
      (now fresh : ℕ) (payload : TokenPayload) (stored : RefreshToken) (db : Tokens)
      {pair : TokenPair}
      → (redeem jwt now fresh payload stored db).0 ≡ ok pair
      → fresh ≢ stored.id
      → Spent stored.id (redeem jwt now fresh payload stored db).1.rows
  redeem-Spent now fresh payload stored db e h =
      let (row, i, q) = redeem-rows now fresh payload stored db e in
      rw q (
        Spent-append stored.id (mark_as_used now stored.id db.rows).1 row
          (mark-Spent now stored.id db.rows) λ z. h (sym i ∙ z))

  -- Told of the reuse, with what that does to the tables.
  redeem-on_reuse :
      (now fresh : ℕ) (payload : TokenPayload) (stored : RefreshToken) (db : Tokens)
      → (unused stored ≡ false) ⊎ ((mark_as_used now stored.id db.rows).0 ≡ 0)
      → (db' : Tokens) × (redeem jwt now fresh payload stored db
          ≡ (err token_reused, on_reuse now stored db'))
  unfolding redeem
  redeem-on_reuse now fresh payload stored db (inl e) = (db, ground arith)
  redeem-on_reuse now fresh payload stored db (inr e) = elim (Bool-cases (unused stored)) [
    | inl u ↦ (record db { rows = (mark_as_used now stored.id db.rows).1 }, ground arith)
    | inr u ↦ (db, ground arith)
  ]

  abbrev pub Reported : ℕ → RefreshToken → Result TokenError TokenPair × Tokens → Type 0
  Reported now stored (r, db') =
      (r ≡ err token_reused)
      × Dead stored.user_id db'.rows
      × (db'.revoked stored.user_id ≡ some now)

  on_reuse-revoked :
      (now : ℕ) (stored : RefreshToken) (db : Tokens)
      → (on_reuse now stored db).revoked stored.user_id ≡ some now
  unfolding on_reuse revoke_user_sessions
  on_reuse-revoked now stored db = ground arith

  pub redeem-Reported :
      (now fresh : ℕ) (payload : TokenPayload) (stored : RefreshToken) (db : Tokens)
      → (unused stored ≡ false) ⊎ ((mark_as_used now stored.id db.rows).0 ≡ 0)
      → Reported now stored (redeem jwt now fresh payload stored db)
  redeem-Reported now fresh payload stored db h =
      let (db', e) = redeem-on_reuse now fresh payload stored db h in
      subst (Reported now stored) (sym e)
        (refl, on_reuse-Dead now stored db', on_reuse-revoked now stored db')

  -- A rotation succeeds only for a token that verifies, with the id of a row that has its hash, is
  -- valid and not expired.
  pub rotate_needs_valid :
      (now fresh token : ℕ) (db : Tokens) (pair : TokenPair)
      → (rotate_refresh_token jwt now fresh token db).0 ≡ ok pair
      → (p : TokenPayload) × (id : ℕ) × (r : RefreshToken) × (jwt.verify refresh now token ≡ some p)
        × (p.jti ≡ some id)
        × (find_by_id id db.rows ≡ some r)
        × (r.token_hash ≡ jwt.hash_token token)
        × (r.is_valid ≡ true)
        × (now ≤ r.expires_at)
  unfolding rotate_refresh_token check_stored
  rotate_needs_valid now fresh token db pair e =
      elim (Option-cases (jwt.verify refresh now token)) [
        | inl a ↦ absurd (ground arith)
        | inr (p, a) ↦ elim (Option-cases p.jti) [
          | inl b ↦ absurd (ground arith)
          | inr (id, b) ↦ elim (Option-cases (find_by_id id db.rows)) [
            | inl c ↦ absurd (ground arith)
            | inr (r, c) ↦ (p, id, r, a, b, c, ground arith, ground arith, ground arith)
          ]
        ]
      ]

  -- A token that verifies, with the id of a row that has its hash, is valid, not expired and not used,
  -- gets a new pair, and from then on no row with its id is still to be used.
  pub rotate_succeeds :
      (now fresh token id : ℕ) (p : TokenPayload) (r : RefreshToken) (db : Tokens)
      → jwt.verify refresh now token ≡ some p
      → p.type ≡ refresh
      → p.jti ≡ some id
      → find_by_id id db.rows ≡ some r
      → r.token_hash ≡ jwt.hash_token token
      → r.is_valid ≡ true
      → now ≤ r.expires_at
      → r.used_at ≡ none
      → fresh ≢ id
      → (pair : TokenPair) × ((rotate_refresh_token jwt now fresh token db).0 ≡ ok pair)
        × Spent id (rotate_refresh_token jwt now fresh token db).1.rows
  unfolding rotate_refresh_token check_stored
  rotate_succeeds now fresh token id p r db v t j f h a l u n =
      let i = find-id id db.rows r f in
      let whole : rotate_refresh_token jwt now fresh token db ≡ redeem jwt now fresh p r db =
        ground arith in
      let (pair, e) =
        redeem-ok now fresh p r db u
          (mark-some now r.id db.rows r (subst (λ z. find_by_id z db.rows ≡ some r) (sym i) f) u) in
      (
        pair,
        ap (λ w. w.0) whole ∙ e,
        subst (λ z. Spent z (rotate_refresh_token jwt now fresh token db).1.rows) i
            (subst (λ w. Spent r.id w.1.rows) (sym whole)
              (redeem-Spent now fresh p r db e λ z. n (z ∙ i))),
      )

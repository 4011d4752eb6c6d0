-- ===== src/Auth/Replay.antt =====
-- What follows when a refresh token is used twice, one request after the other or both at once.
use mathlib.Core.Path.{subst}
use qisma_be.Prelude.{
  ℕ, ◌+◌, ◌≤◌, ◌<◌, ◌≡◌, refl, sym, ap, ◌∙◌, true, none, some, List, [], ◌∷◌, ◌++◌, arith, map, ◌*◌,
}
use qisma_be.Prelude.Result.{ok}
use qisma_be.Auth.{
  TokenPayload, RefreshToken, Tokens, TokenPair, token_reused, JwtLib, find_by_id, unused,
  mark_as_used, revoke_user_sessions, on_reuse, generate_token_pair, check_stored, refresh,
  refresh_seconds,
}
use qisma_be.Auth.Stages.{
  reading, rotated, failed, Request, Event, turn, advance, run, serve, turn_at,
}
use qisma_be.Auth.Rotation.{find-id, mark-some, mark-none, mark-Spent}

-- The row as the mark leaves it.
abbrev marked_row : ℕ → RefreshToken → RefreshToken
marked_row now r = record r { used_at = some now }

module _ (jwt : JwtLib) where
  -- The checks that a token passes whose row is found.
  check-ok :
      (now token id : ℕ) (p : TokenPayload) (r : RefreshToken) (db : Tokens)
      → jwt.verify refresh now token ≡ some p
      → p.type ≡ refresh
      → p.jti ≡ some id
      → find_by_id id db.rows ≡ some r
      → r.token_hash ≡ jwt.hash_token token
      → r.is_valid ≡ true
      → now ≤ r.expires_at
      → check_stored jwt now token db ≡ ok (p, r)
  unfolding check_stored
  check-ok now token id p r db v t j f h a l = ground arith

  -- Two requests with the same token, the first about to create its new row while the second, which
  -- has lost the mark, carries out the whole answer to a reuse.
  abbrev pub overtaken : ℕ → ℕ → List Event
  overtaken now later =
      turn now 0
      ∷ turn now 1
      ∷ turn now 0
      ∷ turn now 1
      ∷ turn now 1
      ∷ turn now 1
      ∷ turn now 1
      ∷ turn later 0
      ∷ []

  abbrev pub at_start : ℕ → ℕ → Request
  at_start token fresh = record { token = token; fresh = fresh; stage = reading }

  -- The tables when the second request has thrown.
  abbrev after_reuse : ℕ → RefreshToken → Tokens → Tokens
  after_reuse now r db =
      let m = mark_as_used now r.id (mark_as_used now r.id db.rows).1 in
      on_reuse now r (record db { rows = m.1 })

  overtaken_lem :
      (now later fresh other token : ℕ) (p : TokenPayload) (r : RefreshToken) (db : Tokens)
      → check_stored jwt now token db ≡ ok (p, r)
      → unused r ≡ true
      → 0 < (mark_as_used now r.id db.rows).0
      → (mark_as_used now r.id (mark_as_used now r.id db.rows).1).0 ≡ 0
      → let (pair, db') =
          generate_token_pair jwt later fresh r.user_id p.identifier r.family_id
            (after_reuse now r db) in
        run jwt (overtaken now later) (at_start token fresh ∷ at_start token other ∷ []) db ≡ (
          record { token = token; fresh = fresh; stage = rotated r pair }
              ∷ record { token = token; fresh = other; stage = failed token_reused }
              ∷ [],
          db',
        )
  unfolding run serve turn_at advance on_reuse revoke_user_sessions
  overtaken_lem now later fresh other token p r db c u a b = ground (arith, c, u, a, b)

  -- Two requests may use the same token, which verifies and whose row has its hash, is valid, not
  -- expired and not used, in such an order that the second throws TOKEN_REUSED and marks the user's
  -- sessions as revoked, and the first returns a new pair all the same; the last row of the table is
  -- that of its refresh token, valid, not used and good for seven days.
  pub race_leaves_valid :
      (now later fresh other token id : ℕ) (p : TokenPayload) (r : RefreshToken) (db : Tokens)
      → jwt.verify refresh now token ≡ some p
      → p.type ≡ refresh
      → p.jti ≡ some id
      → find_by_id id db.rows ≡ some r
      → r.token_hash ≡ jwt.hash_token token
      → r.is_valid ≡ true
      → now ≤ r.expires_at
      → r.used_at ≡ none
      → let (qs, db') =
          run jwt (overtaken now later) (at_start token fresh ∷ at_start token other ∷ []) db in
        (pair : TokenPair) × (row : RefreshToken) × (rows : List RefreshToken) × (map
            (λ q. q.stage)
            qs
          ≡ rotated r pair ∷ failed token_reused ∷ [])
        × (db'.revoked r.user_id ≡ some now)
        × (db'.rows ≡ rows ++ (row ∷ []))
        × (row.id ≡ fresh)
        × (row.user_id ≡ r.user_id)
        × (row.token_hash ≡ jwt.hash_token pair.refresh_token)
        × (row.is_valid ≡ true)
        × (row.used_at ≡ none)
        × (row.expires_at ≡ later + refresh_seconds * 1000)
  unfolding generate_token_pair on_reuse revoke_user_sessions
  race_leaves_valid now later fresh other token id p r db v t j f h a l u =
      let i = find-id id db.rows r f in
      let first =
        mark-some now r.id db.rows r (subst (λ z. find_by_id z db.rows ≡ some r) (sym i) f) u in
      let second = mark-none now r.id _ (mark-Spent now r.id db.rows) in
      let whole =
        overtaken_lem now later fresh other token p r db
          (check-ok now token id p r db v t j f h a l) (ground (arith, u)) first second in
      let made =
        generate_token_pair jwt later fresh r.user_id p.identifier r.family_id
          (after_reuse now r db) in
      let t' = made.0.refresh_token in
      (
        made.0,
        record {
          id = fresh;
          user_id = r.user_id;
          token_hash = jwt.hash_token t';
          family_id = r.family_id;
          is_valid = true;
          used_at = none;
          revoked_at = none;
          expires_at = later + refresh_seconds * 1000;
        },
        (after_reuse now r db).rows,
        ap (λ w. map (λ q. q.stage) w.0) whole,
        ap (λ w. w.1.revoked r.user_id) whole ∙ ground arith,
        ap (λ w. w.1.rows) whole,
        refl,
        refl,
        refl,
        refl,
        refl,
        refl,
      )

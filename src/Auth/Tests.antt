-- ===== src/Auth/Tests.antt =====
-- Rotation on inputs: a token is signed as its id, and verifies as a refresh token of user 1.
use qisma_be.Prelude.{
  ℕ, ◌≡◌, ◌≤◌, refl, true, none, some, [], ◌∷◌, arith, List, map, ◌⊎◌, ◌++◌, ◌+◌, ◌*◌,
}
use qisma_be.Prelude.Result.{ok}
use qisma_be.Auth.{
  TokenPayload, RefreshToken, Tokens, TokenPair, refresh_seconds, token_reused, JwtLib, refresh,
  find_by_id, redeem, generate_token_pair, mark_as_used, rotate_refresh_token, check_stored,
}
use qisma_be.Auth.Stages.{
  Request, Event, turn, login, sweep, run, serve, turn_at, advance, flagging, rotated, failed,
}
use qisma_be.Auth.Races.{race_one_winner, winners}
use qisma_be.Auth.Replay.{race_leaves_valid, overtaken, at_start}
use qisma_be.Auth.Rotation.{rotate_needs_valid, rotate_succeeds, Spent}

abbrev payload : ℕ → TokenPayload
payload id = record { sub = 1; identifier = 9; jti = some id; type = refresh; iat = some 1 }

abbrev jwt : JwtLib
jwt = record {
  sign = λ t p. elim p.jti [ none ↦ 0 | some id ↦ id ];
  verify = λ t now token. some (payload token);
  hash_token = λ token. token;
}

abbrev stored : RefreshToken
stored = record {
  id = 5;
  user_id = 1;
  token_hash = 5;
  family_id = 2;
  is_valid = true;
  used_at = none;
  revoked_at = none;
  expires_at = 10000;
}

abbrev db : Tokens
db = record { rows = stored ∷ []; revoked = λ u. none }

abbrev pair : TokenPair
pair = record { access_token = 0; refresh_token = 6; expires_in = 900 }

-- Two requests with the same token, a login and a sweep.
abbrev requests : List Request
requests = at_start jwt 5 6 ∷ at_start jwt 5 7 ∷ []

abbrev events : List Event
events =
    turn 2000 0
    ∷ turn 2000 1
    ∷ turn 2001 1
    ∷ login 2001 8 2 4 3
    ∷ turn 2002 0
    ∷ turn 2002 1
    ∷ sweep 2003
    ∷ turn 2004 0
    ∷ []

first_loses :
    map (λ q. q.stage) (run jwt events requests db).0
    ≡ flagging stored ∷ rotated stored (record pair { refresh_token = 7 }) ∷ []
unfolding run serve turn_at advance check_stored mark_as_used generate_token_pair
first_loses = refl

race_one_winner_example :
    let (qs, db') = run jwt events requests db in
    (winners 5 qs ≡ 0) ⊎ ((winners 5 qs ≡ 1) × Spent 5 db'.rows)
race_one_winner_example =
    race_one_winner jwt 5 events requests db
      (tt, (tt, (tt, ((λ e. absurd (ground arith)), (tt, (tt, (tt, (tt, tt))))))))
      ((λ e. absurd (ground arith)), ((λ e. absurd (ground arith)), tt)) (refl, (refl, tt))

race_leaves_valid_example :
    let (qs, db') =
      run jwt (overtaken jwt 2000 2001) (at_start jwt 5 6 ∷ at_start jwt 5 7 ∷ []) db in
    (q : TokenPair) × (row : RefreshToken) × (rows : List RefreshToken) × (map (λ z. z.stage) qs
      ≡ rotated stored q ∷ failed token_reused ∷ [])
    × (db'.revoked 1 ≡ some 2000)
    × (db'.rows ≡ rows ++ (row ∷ []))
    × (row.id ≡ 6)
    × (row.user_id ≡ 1)
    × (row.token_hash ≡ jwt.hash_token q.refresh_token)
    × (row.is_valid ≡ true)
    × (row.used_at ≡ none)
    × (row.expires_at ≡ 2001 + refresh_seconds * 1000)
race_leaves_valid_example =
    race_leaves_valid jwt 2000 2001 6 7 5 5 (payload 5) stored db refl refl refl refl refl refl
      (omega arith) refl

rotate_needs_valid_example :
    (p : TokenPayload) × (id : ℕ) × (r : RefreshToken) × (jwt.verify refresh 2000 5 ≡ some p)
    × (p.jti ≡ some id)
    × (find_by_id id db.rows ≡ some r)
    × (r.token_hash ≡ jwt.hash_token 5)
    × (r.is_valid ≡ true)
    × (2000 ≤ r.expires_at)
unfolding rotate_refresh_token check_stored redeem generate_token_pair mark_as_used
rotate_needs_valid_example = rotate_needs_valid jwt 2000 6 5 db pair refl

rotate_succeeds_example :
    (q : TokenPair) × ((rotate_refresh_token jwt 2000 6 5 db).0 ≡ ok q)
    × Spent 5 (rotate_refresh_token jwt 2000 6 5 db).1.rows
rotate_succeeds_example =
    rotate_succeeds jwt 2000 6 5 5 (payload 5) stored db refl refl refl refl refl refl (omega arith)
      refl (λ e. absurd (ground arith))

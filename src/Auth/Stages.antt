-- ===== src/Auth/Stages.antt =====
-- src/modules/auth/services/token.service.ts: requests at `rotateRefreshToken` that run at the same
-- time. Each `await` on a store is a step of its own, between which any other request may run; what
-- stands between two of them runs with the first.
use qisma_be.Prelude.{ℕ, zero, suc, List, [], ◌∷◌, ◌==◌, if◌then◌else◌}
use qisma_be.Prelude.Result.{ok, err}
use qisma_be.Auth.{
  TokenPayload, RefreshToken, TokenError, token_reused, TokenPair, Tokens, JwtLib, unused,
  mark_as_used, revoke_family, revoke_all_for_user, flag_revoked, revoke_user_sessions,
  delete_expired, generate_token_pair, check_stored, revoke_refresh_token,
}

-- The statement that a request is at, with the variables that it has.
pub data Stage : Type 0 where
  -- `findById`, `markAsUsed` and `refreshTokenRepo.create`
  reading : Stage
  marking minting : TokenPayload → RefreshToken → Stage
  -- `revokeFamily`, and the two statements of `revokeUserSessions`
  revoking_family flagging revoking_user : RefreshToken → Stage
  -- It has returned, or thrown.
  rotated : RefreshToken → TokenPair → Stage
  failed : TokenError → Stage

-- A request: its token, the id that it draws for the new row, and where it is.
pub record Request : Type 0 where
  pub token : ℕ
  pub fresh : ℕ
  pub stage : Stage

-- What happens next: the turn of a request in the list, or another call on the tables.
pub data Event : Type 0 where
  turn : (now index : ℕ) → Event
  login : (now fresh user identifier family : ℕ) → Event
  logout : (now token : ℕ) → Event
  revoke_sessions : (now user : ℕ) → Event
  sweep : (now : ℕ) → Event

module _ (jwt : JwtLib) where
  -- One statement of a request.
  unfoldable pub advance : ℕ → ℕ → ℕ → Stage → Tokens → Stage × Tokens
  advance now fresh token reading db = elim (check_stored jwt now token db) [
    | err e ↦ (failed e, db)
    | ok (payload, stored) ↦
        (if unused stored then marking payload stored else revoking_family stored, db)
  ]
  advance now fresh token (marking payload stored) db =
      let (count, rows) = mark_as_used now stored.id db.rows in
      (
        if count == 0 then revoking_family stored else minting payload stored,
        record db { rows = rows },
      )
  advance now fresh token (minting payload stored) db =
      let (pair, db') =
        generate_token_pair jwt now fresh stored.user_id payload.identifier stored.family_id db in
      (rotated stored pair, db')
  advance now fresh token (revoking_family stored) db =
      (flagging stored, record db { rows = revoke_family now stored.family_id db.rows })
  advance now fresh token (flagging stored) db =
      (revoking_user stored, flag_revoked now stored.user_id db)
  advance now fresh token (revoking_user stored) db =
      (failed token_reused, record db { rows = revoke_all_for_user now stored.user_id db.rows })
  advance now fresh token (rotated stored pair) db = (rotated stored pair, db)
  advance now fresh token (failed e) db = (failed e, db)

  -- The request takes `n` steps with no other between them.
  unfoldable pub alone : ℕ → ℕ → ℕ → ℕ → Stage → Tokens → Stage × Tokens
  unfolding advance
  alone zero now fresh token stage db = (stage, db)
  alone (suc n) now fresh token stage db =
      let (stage', db') = advance now fresh token stage db in alone n now fresh token stage' db'

  -- The turn of the request at an index; there may be none.
  unfoldable pub turn_at : ℕ → ℕ → List Request → Tokens → List Request × Tokens
  turn_at now i [] db = ([], db)
  turn_at now zero (q ∷ qs) db =
      let (stage, db') = advance now q.fresh q.token q.stage db in
      (record q { stage = stage } ∷ qs, db')
  turn_at now (suc i) (q ∷ qs) db = let (qs', db') = turn_at now i qs db in (q ∷ qs', db')

  unfoldable pub serve : Event → List Request → Tokens → List Request × Tokens
  unfolding turn_at
  serve (turn now i) qs db = turn_at now i qs db
  serve (login now fresh user identifier family) qs db =
      (qs, (generate_token_pair jwt now fresh user identifier family db).1)
  serve (logout now token) qs db = (qs, revoke_refresh_token jwt now token db)
  serve (revoke_sessions now user) qs db = (qs, revoke_user_sessions now user db)
  serve (sweep now) qs db = (qs, record db { rows = delete_expired now db.rows })

  unfoldable pub run : List Event → List Request → Tokens → List Request × Tokens
  run [] qs db = (qs, db)
  run (e ∷ es) qs db = let (qs', db') = serve e qs db in run es qs' db'

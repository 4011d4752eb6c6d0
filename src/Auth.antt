-- ===== src/Auth.antt =====
-- src/modules/auth: services/token.service.ts over repositories/refresh-token.repository.ts. A text is
-- a number, and so is an id: they are only compared. The signing of tokens (the package @nestjs/jwt)
-- and the hash are operations of a parameter; the table of refresh tokens is the list of its rows,
-- and the marks of revocation are a function of the user.
pub mod Stages
pub mod Rotation
pub mod Races
pub mod Replay
pub mod Tests
use qisma_be.Prelude.{
  ℕ, suc, ◌+◌, ◌*◌, ◌/◌, Bool, true, false, not, ◌&&◌, ◌||◌, Option, none, some, List, [], ◌∷◌,
  ◌++◌, ltb, ◌==◌, if◌then◌else◌, find?, keep, length, map,
}
use qisma_be.Prelude.Result.{Result, ok, err}

pub data TokenType : Type 0 where
  access refresh : TokenType

-- `TokenPayload`, with the time of issue in seconds that signing adds.
pub record TokenPayload : Type 0 where
  pub sub : ℕ
  pub identifier : ℕ
  pub jti : Option ℕ
  pub type : TokenType
  pub iat : Option ℕ

-- A row of the table RefreshToken.
pub record RefreshToken : Type 0 where
  pub id : ℕ
  pub user_id : ℕ
  pub token_hash : ℕ
  pub family_id : ℕ
  pub is_valid : Bool
  pub used_at : Option ℕ
  pub revoked_at : Option ℕ
  pub expires_at : ℕ

pub data TokenError : Type 0 where
  invalid_refresh_token token_reused session_revoked bad_signature : TokenError

pub record TokenPair : Type 0 where
  pub access_token : ℕ
  pub refresh_token : ℕ
  pub expires_in : ℕ

-- The refresh tokens, and when the sessions of a user were revoked (the Redis key with the prefix
-- `auth:revoked:`; that it expires after seven days is left out).
pub record Tokens : Type 0 where
  pub rows : List RefreshToken
  pub revoked : ℕ → Option ℕ

-- `jwtService.sign` and `verify` with either secret, and SHA-256.
pub record JwtLib : Type 0 where
  pub sign : TokenType → TokenPayload → ℕ
  pub verify : TokenType → ℕ → ℕ → Option TokenPayload
  pub hash_token : ℕ → ℕ

-- `JWT_CONSTANTS`
abbrev pub access_seconds : ℕ
access_seconds = 900

abbrev pub refresh_seconds : ℕ
refresh_seconds = 604800

abbrev pub find_by_id : ℕ → List RefreshToken → Option RefreshToken
find_by_id id rows = find? (λ r. r.id == id) rows

-- `updateMany`: the rows that pass the test, changed.
abbrev pub update_many :
    (RefreshToken → Bool) → (RefreshToken → RefreshToken) → List RefreshToken → List RefreshToken
update_many p f [] = []
update_many p f (r ∷ rows) = (if p r then f r else r) ∷ update_many p f rows

abbrev pub unused : RefreshToken → Bool
unused r = elim r.used_at [ none ↦ true | some _ ↦ false ]

-- `markAsUsed`: the count of the rows that it changed, and the table.
unfoldable pub mark_as_used : ℕ → ℕ → List RefreshToken → ℕ × List RefreshToken
mark_as_used now id rows =
    let p : RefreshToken → Bool = λ r. r.id == id && unused r in
    (length (keep p rows), update_many p (λ r. record r { used_at = some now }) rows)

abbrev invalidate : ℕ → RefreshToken → RefreshToken
invalidate now r = record r { is_valid = false; revoked_at = some now }

-- `revoke`, `revokeFamily` and `revokeAllForUser`
abbrev pub revoke : ℕ → ℕ → List RefreshToken → List RefreshToken
revoke now id rows = update_many (λ r. r.id == id && r.is_valid) (invalidate now) rows

abbrev pub revoke_family : ℕ → ℕ → List RefreshToken → List RefreshToken
revoke_family now family rows =
    update_many (λ r. r.family_id == family && r.is_valid) (invalidate now) rows

abbrev pub revoke_all_for_user : ℕ → ℕ → List RefreshToken → List RefreshToken
revoke_all_for_user now user rows =
    update_many (λ r. r.user_id == user && r.is_valid) (invalidate now) rows

-- `deleteExpired`
abbrev pub delete_expired : ℕ → List RefreshToken → List RefreshToken
delete_expired now rows = keep (λ r. not (ltb r.expires_at now)) rows

-- The first statement of `revokeUserSessions`: the key in Redis.
abbrev pub flag_revoked : ℕ → ℕ → Tokens → Tokens
flag_revoked now user db = record db { revoked = λ u. if u == user then some now else db.revoked u }

-- `revokeUserSessions`
unfoldable pub revoke_user_sessions : ℕ → ℕ → Tokens → Tokens
revoke_user_sessions now user db =
    let flagged = flag_revoked now user db in
    record flagged { rows = revoke_all_for_user now user flagged.rows }

-- `isUserRevoked`; a time of issue 0 is as none.
abbrev pub is_user_revoked : ℕ → TokenPayload → Tokens → Bool
is_user_revoked user payload db = elim (db.revoked user) [
  | none ↦ false
  | some at_ms ↦ elim payload.iat [ some (suc iat) ↦ ltb (suc iat * 1000) at_ms | _ ↦ true ]
]

-- What a reuse does before it throws.
unfoldable pub on_reuse : ℕ → RefreshToken → Tokens → Tokens
on_reuse now stored db =
    revoke_user_sessions now stored.user_id
      (record db { rows = revoke_family now stored.family_id db.rows })

module _ (jwt : JwtLib) where
  open jwt use {sign, verify, hash_token}

  -- `generateTokenPair`, with the id that it draws.
  unfoldable pub generate_token_pair : ℕ → ℕ → ℕ → ℕ → ℕ → Tokens → TokenPair × Tokens
  generate_token_pair now fresh user identifier family db =
      let iat = now / 1000 in
      let access_payload : TokenPayload = record {
        sub = user;
        identifier = identifier;
        jti = none;
        type = access;
        iat = some iat;
      } in
      let refresh_payload : TokenPayload = record {
        sub = user;
        identifier = identifier;
        jti = some fresh;
        type = refresh;
        iat = some iat;
      } in
      let refresh_token = sign refresh refresh_payload in
      let row : RefreshToken = record {
        id = fresh;
        user_id = user;
        token_hash = hash_token refresh_token;
        family_id = family;
        is_valid = true;
        used_at = none;
        revoked_at = none;
        expires_at = now + refresh_seconds * 1000;
      } in
      let pair : TokenPair = record {
        access_token = sign access access_payload;
        refresh_token = refresh_token;
        expires_in = access_seconds;
      } in
      (pair, record db { rows = db.rows ++ (row ∷ []) })

  -- `verifyAccessToken`
  unfoldable pub verify_access_token : ℕ → ℕ → Tokens → Result TokenError TokenPayload
  verify_access_token now token db = elim (verify access now token) [
    | none ↦ err bad_signature
    | some payload ↦
        if is_user_revoked payload.sub payload db then err session_revoked else ok payload
  ]

  abbrev is_refresh : TokenType → Bool
  is_refresh refresh = true
  is_refresh access = false

  -- The id of a payload that is of a refresh token.
  abbrev refresh_id : TokenPayload → Option ℕ
  refresh_id payload = if is_refresh payload.type then payload.jti else none

  -- `rotateRefreshToken` up to `findById` and the checks of the row: two requests may both get past
  -- them before either goes on.
  unfoldable pub check_stored : ℕ → ℕ → Tokens → Result TokenError (TokenPayload × RefreshToken)
  check_stored now token db = elim (verify refresh now token) [
    | none ↦ err bad_signature
    | some payload ↦ elim (refresh_id payload) [
      | none ↦ err invalid_refresh_token
      | some id ↦ elim (find_by_id id db.rows) [
        | none ↦ err invalid_refresh_token
        | some stored ↦
            if not (stored.token_hash == hash_token token)
              || not stored.is_valid
              || ltb stored.expires_at now
            then err invalid_refresh_token
            else ok (payload, stored)
      ]
    ]
  ]

  -- The rest of it, on the row as it was read, where no other request comes between its statements
  -- (`Stages` takes them one at a time): the reuse check, the mark, and the new pair.
  unfoldable pub redeem :
      ℕ → ℕ → TokenPayload → RefreshToken → Tokens → Result TokenError TokenPair × Tokens
  redeem now fresh payload stored db =
      let (count, rows) = mark_as_used now stored.id db.rows in
      let marked = record db { rows = rows } in
      let (pair, db') =
        generate_token_pair now fresh stored.user_id payload.identifier stored.family_id marked in
      if not (unused stored)
      then (err token_reused, on_reuse now stored db)
      else (if count == 0 then (err token_reused, on_reuse now stored marked) else (ok pair, db'))

  unfoldable pub rotate_refresh_token : ℕ → ℕ → ℕ → Tokens → Result TokenError TokenPair × Tokens
  rotate_refresh_token now fresh token db = elim (check_stored now token db) [
    | err e ↦ (err e, db)
    | ok (payload, stored) ↦ redeem now fresh payload stored db
  ]

  -- `revokeRefreshToken`: silent where the token does not verify.
  unfoldable pub revoke_refresh_token : ℕ → ℕ → Tokens → Tokens
  revoke_refresh_token now token db = elim (verify refresh now token) [
    | none ↦ db
    | some payload ↦ elim payload.jti [
      | none ↦ db
      | some id ↦ record db { rows = revoke now id db.rows }
    ]
  ]

-- ===== src/Otp.antt =====
-- src/modules/otp/otp.service.ts and services/rate-limit.service.ts. `now` is the clock in milliseconds
-- during a request, the random session id and code are arguments, and an answer carries the state of
-- the Redis server that the request leaves, also where it throws.
pub mod Codes
pub mod Tests
use qisma_be.Prelude.{
  ℕ, zero, suc, ◌+◌, ◌-◌, ◌*◌, Bool, true, false, not, ◌&&◌, Option, none, some, List, [], ◌∷◌, leb,
  ltb, ◌==◌, if◌then◌else◌, keep,
}
use qisma_be.Prelude.Result.{Result, ok, err}
use qisma_be.Redis.{
  Text, active, OtpSession, Kind, Key, key, session, attempts, cooldown, identifier_session,
  phone_rate_limit, ip_rate_limit, verify_rate_limit, Value, number, text, otp_session, RedisLib,
}
use qisma_be.Redis.Scripts.{
  Code, text_eq, seconds, success, already_verified, session_not_found, otp_expired, invalid_otp,
  session_locked, max_attempts, atomic_increment_with_limit, atomic_verify_otp,
}

-- `OTP_CONSTANTS`, in seconds.
abbrev pub expiry_seconds : ℕ
expiry_seconds = 300

abbrev pub max_attempts_allowed : ℕ
max_attempts_allowed = 5

abbrev pub cooldown_seconds : ℕ
cooldown_seconds = 60

abbrev pub lock_duration_seconds : ℕ
lock_duration_seconds = 900

-- The idempotency TTL that `verifyOtp` passes.
abbrev pub idempotency_ttl : ℕ
idempotency_ttl = 60

-- `RATE_LIMIT_CONSTANTS`: how many requests in how many seconds.
abbrev pub max_requests : Kind → ℕ
max_requests phone_rate_limit = 5
max_requests _ = 10

abbrev pub window_seconds : ℕ
window_seconds = 60

pub data OtpError : Type 0 where
  ip_rate_limited cooldown_active phone_rate_limited verify_rate_limited : ℕ → OtpError
  internal_error session_not_found_exception otp_expired_exception : OtpError
  max_attempts_exception invalid_otp_exception : OtpError
  session_locked_exception : Option ℕ → OtpError

-- `normalizePhone`: the digits.
abbrev pub normalize_phone : Text → Text
normalize_phone = keep λ c. leb b'0' c && leb c b'9'

-- `ip.startsWith(prefix)`, and what follows the prefix.
abbrev pub strip_prefix : Text → Text → Option Text
strip_prefix [] t = some t
strip_prefix (p ∷ ps) [] = none
strip_prefix (p ∷ ps) (c ∷ cs) = let rest = strip_prefix ps cs in if p == c then rest else none

-- `::1`
abbrev localhost_v6 : Text
localhost_v6 = 58 ∷ 58 ∷ 49 ∷ []

-- `127.0.0.1`
abbrev localhost : Text
localhost = 49 ∷ 50 ∷ 55 ∷ 46 ∷ 48 ∷ 46 ∷ 48 ∷ 46 ∷ 49 ∷ []

-- `unknown`
abbrev unknown : Text
unknown = 117 ∷ 110 ∷ 107 ∷ 110 ∷ 111 ∷ 119 ∷ 110 ∷ []

-- `::ffff:`
abbrev mapped : Text
mapped = 58 ∷ 58 ∷ 102 ∷ 102 ∷ 102 ∷ 102 ∷ 58 ∷ []

unfoldable pub normalize_ip : Text → Text
normalize_ip ip =
    if text_eq ip []
    then unknown
    else (if text_eq ip localhost_v6
        then localhost
        else elim (strip_prefix mapped ip) [ none ↦ ip | some rest ↦ rest ])

pub record SendOtpData : Type 0 where
  pub session_id : Text
  pub expires_at : ℕ
  pub retry_after : ℕ

module _ (lib : RedisLib) where
  open lib use {Server, get, setex, del, incr, expire, ttl}

  -- `checkPhoneRateLimit`, `checkIpRateLimit`, `checkVerifyRateLimit`: what is left, or after how
  -- many seconds to try again.
  unfoldable pub check_rate_limit : Kind → Text → ℕ → Server → Result ℕ ℕ × Server
  check_rate_limit kind name now s =
      let (a, s') =
        atomic_increment_with_limit lib (key kind name) (max_requests kind) window_seconds now s in
      let t = ttl (key kind name) now s' in
      if a.0
      then (ok (max_requests kind - a.1), s')
      else (err (if ltb 0 t then t else window_seconds), s')

  unfoldable pub forget_session : Text → Option Value → Server → Server
  forget_session identifier (some (text id)) s =
      if text_eq id []
      then s
      else del (key identifier_session identifier) (del (key attempts id) (del (key session id) s))
  forget_session identifier _ s = s

  unfoldable pub invalidate_existing_session : Text → ℕ → Server → Server
  invalidate_existing_session identifier now s =
      forget_session identifier (get (key identifier_session identifier) now s) s

  -- Steps 4 and 5 of `sendOtp`, with the id and the code that are drawn.
  unfoldable pub open_session : Text → Text → Text → ℕ → Server → SendOtpData × Server
  open_session identifier id code now s =
      let ends = now + expiry_seconds * 1000 in
      let fresh : OtpSession = record {
        session_id = id;
        otp = code;
        identifier = identifier;
        status = active;
        created_at = now;
        expires_at = ends;
        locked_until = none;
      } in
      let s0 = invalidate_existing_session identifier now s in
      let s1 = setex (key session id) expiry_seconds (otp_session fresh) now s0 in
      let s2 = setex (key identifier_session identifier) expiry_seconds (text id) now s1 in
      let s3 = setex (key cooldown identifier) cooldown_seconds (text (49 ∷ [])) now s2 in
      let answer : SendOtpData = record {
        session_id = id;
        expires_at = ends;
        retry_after = cooldown_seconds;
      } in
      (answer, s3)

  unfoldable pub send_otp :
      Text → Text → Text → Text → ℕ → Server → Result OtpError SendOtpData × Server
  send_otp phone ip id code now s =
      let identifier = normalize_phone phone in
      let wait = ttl (key cooldown identifier) now in
      let (by_ip, s1) = check_rate_limit ip_rate_limit (normalize_ip ip) now s in
      let (by_phone, s2) = check_rate_limit phone_rate_limit identifier now s1 in
      let (sent, s3) = open_session identifier id code now s2 in
      elim by_ip [
        | err retry ↦ (err (ip_rate_limited retry), s1)
        | ok _ ↦ if ltb 0 (wait s1) then (err (cooldown_active (wait s1)), s1) else elim by_phone [
          | err retry ↦ (err (phone_rate_limited retry), s2)
          | ok _ ↦ (ok sent, s3)
        ]
      ]

  -- `clearSendCooldownForIdentifier`
  unfoldable pub clear_send_cooldown : Text → Server → Server
  clear_send_cooldown identifier s = del (key cooldown (normalize_phone identifier)) s

  -- `verifyOtp`. `login` is what follows a success: `upsertVerifiedLogin`,
  -- `claimPendingPhoneInvitesAfterSignup` and `generateTokenPair` for the identifier.
  module _ {T : Type 0} (login : Text → Server → Result OtpError T × Server) where
    unfoldable pub answer : Code → ℕ → Server → Result OtpError T × Server
    answer (success x) now s = login x.identifier (del (key identifier_session x.identifier) s)
    answer already_verified now s = (err internal_error, s)
    answer session_not_found now s = (err session_not_found_exception, s)
    answer (session_locked u) now s =
        let retry = seconds (u - now) in
        (err (session_locked_exception (if ltb 0 u && ltb 0 retry then some retry else none)), s)
    answer otp_expired now s = (err otp_expired_exception, s)
    answer (max_attempts u) now s = (err max_attempts_exception, s)
    answer invalid_otp now s = (err invalid_otp_exception, s)

    unfoldable pub verify_otp : Text → Text → ℕ → Server → Result OtpError T × Server
    verify_otp id code now s =
        let (limit, s1) = check_rate_limit verify_rate_limit id now s in
        let (c, s2) =
          atomic_verify_otp lib (key session id) (key attempts id) code max_attempts_allowed
            lock_duration_seconds idempotency_ttl now s1 in
        elim limit [ err retry ↦ (err (verify_rate_limited retry), s1) | ok _ ↦ answer c now s2 ]

-- ===== src/Redis/Scripts.antt =====
-- src/infrastructure/redis/redis.service.ts: the Lua scripts, each run as one step of the server at
-- the time `now`.
use qisma_be.Prelude.{
  ℕ, ◌+◌, ◌-◌, ◌*◌, ◌/◌, Bool, true, false, not, ◌&&◌, Option, none, some, [], ◌∷◌, leb, ltb, ◌==◌,
  if◌then◌else◌,
}
use qisma_be.Redis.{
  Text, SessionStatus, active, verified, locked, OtpSession, Key, Value, otp_session, count_of,
  RedisLib,
}

abbrev pub text_eq : Text → Text → Bool
text_eq [] [] = true
text_eq (x ∷ xs) (y ∷ ys) = x == y && text_eq xs ys
text_eq _ _ = false

-- `session.status ~= status`
abbrev pub same_status : SessionStatus → SessionStatus → Bool
same_status active active = true
same_status verified verified = true
same_status locked locked = true
same_status _ _ = false

-- The codes 1 to 7 of `atomicVerifyOtp`.
pub data Code : Type 0 where
  success : OtpSession → Code
  already_verified session_not_found otp_expired invalid_otp : Code
  session_locked max_attempts : ℕ → Code

-- `if current`
abbrev pub is_there : Option Value → Bool
is_there none = false
is_there (some _) = true

-- `math.ceil(ms / 1000)`, 0 for what is not positive.
abbrev pub seconds : ℕ → ℕ
seconds ms = (ms + 999) / 1000

-- The session that GET decodes.
abbrev pub session_of : Option Value → Option OtpSession
session_of (some (otp_session x)) = some x
session_of _ = none

-- Step 3 where the lock still holds.
abbrev pub held : ℕ → OtpSession → Option ℕ
held now x = elim x.locked_until [ none ↦ none | some u ↦ if ltb now u then some u else none ]

-- Steps 2 and 3: the answer for a session that is active, locked until a time or no longer locked.
abbrev pub by_status {ℓ} :
    {S : Type ℓ} → SessionStatus → Option ℕ → S → Code × S → Code × S → Code × S
by_status verified h s go_on reset = (already_verified, s)
by_status active h s go_on reset = go_on
by_status locked (some until) s go_on reset = (session_locked until, s)
by_status locked none s go_on reset = reset

module _ (lib : RedisLib) where
  open lib use {Server, get, setex, del, incr, expire}

  -- INCR, with EXPIRE where it returns 1.
  unfoldable pub count_up : Key → ℕ → ℕ → Server → ℕ × Server
  count_up k secs now s =
      let (n, s1) = incr k now s in (n, if n == 1 then expire k secs now s1 else s1)

  -- `{allowed, attempts}`
  unfoldable pub atomic_increment_with_limit : Key → ℕ → ℕ → ℕ → Server → (Bool × ℕ) × Server
  atomic_increment_with_limit k max secs now s =
      let current = count_of (get k now s) in
      let there = is_there (get k now s) in
      let (n, s') = count_up k secs now s in
      if there && leb max current then ((false, current), s) else ((leb n max, n), s')

  unfoldable pub atomic_session_update :
      Key → SessionStatus → OtpSession → ℕ → ℕ → Server → Bool × Server
  atomic_session_update k expected new secs now s = elim (session_of (get k now s)) [
    | none ↦ (false, s)
    | some x ↦
        if not (same_status x.status expected)
        then (false, s)
        else (true, setex k secs (otp_session new) now s)
  ]

  -- Steps 6 and 7, with the number of this attempt.
  unfoldable pub compare_otp :
      Key → Key → Text → ℕ → ℕ → ℕ → ℕ → ℕ → OtpSession → Server → Code × Server
  compare_otp sk ak input max lock idem now n x s =
      let until = now + lock * 1000 in
      let shut = record x { status = locked; locked_until = some until } in
      let left = seconds (x.expires_at - now) in
      let done = record x { status = verified } in
      if not (text_eq x.otp input)
      then (if leb max n
          then (max_attempts until, setex sk lock (otp_session shut) now s)
          else (invalid_otp, if ltb 0 left then setex sk left (otp_session x) now s else s))
      else (success done, del ak (setex sk idem (otp_session done) now s))

  -- Steps 4 and 5.
  unfoldable pub attempt : Key → Key → Text → ℕ → ℕ → ℕ → ℕ → OtpSession → Server → Code × Server
  attempt sk ak input max lock idem now x s =
      let (n, s') = count_up ak lock now s in
      if ltb x.expires_at now
      then (otp_expired, s)
      else compare_otp sk ak input max lock idem now n x s'

  unfoldable pub check_session :
      Key → Key → Text → ℕ → ℕ → ℕ → ℕ → OtpSession → Server → Code × Server
  check_session sk ak input max lock idem now x s =
      let reset = record x { status = active; locked_until = none } in
      by_status x.status (held now x) s (attempt sk ak input max lock idem now x s)
        (attempt sk ak input max lock idem now reset (del ak s))

  unfoldable pub atomic_verify_otp : Key → Key → Text → ℕ → ℕ → ℕ → ℕ → Server → Code × Server
  atomic_verify_otp sk ak input max lock idem now s = elim (session_of (get sk now s)) [
    | none ↦ (session_not_found, s)
    | some x ↦ check_session sk ak input max lock idem now x s
  ]

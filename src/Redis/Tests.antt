-- ===== src/Redis/Tests.antt =====
-- The scripts on inputs, over the model of the commands.
use qisma_be.Prelude.{ℕ, ◌+◌, ◌*◌, ◌≤◌, ◌<◌, ◌≡◌, refl, none, List, [], ◌∷◌, arith, length}
use qisma_be.Redis.{
  Text, SessionStatus, active, verified, OtpSession, key, session, attempts, ip_rate_limit,
  otp_session,
}
use qisma_be.Redis.Model.{model, Model-IsRedis, Entry}
use qisma_be.Redis.Scripts.{
  Code, success, already_verified, session_not_found, atomic_verify_otp, count_up, check_session,
  attempt, compare_otp,
}
use qisma_be.Redis.Once.{success_once}
use qisma_be.Redis.Right.{right_code_after_wrong, Waits, after_all}
use qisma_be.Redis.Limit.{allowed, window_limit}
use qisma_be.Otp.Codes.{session_attempts}

abbrev opened : SessionStatus → OtpSession
opened st = record {
  session_id = 1 ∷ [];
  otp = 7 ∷ [];
  identifier = 9 ∷ [];
  status = st;
  created_at = 1000;
  expires_at = 301000;
  locked_until = none;
}

abbrev start : List Entry
start = model.setex (key session (1 ∷ [])) 300 (otp_session (opened active)) 1000 []

abbrev call : Text → ℕ → List Entry → Code × List Entry
call input now s =
    atomic_verify_otp model (key session (1 ∷ [])) (key attempts (1 ∷ [])) input 5 900 60 now s

success_once_example :
    let s' = (call (7 ∷ []) 2000 start).1 in
    (3000 < 2000 + 60 * 1000 → (call (8 ∷ []) 3000 s').0 ≡ already_verified)
    × (2000 + 60 * 1000 ≤ 3000 → (call (8 ∷ []) 3000 s').0 ≡ session_not_found)
unfolding atomic_verify_otp check_session attempt compare_otp count_up
success_once_example =
    success_once model Model-IsRedis 5 900 60 (key session (1 ∷ [])) (key attempts (1 ∷ [])) 2000
      3000 (7 ∷ []) (8 ∷ []) start (opened verified) (session_attempts (1 ∷ [])) refl

window_limit_example :
    let k = key ip_rate_limit (1 ∷ []) in
    let ts : List ℕ = 1000 ∷ 2000 ∷ 3000 ∷ [] in
    (length ts ≤ 2 → allowed model Model-IsRedis k 2 60 ts [] ≡ length ts)
    × (2 ≤ length ts → allowed model Model-IsRedis k 2 60 ts [] ≡ 2)
window_limit_example =
    window_limit model Model-IsRedis (key ip_rate_limit (1 ∷ [])) 2 60 1000 (2000 ∷ 3000 ∷ []) []
      (omega arith) refl (omega arith, omega arith, (omega arith, omega arith, tt))

-- Two wrong codes, and then the right one.
abbrev wrong_codes : List (ℕ × Text)
wrong_codes = (2000, 8 ∷ []) ∷ (3000, 9 ∷ []) ∷ []

start-Waits :
    Waits model Model-IsRedis 5 900 60
      (key session (1 ∷ []))
      (key attempts (1 ∷ []))
      (session_attempts (1 ∷ []))
      (opened active)
      0
      1000
      start
start-Waits = (λ u b d. ground arith, λ u b d. ground arith)

right_code_after_wrong_example :
    (call (7 ∷ []) 4000 (
      after_all model Model-IsRedis 5 900 60
        (key session (1 ∷ []))
        (key attempts (1 ∷ []))
        (session_attempts (1 ∷ []))
        (opened active)
        wrong_codes
        start)).0
    ≡ success (opened verified)
right_code_after_wrong_example =
    right_code_after_wrong model Model-IsRedis 5 900 60 (key session (1 ∷ []))
      (key attempts (1 ∷ [])) (session_attempts (1 ∷ [])) (opened active) 0 1000 4000 wrong_codes
      (7 ∷ []) start refl refl (refl, (refl, tt)) (omega arith)
      (omega arith, (omega arith, omega arith)) (omega arith) (omega arith) start-Waits

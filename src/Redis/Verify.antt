-- ===== src/Redis/Verify.antt =====
-- One run of `atomicVerifyOtp`: what it answers, and which keys it leaves alone.
use qisma_be.Prelude.{ℕ, ◌+◌, ◌-◌, ◌*◌, ◌≡◌, ◌≢◌, inl, inr, none, some, arith, Option-cases}
use qisma_be.Redis.{Text, active, verified, locked, OtpSession, Key, otp_session, RedisLib, IsRedis}
use qisma_be.Redis.Scripts.{
  seconds, count_up, session_of, compare_otp, attempt, check_session, atomic_verify_otp,
}

module _ (lib : RedisLib) (laws : IsRedis lib) where
  open lib use {Server, get, setex, del, incr, expire}
  open laws use {
    get-setex, get-setex_late, get-setex_other, get-del, get-del_other, get-incr_other,
    get-expire_other,
  }

  pub count_up-other :
      (k ak : Key) (secs now t : ℕ) (s : Server)
      → ak ≢ k
      → get k t (count_up lib ak secs now s).1 ≡ get k t s
  unfolding count_up
  count_up-other k ak secs now t s q =
      ground
        (arith, get-incr_other ak k now t s q, get-expire_other ak k secs now t (incr ak now s).1 q)

  compare_otp-other :
      (k sk ak : Key) (input : Text) (max lock idem now n t : ℕ) (x : OtpSession) (s : Server)
      → sk ≢ k
      → ak ≢ k
      → get k t (compare_otp lib sk ak input max lock idem now n x s).1 ≡ get k t s
  unfolding compare_otp
  compare_otp-other k sk ak input max lock idem now n t x s p q =
      let until = now + lock * 1000 in
      let shut = otp_session (record x { status = locked; locked_until = some until }) in
      let done = otp_session (record x { status = verified }) in
      ground (
        arith,
        get-setex_other sk k lock now t shut s p,
        get-setex_other sk k (seconds (x.expires_at - now)) now t (otp_session x) s p,
        get-setex_other sk k idem now t done s p,
        get-del_other ak k t (setex sk idem done now s) q,
      )

  attempt-other :
      (k sk ak : Key) (input : Text) (max lock idem now t : ℕ) (x : OtpSession) (s : Server)
      → sk ≢ k
      → ak ≢ k
      → get k t (attempt lib sk ak input max lock idem now x s).1 ≡ get k t s
  unfolding attempt
  attempt-other k sk ak input max lock idem now t x s p q =
      let (n, s') = count_up lib ak lock now s in
      ground (
        arith,
        compare_otp-other k sk ak input max lock idem now n t x s' p q,
        count_up-other k ak lock now t s q,
      )

  check-other :
      (k sk ak : Key) (input : Text) (max lock idem now t : ℕ) (x : OtpSession) (s : Server)
      → sk ≢ k
      → ak ≢ k
      → get k t (check_session lib sk ak input max lock idem now x s).1 ≡ get k t s
  unfolding check_session
  check-other k sk ak input max lock idem now t x s p q = ground (
    arith,
    attempt-other k sk ak input max lock idem now t x s p q,
    attempt-other k sk ak input max lock idem now t
        (record x { status = active; locked_until = none }) (del ak s) p q,
    get-del_other ak k t s q,
  )

  -- A key that is neither of the two is left alone.
  pub verify-other :
      (k sk ak : Key) (input : Text) (max lock idem now t : ℕ) (s : Server)
      → sk ≢ k
      → ak ≢ k
      → get k t (atomic_verify_otp lib sk ak input max lock idem now s).1 ≡ get k t s
  unfolding atomic_verify_otp
  verify-other k sk ak input max lock idem now t s p q =
      elim (Option-cases (session_of (get sk now s))) [
        | inl e ↦ ground arith
        | inr (x, e) ↦ ground (arith, check-other k sk ak input max lock idem now t x s p q)
      ]

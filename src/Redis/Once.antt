-- ===== src/Redis/Once.antt =====
-- When `atomicVerifyOtp` answers with success, and that it does so once.
use qisma_be.Prelude.{
  ℕ, ◌+◌, ◌*◌, ◌≤◌, ◌<◌, ◌≡◌, ◌≢◌, ◌⊎◌, inl, inr, refl, sym, ap, ◌∙◌, true, Option, none, some,
  arith, Option-cases,
}
use qisma_be.Redis.{
  Text, SessionStatus, active, verified, locked, OtpSession, Key, Value, otp_session, RedisLib,
  IsRedis,
}
use qisma_be.Redis.Scripts.{
  Code, success, already_verified, session_not_found, text_eq, held, by_status, count_up,
  session_of, compare_otp, attempt, check_session, atomic_verify_otp,
}

by_status-success :
    {S : Type 0} (st : SessionStatus) (h : Option ℕ) (s : S) (a r : Code × S) (y : OtpSession)
    → (by_status st h s a r).0 ≡ success y
    → ((by_status st h s a r ≡ a) × (st ≡ active)) ⊎ ((by_status st h s a r ≡ r) × (st ≡ locked))
by_status-success active h s a r y e = inl (refl, refl)
by_status-success verified h s a r y e = absurd (ground arith)
by_status-success locked none s a r y e = inr (refl, refl)
by_status-success locked (some u) s a r y e = absurd (ground arith)

active-verified : active ≢ verified
active-verified e = absurd (ground arith)

locked-verified : locked ≢ verified
locked-verified e = absurd (ground arith)

session_of-some :
    (v : Option Value) (x : OtpSession) → session_of v ≡ some x → v ≡ some (otp_session x)
session_of-some v x e = ground arith

module _ (lib : RedisLib) (laws : IsRedis lib) (max lock idem : ℕ) (sk ak : Key) where
  open lib use {Server, get, setex, del, incr, expire}
  open laws use {get-setex, get-setex_late, get-del_other}

  -- What a session must be for a code to succeed, and what is left.
  abbrev pub IsRight : Text → ℕ → OtpSession → OtpSession → Type 0
  IsRight input now x y =
      (text_eq x.otp input ≡ true)
      × (now ≤ x.expires_at)
      × (x.status ≢ verified)
      × (y.status ≡ verified)
      × (y.identifier ≡ x.identifier)

  abbrev Leaves : Text → ℕ → OtpSession → Code × Server → Type 0
  Leaves input now x (c, s') =
      (y : OtpSession)
      → c ≡ success y
      → IsRight input now x y × ((s : Server) × (s' ≡ del ak (setex sk idem (otp_session y) now s)))

  attempt-Leaves :
      (now : ℕ) (input : Text) (x : OtpSession) (s : Server)
      → x.status ≢ verified
      → Leaves input now x (attempt lib sk ak input max lock idem now x s)
  unfolding attempt compare_otp
  attempt-Leaves now input x s v y e = (
    (ground arith, ground arith, v, ground arith, ground arith),
    ((count_up lib ak lock now s).1, ground arith),
  )

  -- The session whose code was right, as it was stored.
  check-Leaves :
      (now : ℕ) (input : Text) (x : OtpSession) (s : Server)
      → Leaves input now x (check_session lib sk ak input max lock idem now x s)
  unfolding check_session
  check-Leaves now input x s y e =
      let reset = record x { status = active; locked_until = none } in
      elim (by_status-success x.status (held now x) s
        (attempt lib sk ak input max lock idem now x s)
        (attempt lib sk ak input max lock idem now reset (del ak s)) y e) [
          | inl (p, q) ↦
              let (r, (b, c)) =
                attempt-Leaves now input x s (λ z. active-verified (sym q ∙ z)) y
                  (sym (ap (λ w. w.0) p) ∙ e) in
              (r, (b, ap (λ w. w.1) p ∙ c))
          | inr (p, q) ↦
              let ((r1, r2, r3, r4, r5), (b, c)) =
                attempt-Leaves now input reset (del ak s) (λ z. active-verified z) y
                  (sym (ap (λ w. w.0) p) ∙ e) in
              ((r1, r2, (λ z. locked-verified (sym q ∙ z)), r4, r5), (b, ap (λ w. w.1) p ∙ c))
        ]

  abbrev call : Text → ℕ → Server → Code × Server
  call input now s = atomic_verify_otp lib sk ak input max lock idem now s

  call-Leaves :
      (now : ℕ) (input : Text) (s : Server) (y : OtpSession)
      → (call input now s).0 ≡ success y
      → (x : OtpSession) × (get sk now s ≡ some (otp_session x))
        × IsRight input now x y
        × ((r : Server) × ((call input now s).1 ≡ del ak (setex sk idem (otp_session y) now r)))
  unfolding atomic_verify_otp
  call-Leaves now input s y e = elim (Option-cases (session_of (get sk now s))) [
    | inl q ↦ absurd (ground arith)
    | inr (x, q) ↦
        let p : call input now s ≡ check_session lib sk ak input max lock idem now x s =
          ground arith in
        let (r, (b, c)) = check-Leaves now input x s y (sym (ap (λ w. w.0) p) ∙ e) in
        (x, session_of-some (get sk now s) x q, r, (b, ap (λ w. w.1) p ∙ c))
  ]

  -- A call succeeds only with the stored code of a session that is there, not verified and not
  -- expired, and then answers with the identifier of that session.
  pub success-IsRight :
      (now : ℕ) (input : Text) (s : Server) (y : OtpSession)
      → (call input now s).0 ≡ success y
      → (x : OtpSession) × (get sk now s ≡ some (otp_session x)) × IsRight input now x y
  success-IsRight now input s y e = let (x, q, r, _) = call-Leaves now input s y e in (x, q, r)

  -- The next call after a success, at any time and with any code, answers that the session is
  -- verified while the record of it lasts and that there is none from then on.
  pub success_once :
      (now later : ℕ) (input input' : Text) (s : Server) (y : OtpSession)
      → sk ≢ ak
      → (call input now s).0 ≡ success y
      → let s' = (call input now s).1 in
        (later < now + idem * 1000 → (call input' later s').0 ≡ already_verified)
        × (now + idem * 1000 ≤ later → (call input' later s').0 ≡ session_not_found)
  unfolding atomic_verify_otp check_session
  success_once now later input input' s y apart e =
      let (x, q, (r1, r2, r3, r4, r5), (r, c)) = call-Leaves now input s y e in
      let s1 = setex sk idem (otp_session y) now r in
      let g : get sk later (del ak s1) ≡ get sk later s1 =
        get-del_other ak sk later s1 (λ z. apart (sym z)) in
      (
        (λ l. rw c (ground (arith, g, get-setex sk idem now later (otp_session y) r l))),
        λ l. rw c (ground (arith, g, get-setex_late sk idem now later (otp_session y) r l)),
      )

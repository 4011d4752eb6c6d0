-- ===== src/Otp/Codes.antt =====
-- What `sendOtp` and `verifyOtp` promise about the codes of a session.
use mathlib.Core.Path.{subst}
use qisma_be.Prelude.{
  ℕ, ◌+◌, ◌*◌, ◌≤◌, ◌≡◌, ◌≢◌, ◌⊎◌, inl, inr, refl, sym, ap, ◌∙◌, true, Option, none, some, [],
  arith, Bool-cases, ltb, ◌∷◌,
}
use qisma_be.Prelude.Result.{Result, ok}
use qisma_be.Redis.{
  Text, Kind, verified, active, OtpSession, Key, key, session, attempts, cooldown,
  identifier_session, number, verify_rate_limit, ip_rate_limit, phone_rate_limit, text, otp_session,
  Value, RedisLib, IsRedis,
}
use qisma_be.Redis.Scripts.{Code, success, text_eq, atomic_increment_with_limit, atomic_verify_otp}
use qisma_be.Redis.Verify.{count_up-other}
use qisma_be.Redis.Guesses.{Run, Open, Run-bound}
use qisma_be.Redis.Once.{success-IsRight}
use qisma_be.Redis.Model.{dec_key}
use qisma_be.Otp.{
  expiry_seconds, max_attempts_allowed, lock_duration_seconds, idempotency_ttl, window_seconds,
  cooldown_seconds, OtpError, answer, verify_otp, SendOtpData, check_rate_limit, open_session,
  forget_session, invalidate_existing_session, send_otp, normalize_phone, normalize_ip,
}

kinds_apart : (k k' : Key) → k.kind ≢ k'.kind → k ≢ k'
kinds_apart k k' h e = h (ap (λ z. z.kind) e)

pub session_attempts : (id : Text) → key session id ≢ key attempts id
session_attempts id = kinds_apart (key session id) (key attempts id) λ e. absurd (ground arith)

module _ (lib : RedisLib) (laws : IsRedis lib) where
  open lib use {Server, get, setex, del, incr, expire}
  open laws use {get-setex, get-setex_late, get-setex_other, get-del, get-del_other}

  pub limit-other :
      (kind : Kind) (name : Text) (k : Key) (now u : ℕ) (s : Server)
      → key kind name ≢ k
      → get k u (check_rate_limit lib kind name now s).1 ≡ get k u s
  unfolding check_rate_limit atomic_increment_with_limit
  limit-other kind name k now u s h =
      ground (arith, count_up-other lib laws k (key kind name) window_seconds now u s h)

  del-none : (k k' : Key) (u : ℕ) (s : Server) → get k' u s ≡ none → get k' u (del k s) ≡ none
  del-none k k' u s e = elim (dec_key k k') [
    | inl p ↦ subst (λ z. get z u (del k s) ≡ none) p (get-del k u s)
    | inr p ↦ get-del_other k k' u s p ∙ e
  ]

  forget-none :
      (identifier : Text) (v : Option Value) (k : Key) (u : ℕ) (s : Server)
      → get k u s ≡ none
      → get k u (forget_session lib identifier v s) ≡ none
  unfolding forget_session
  forget-none identifier none k u s e = e
  forget-none identifier (some (number n)) k u s e = e
  forget-none identifier (some (otp_session x)) k u s e = e
  forget-none identifier (some (text id)) k u s e = elim (Bool-cases (text_eq id [])) [
    | inl q ↦ rw q e
    | inr q ↦ rw q (
        del-none (key identifier_session identifier) k u
          (del (key attempts id) (del (key session id) s))
          (del-none (key attempts id) k u (del (key session id) s)
            (del-none (key session id) k u s e)))
  ]

  invalidate-none :
      (identifier : Text) (k : Key) (now u : ℕ) (s : Server)
      → get k u s ≡ none
      → get k u (invalidate_existing_session lib identifier now s) ≡ none
  unfolding invalidate_existing_session
  invalidate-none identifier k now u s e =
      forget-none identifier (get (key identifier_session identifier) now s) k u s e

  set_session :
      (id : Text) (now u : ℕ) (v : Value) (s : Server)
      → (get (key session id) u (setex (key session id) expiry_seconds v now s) ≡ none)
        ⊎ (get (key session id) u (setex (key session id) expiry_seconds v now s) ≡ some v)
  set_session id now u v s = elim (Bool-cases (ltb u (now + expiry_seconds * 1000))) [
    | inl e ↦ inr (get-setex (key session id) expiry_seconds now u v s (ground arith))
    | inr e ↦ inl (get-setex_late (key session id) expiry_seconds now u v s (ground arith))
  ]

  -- The last two writes of `sendOtp`.
  pointers-other :
      (identifier id : Text) (k : Key) (now u : ℕ) (s : Server)
      → identifier_session ≢ k.kind
      → cooldown ≢ k.kind
      → get k u (
          setex
            (key cooldown identifier)
            cooldown_seconds
            (text (49 ∷ []))
            now
            (setex (key identifier_session identifier) expiry_seconds (text id) now s))
        ≡ get k u s
  pointers-other identifier id k now u s p q =
      get-setex_other (key cooldown identifier) k cooldown_seconds now u (text (49 ∷ []))
        (setex (key identifier_session identifier) expiry_seconds (text id) now s)
        (kinds_apart _ _ q)
      ∙ get-setex_other (key identifier_session identifier) k expiry_seconds now u (text id) s
          (kinds_apart _ _ p)

  open_session-Open :
      (identifier id code : Text) (now : ℕ) (s : Server)
      → ((u : ℕ) → get (key attempts id) u s ≡ none)
      → Open lib laws max_attempts_allowed lock_duration_seconds idempotency_ttl
          (key session id)
          (key attempts id)
          (session_attempts id)
          (now + expiry_seconds * 1000)
          0
          now
          (open_session lib identifier id code now s).1
  unfolding open_session
  open_session-Open identifier id code now s h =
      let fresh : OtpSession = record {
        session_id = id;
        otp = code;
        identifier = identifier;
        status = active;
        created_at = now;
        expires_at = now + expiry_seconds * 1000;
        locked_until = none;
      } in
      let s0 = invalidate_existing_session lib identifier now s in
      let s1 = setex (key session id) expiry_seconds (otp_session fresh) now s0 in
      (
        λ u b. elim (set_session id now u (otp_session fresh) s0) [
          | inl e ↦ inl (
              pointers-other identifier id (key session id) now u s1 (λ z. absurd (ground arith))
                (λ z. absurd (ground arith))
              ∙ e)
          | inr e ↦ inr (
            fresh,
            pointers-other identifier id (key session id) now u s1 (λ z. absurd (ground arith))
                  (λ z. absurd (ground arith))
                ∙ e,
            refl,
            refl,
          )
        ],
        λ u b c.
            pointers-other identifier id (key attempts id) now u s1 (λ z. absurd (ground arith))
              (λ z. absurd (ground arith))
            ∙ get-setex_other (key session id) (key attempts id) expiry_seconds now u
                (otp_session fresh) s0 (session_attempts id)
            ∙ invalidate-none identifier (key attempts id) now u s (h u),
      )

  send_otp-opens :
      (phone ip id code : Text) (now : ℕ) (s : Server) (d : SendOtpData)
      → (send_otp lib phone ip id code now s).0 ≡ ok d
      → let s1 = (check_rate_limit lib ip_rate_limit (normalize_ip ip) now s).1 in
        let s2 = (check_rate_limit lib phone_rate_limit (normalize_phone phone) now s1).1 in
        (send_otp lib phone ip id code now s).1
        ≡ (open_session lib (normalize_phone phone) id code now s2).1
  unfolding send_otp
  send_otp-opens phone ip id code now s d e = ground arith

  -- After a successful `sendOtp`, which has drawn a session id that no counter of attempts exists
  -- for, any number of calls of `atomicVerifyOtp` on the session at any later times, with any other
  -- requests between them that leave its two keys alone, compares at most five codes with the one
  -- that was sent.
  pub guesses_bounded :
      (phone ip id code : Text) (now : ℕ) (s : Server) (d : SendOtpData) (n : ℕ)
      → ((u : ℕ) → get (key attempts id) u s ≡ none)
      → (send_otp lib phone ip id code now s).0 ≡ ok d
      → Run lib laws max_attempts_allowed lock_duration_seconds idempotency_ttl
          (key session id)
          (key attempts id)
          (session_attempts id)
          (now + expiry_seconds * 1000)
          now
          (send_otp lib phone ip id code now s).1
          n
      → n ≤ 5
  guesses_bounded phone ip id code now s d n h e run =
      let s1 = (check_rate_limit lib ip_rate_limit (normalize_ip ip) now s).1 in
      let s2 = (check_rate_limit lib phone_rate_limit (normalize_phone phone) now s1).1 in
      let none_left : (u : ℕ) → get (key attempts id) u s2 ≡ none = λ u.
        limit-other phone_rate_limit (normalize_phone phone) (key attempts id) now u s1
          (kinds_apart _ _ λ z. absurd (ground arith))
        ∙ limit-other ip_rate_limit (normalize_ip ip) (key attempts id) now u s
            (kinds_apart _ _ λ z. absurd (ground arith))
        ∙ h u in
      omega (
        arith,
        Run-bound lib laws max_attempts_allowed lock_duration_seconds idempotency_ttl
            (key session id) (key attempts id) (session_attempts id) (now + expiry_seconds * 1000) 0
            (subst
              (λ r.
                Run lib laws max_attempts_allowed lock_duration_seconds idempotency_ttl
                  (key session id) (key attempts id) (session_attempts id)
                  (now + expiry_seconds * 1000) now r n)
              (send_otp-opens phone ip id code now s d e) run)
            (omega arith) (omega arith)
            (open_session-Open (normalize_phone phone) id code now s2 none_left),
      )

  answer-ok :
      {T : Type 0} (login : Text → Server → Result OtpError T × Server) (c : Code) (now : ℕ)
      (s : Server) (t : T)
      → (answer lib login c now s).0 ≡ ok t
      → (x : OtpSession) × (c ≡ success x) × ((r : Server) × ((login x.identifier r).0 ≡ ok t))
  unfolding answer
  answer-ok login (success x) now s t e =
      (x, refl, (del (key identifier_session x.identifier) s, e))
  answer-ok login Code.already_verified now s t e = absurd (ground arith)
  answer-ok login Code.session_not_found now s t e = absurd (ground arith)
  answer-ok login (Code.session_locked u) now s t e = absurd (ground arith)
  answer-ok login Code.otp_expired now s t e = absurd (ground arith)
  answer-ok login (Code.max_attempts u) now s t e = absurd (ground arith)
  answer-ok login Code.invalid_otp now s t e = absurd (ground arith)

  verify_otp-answer :
      {T : Type 0} (login : Text → Server → Result OtpError T × Server) (id code : Text) (now : ℕ)
      (s : Server) (t : T)
      → (verify_otp lib login id code now s).0 ≡ ok t
      → let s1 = (check_rate_limit lib verify_rate_limit id now s).1 in
        let (c, s2) =
          atomic_verify_otp lib
            (key session id)
            (key attempts id)
            code
            max_attempts_allowed
            lock_duration_seconds
            idempotency_ttl
            now
            s1 in
        (answer lib login c now s2).0 ≡ ok t
  unfolding verify_otp
  verify_otp-answer login id code now s t e = ground arith

  -- `verifyOtp` gives what `login` gives only for the code of the session it is called for, which
  -- is there, neither verified nor expired, and then to the identifier of that session.
  pub verify_otp_right :
      {T : Type 0} (login : Text → Server → Result OtpError T × Server) (id code : Text) (now : ℕ)
      (s : Server) (t : T)
      → (verify_otp lib login id code now s).0 ≡ ok t
      → (x : OtpSession) × (get (key session id) now s ≡ some (otp_session x))
        × (text_eq x.otp code ≡ true)
        × (now ≤ x.expires_at)
        × (x.status ≢ verified)
        × ((r : Server) × ((login x.identifier r).0 ≡ ok t))
  verify_otp_right login id code now s t e =
      let s1 = (check_rate_limit lib verify_rate_limit id now s).1 in
      let (c, s2) =
        atomic_verify_otp lib (key session id) (key attempts id) code max_attempts_allowed
          lock_duration_seconds idempotency_ttl now s1 in
      let (y, q, (r, l)) = answer-ok login c now s2 t (verify_otp-answer login id code now s t e) in
      let (x, g, (a, b, v, w, i)) =
        success-IsRight lib laws max_attempts_allowed lock_duration_seconds idempotency_ttl
          (key session id) (key attempts id) now code s1 y q in
      (
        x,
        sym (
              limit-other verify_rate_limit id (key session id) now now s
                (kinds_apart _ _ λ z. absurd (ground arith)))
            ∙ g,
        a,
        b,
        v,
        (r, subst (λ z. (login z r).0 ≡ ok t) i l),
      )

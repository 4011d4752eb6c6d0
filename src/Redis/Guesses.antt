-- ===== src/Redis/Guesses.antt =====
-- How many codes `atomicVerifyOtp` compares with the code of one session, in any run of calls.
use qisma_be.Prelude.{
  ℕ, zero, suc, ◌+◌, ◌-◌, ◌*◌, ◌≤◌, ◌<◌, ◌≡◌, ◌≢◌, ◌⊎◌, inl, inr, refl, sym, ap, ◌∙◌, Bool, true,
  false, Option, none, some, arith, ltb, leb, if◌then◌else◌, Bool-cases,
}
use mathlib.Core.Path.{subst}
use qisma_be.Redis.{
  Text, active, verified, locked, OtpSession, Key, Value, number, otp_session, RedisLib, IsRedis,
}
use qisma_be.Redis.Scripts.{
  Code, success, session_not_found, session_locked, already_verified, otp_expired, by_status,
  max_attempts, invalid_otp, text_eq, seconds, count_up, held, compare_otp, attempt, check_session,
  atomic_verify_otp,
}
use qisma_be.Redis.Verify.{count_up-other}

-- 1 where the call got as far as comparing the code.
abbrev pub compared : Code → ℕ
compared (success x) = 1
compared (max_attempts u) = 1
compared invalid_otp = 1
compared _ = 0

ltb-lt : (a b : ℕ) → ltb a b ≡ true → a < b
ltb-lt a b e = ground arith

ltb-le : (a b : ℕ) → ltb a b ≡ false → b ≤ a
ltb-le a b e = ground arith

module _ (lib : RedisLib) (laws : IsRedis lib) (max lock idem : ℕ) where
  open lib use {Server, get, setex, del, incr, expire}
  open laws use {
    get-setex, get-setex_late, get-setex_other, get-del, get-del_other, incr_new, incr_old,
    get-incr, get-incr_other, get-expire, get-expire_other,
  }

  module _ (sk ak : Key) (apart : sk ≢ ak) (ends : ℕ) where
    abbrev call : Text → ℕ → Server → Code × Server
    call input now s = atomic_verify_otp lib sk ak input max lock idem now s

    -- A run from a time and a state on: calls on the session at later and later times, and between
    -- them anything that leaves its two keys as they are. The number counts the comparisons.
    pub data Run : ℕ → Server → ℕ → Type 0 where
      stop : {t : ℕ} {s : Server} → Run t s 0
      guess :
          {t : ℕ} {s : Server} {n : ℕ} (now : ℕ) (input : Text)
          → t ≤ now
          → Run now (call input now s).1 n
          → Run t s (compared (call input now s).0 + n)
      other :
          {t : ℕ} {s s' : Server} {n : ℕ}
          → ((u : ℕ) → get sk u s' ≡ get sk u s)
          → ((u : ℕ) → get ak u s' ≡ get ak u s)
          → Run t s' n
          → Run t s n

    -- The counter of attempts stands at `n`.
    abbrev pub Counts : ℕ → Option Value → Type 0
    Counts zero v = v ≡ none
    Counts (suc n) v = v ≡ some (number (suc n))

    -- Whatever of the session is still there is open, and `n` codes have been compared.
    abbrev pub Open : ℕ → ℕ → Server → Type 0
    Open n t s =
        ((u : ℕ)
          → t ≤ u
          → (get sk u s ≡ none)
            ⊎ ((x : OtpSession) × (get sk u s ≡ some (otp_session x))
                × (x.status ≡ active)
                × (x.expires_at ≡ ends)))
        × ((u : ℕ) → t ≤ u → u ≤ ends → Counts n (get ak u s))

    -- Verified, or locked for longer than its code is valid.
    abbrev IsShut : OtpSession → Type 0
    IsShut x =
        (x.status ≡ verified)
        ⊎ ((x.status ≡ locked) × ((u : ℕ) × (x.locked_until ≡ some u) × (x.expires_at < u)))

    abbrev pub Shut : ℕ → Server → Type 0
    Shut t s =
        (u : ℕ)
        → t ≤ u
        → (get sk u s ≡ none) ⊎ ((x : OtpSession) × (get sk u s ≡ some (otp_session x)) × IsShut x)

    abbrev After : ℕ → ℕ → Code × Server → Type 0
    After n now (c, s) =
        ((compared c ≡ 0) × Open n now s)
        ⊎ ((compared c ≡ 1) × (Shut now s ⊎ ((suc n < max) × Open (suc n) now s)))

    -- The counter after one more attempt.
    pub count_up-Counts :
        (n now : ℕ) (s : Server)
        → ends < now + lock * 1000
        → ((u : ℕ) → now ≤ u → u ≤ ends → Counts n (get ak u s))
        → now ≤ ends
        → ((count_up lib ak lock now s).0 ≡ suc n)
          × ((u : ℕ)
              → now ≤ u
              → u ≤ ends
              → Counts (suc n) (get ak u (count_up lib ak lock now s).1))
    unfolding count_up
    count_up-Counts zero now s h c le = (
      ground (arith, incr_new ak now now s (c now (omega arith) le)),
      λ u a b. ground (
        arith,
        incr_new ak now now s (c now (omega arith) le),
        incr_new ak now u s (c now (omega arith) le),
        get-expire ak lock now u (number 1) (incr ak now s).1,
      ),
    )
    count_up-Counts (suc n) now s h c le = (
      ground (arith, incr_old ak now (suc n) s (c now (omega arith) le)),
      λ u a b. ground (
        arith,
        incr_old ak now (suc n) s (c now (omega arith) le),
        get-incr ak now u (suc n) s (c now (omega arith) le) (c u a b),
      ),
    )

    -- GET after SETEX on the key of the session: the value for a time, and then nothing.
    set_session :
        (secs now u : ℕ) (v : Value) (s : Server)
        → (get sk u (setex sk secs v now s) ≡ none) ⊎ (get sk u (setex sk secs v now s) ≡ some v)
    set_session secs now u v s = elim (Bool-cases (ltb u (now + secs * 1000))) [
      | inl e ↦ inr (get-setex sk secs now u v s (omega (arith, ltb-lt u (now + secs * 1000) e)))
      | inr e ↦
          inl (get-setex_late sk secs now u v s (omega (arith, ltb-le u (now + secs * 1000) e)))
    ]

    done_Shut :
        (now u : ℕ) (x : OtpSession) (s : Server)
        → x.status ≡ verified
        → let s' = del ak (setex sk idem (otp_session x) now s) in
          (get sk u s' ≡ none)
          ⊎ ((x : OtpSession) × (get sk u s' ≡ some (otp_session x)) × IsShut x)
    done_Shut now u x s a =
        let s1 = setex sk idem (otp_session x) now s in
        elim (set_session idem now u (otp_session x) s) [
          | inl z ↦ inl (get-del_other ak sk u s1 (λ e. apart (sym e)) ∙ z)
          | inr z ↦ inr (x, get-del_other ak sk u s1 (λ e. apart (sym e)) ∙ z, inl a)
        ]

    lock_Shut :
        (now u : ℕ) (x : OtpSession) (s : Server)
        → x.expires_at ≡ ends
        → ends < now + lock * 1000
        → let y = record x { status = locked; locked_until = some (now + lock * 1000) } in
          let s' = setex sk lock (otp_session y) now s in
          (get sk u s' ≡ none)
          ⊎ ((x : OtpSession) × (get sk u s' ≡ some (otp_session x)) × IsShut x)
    lock_Shut now u x s e h =
        let y = record x { status = locked; locked_until = some (now + lock * 1000) } in
        elim (set_session lock now u (otp_session y) s) [
          | inl z ↦ inl z
          | inr z ↦ inr (y, z, inr (refl, (now + lock * 1000, refl, ground arith)))
        ]

    set_Open :
        (n now secs : ℕ) (x : OtpSession) (s : Server)
        → x.status ≡ active
        → x.expires_at ≡ ends
        → Open n now s
        → Open n now (setex sk secs (otp_session x) now s)
    set_Open n now secs x s a e (o, c) = (
      λ u b. elim (set_session secs now u (otp_session x) s) [
        | inl z ↦ inl z
        | inr z ↦ inr (x, z, a, e)
      ],
      λ u b d.
          subst (Counts n) (sym (get-setex_other sk ak secs now u (otp_session x) s apart))
            (c u b d),
    )

    again_Open :
        (n now : ℕ) (x : OtpSession) (s : Server)
        → x.status ≡ active
        → x.expires_at ≡ ends
        → Open n now s
        → let left = seconds (x.expires_at - now) in
          Open n now (if ltb 0 left then setex sk left (otp_session x) now s else s)
    again_Open n now x s a e o = let left = seconds (x.expires_at - now) in subst_if (ltb 0 left)
      where
        subst_if :
            (b : Bool)
            → Open n now
                (if b then setex sk (seconds (x.expires_at - now)) (otp_session x) now s else s)
        subst_if true = set_Open n now (seconds (x.expires_at - now)) x s a e o
        subst_if false = o

    compare_otp-After :
        (n now : ℕ) (input : Text) (x : OtpSession) (s : Server)
        → x.status ≡ active
        → x.expires_at ≡ ends
        → ends < now + lock * 1000
        → Open (suc n) now s
        → let (c, s') = compare_otp lib sk ak input max lock idem now (suc n) x s in
          (compared c ≡ 1) × (Shut now s' ⊎ ((suc n < max) × Open (suc n) now s'))
    unfolding compare_otp
    compare_otp-After n now input x s a e h o = go (text_eq x.otp input) refl (leb max (suc n)) refl
      where
        go :
            (b : Bool)
            → text_eq x.otp input ≡ b
            → (l : Bool) → leb max (suc n) ≡ l
            → let (c, s') = compare_otp lib sk ak input max lock idem now (suc n) x s in
              (compared c ≡ 1) × (Shut now s' ⊎ ((suc n < max) × Open (suc n) now s'))
        go true q l r =
            rw q (refl, inl λ u b. done_Shut now u (record x { status = verified }) s refl)
        go false q true r = rw (q, r) (refl, inl λ u b. lock_Shut now u x s e h)
        go false q false r = rw (q, r) (refl, inr (ground arith, again_Open (suc n) now x s a e o))

    attempt-After :
        (n now : ℕ) (input : Text) (x : OtpSession) (s : Server)
        → x.status ≡ active
        → x.expires_at ≡ ends
        → ends < now + lock * 1000
        → Open n now s
        → After n now (attempt lib sk ak input max lock idem now x s)
    unfolding attempt
    attempt-After n now input x s a e h (o, c) = go (ltb x.expires_at now) refl
      where
        go :
            (b : Bool)
            → ltb x.expires_at now ≡ b
            → After n now (attempt lib sk ak input max lock idem now x s)
        go true q = rw q (inl (refl, (o, c)))
        go false q =
            let (m, d) = count_up-Counts n now s h c (omega (arith, ltb-le x.expires_at now q)) in
            rw (q, m)
              (inr (
                compare_otp-After n now input x (count_up lib ak lock now s).1 a e h (
                  λ u b. rw (count_up-other lib laws sk ak lock now u s λ z. apart (sym z)) (o u b),
                  d,
                )))

    call-none :
        (now : ℕ) (input : Text) (s : Server)
        → get sk now s ≡ none
        → call input now s ≡ (session_not_found, s)
    unfolding atomic_verify_otp
    call-none now input s e = rw (e, atomic_verify_otp) refl

    call-some :
        (now : ℕ) (input : Text) (x : OtpSession) (s : Server)
        → get sk now s ≡ some (otp_session x)
        → call input now s ≡ check_session lib sk ak input max lock idem now x s
    unfolding atomic_verify_otp
    call-some now input x s e = rw (e, atomic_verify_otp) refl

    check-active :
        (now : ℕ) (input : Text) (x : OtpSession) (s : Server)
        → x.status ≡ active
        → check_session lib sk ak input max lock idem now x s
          ≡ attempt lib sk ak input max lock idem now x s
    unfolding check_session
    check-active now input x s a =
        ap
          (λ st. by_status st (held now x) s (attempt lib sk ak input max lock idem now x s) (
            attempt lib sk ak input max lock idem now
              (record x { status = active; locked_until = none }) (del ak s)))
          a

    check-late :
        (now u : ℕ) (input : Text) (x : OtpSession) (s : Server)
        → x.status ≡ locked
        → x.locked_until ≡ some u
        → ltb now u ≡ false
        → x.expires_at < now
        → check_session lib sk ak input max lock idem now x s ≡ (otp_expired, del ak s)
    unfolding check_session attempt
    check-late now u input x s l f b h = ground arith

    check-held :
        (now u : ℕ) (input : Text) (x : OtpSession) (s : Server)
        → x.status ≡ locked
        → x.locked_until ≡ some u
        → ltb now u ≡ true
        → check_session lib sk ak input max lock idem now x s ≡ (session_locked u, s)
    unfolding check_session
    check-held now u input x s l f b = ground arith

    check-verified :
        (now : ℕ) (input : Text) (x : OtpSession) (s : Server)
        → x.status ≡ verified
        → check_session lib sk ak input max lock idem now x s ≡ (already_verified, s)
    unfolding check_session
    check-verified now input x s l = ground arith

    -- A call on an open session.
    call-After :
        (n now : ℕ) (input : Text) (s : Server)
        → ends < now + lock * 1000
        → Open n now s
        → After n now (call input now s)
    call-After n now input s h (o, c) = elim (o now (omega arith)) [
      | inl e ↦ rw (call-none now input s e) (inl (refl, (o, c)))
      | inr (x, e, a, q) ↦
          rw (call-some now input x s e ∙ check-active now input x s a)
            (attempt-After n now input x s a q h (o, c))
    ]

    -- A call on a session that is shut.
    call-Shut :
        (now : ℕ) (input : Text) (s : Server)
        → Shut now s
        → (compared (call input now s).0 ≡ 0) × Shut now (call input now s).1
    call-Shut now input s o = elim (o now (omega arith)) [
      | inl e ↦ rw (call-none now input s e) (refl, o)
      | inr (x, e, inl v) ↦
          rw (call-some now input x s e ∙ check-verified now input x s v) (refl, o)
      | inr (x, e, inr (l, (u, f, g))) ↦ elim (Bool-cases (ltb now u)) [
        | inl b ↦ rw (call-some now input x s e ∙ check-held now u input x s l f b) (refl, o)
        | inr b ↦
            rw
              (call-some now input x s e
                ∙ check-late now u input x s l f b (omega (arith, g, ltb-le now u b)))
              (refl, λ w d. rw (get-del_other ak sk w s λ z. apart (sym z)) (o w d))
      ]
    ]

    none_after_Shut : {t n : ℕ} {s : Server} → Run t s n → Shut t s → n ≡ 0
    none_after_Shut stop o = refl
    none_after_Shut (guess {s = s} now input le run) o =
        let (c, o') = call-Shut now input s (λ u b. o u (omega arith)) in
        omega (arith, c, none_after_Shut run o')
    none_after_Shut (other p q run) o = none_after_Shut run λ u b. rw (p u) (o u b)

    -- In any run of calls on a session that is open, with `k` comparisons made, at most `max` are
    -- ever made.
    pub Run-bound :
        {t n : ℕ} {s : Server} (k : ℕ)
        → Run t s n
        → k < max
        → ends < t + lock * 1000
        → Open k t s
        → k + n ≤ max
    Run-bound k stop l h o = omega arith
    Run-bound k (guess {s = s} now input le run) l h (o, c) =
        elim (call-After k now input s (omega arith)
          (λ u b. o u (omega arith), λ u b d. c u (omega arith) d)) [
            | inl (e, p) ↦ omega (arith, e, Run-bound k run l (omega arith) p)
            | inr (e, inl p) ↦ omega (arith, e, none_after_Shut run p)
            | inr (e, inr (m, p)) ↦ omega (arith, e, Run-bound (suc k) run m (omega arith) p)
          ]
    Run-bound k (other p q run) l h (o, c) =
        Run-bound k run l h
          (λ u b. rw (p u) (o u b), λ u b d. subst (Counts k) (sym (q u)) (c u b d))

-- ===== src/Redis/Right.antt =====
-- That the right code still succeeds after wrong ones.
use mathlib.Core.Path.{subst}
use qisma_be.Prelude.{
  ℕ, suc, ◌+◌, ◌-◌, ◌*◌, ◌≤◌, ◌<◌, ◌≡◌, ◌≢◌, sym, ap, ◌∙◌, true, false, some, List, [], ◌∷◌, arith,
  length,
}
use qisma_be.Redis.{Text, active, verified, OtpSession, Key, otp_session, RedisLib, IsRedis}
use qisma_be.Redis.Scripts.{
  Code, success, invalid_otp, text_eq, seconds, count_up, compare_otp, attempt, check_session,
  atomic_verify_otp,
}
use qisma_be.Redis.Guesses.{Counts, count_up-Counts}

-- Guesses at a time each, none earlier than the one before it, and none after the end.
abbrev pub InTime : ℕ → ℕ → List (ℕ × Text) → Type 0
InTime t ends [] = t ≤ ends
InTime t ends ((now, input) ∷ gs) = (t ≤ now) × InTime now ends gs

-- The code is none of the guesses.
abbrev pub AllWrong : Text → List (ℕ × Text) → Type 0
AllWrong code [] = Unit
AllWrong code ((now, input) ∷ gs) = (text_eq code input ≡ false) × AllWrong code gs

InTime-le : (t ends : ℕ) (gs : List (ℕ × Text)) → InTime t ends gs → t ≤ ends
InTime-le t ends [] h = h
InTime-le t ends ((now, input) ∷ gs) (l, h) = omega (arith, InTime-le now ends gs h)

module _ (lib : RedisLib) (laws : IsRedis lib) (max lock idem : ℕ) (sk ak : Key) (apart : sk ≢ ak)
    (x : OtpSession) where
  open lib use {Server, get, setex, del}
  open laws use {get-setex, get-setex_other}

  abbrev call : Text → ℕ → Server → Code × Server
  call input now s = atomic_verify_otp lib sk ak input max lock idem now s

  -- From a time on and until it expires the session is stored, with `n` attempts counted.
  abbrev pub Waits : ℕ → ℕ → Server → Type 0
  Waits n t s =
      ((u : ℕ) → t ≤ u → u < x.expires_at → get sk u s ≡ some (otp_session x))
      × ((u : ℕ)
          → t ≤ u
          → u ≤ x.expires_at
          → Counts lib laws max lock idem sk ak apart x.expires_at n (get ak u s))

  abbrev pub after_all : List (ℕ × Text) → Server → Server
  after_all [] s = s
  after_all ((now, input) ∷ gs) s = after_all gs (call input now s).1

  wrong-Waits :
      (n now : ℕ) (input : Text) (s : Server)
      → x.status ≡ active
      → text_eq x.otp input ≡ false
      → suc n < max
      → now < x.expires_at
      → x.expires_at < now + lock * 1000
      → Waits n now s
      → ((call input now s).0 ≡ invalid_otp) × Waits (suc n) now (call input now s).1
  unfolding atomic_verify_otp check_session attempt compare_otp
  wrong-Waits n now input s a w m l h (here, counts) =
      let s1 = (count_up lib ak lock now s).1 in
      let (c, up) =
        count_up-Counts lib laws max lock idem sk ak apart x.expires_at n now s h counts
          (omega arith) in
      let found = here now (omega arith) l in
      let left = seconds (x.expires_at - now) in
      let long : x.expires_at ≤ now + left * 1000 = omega arith in
      let e : call input now s ≡ (invalid_otp, setex sk left (otp_session x) now s1) =
        ground (arith, found, a, w, c) in
      (
        ap (λ r. r.0) e,
        (
          λ u b d.
              ap (λ r. get sk u r.1) e ∙ get-setex sk left now u (otp_session x) s1 (omega arith),
          λ u b d.
              subst (Counts lib laws max lock idem sk ak apart x.expires_at (suc n))
                (sym (
                  ap (λ r. get ak u r.1) e
                  ∙ get-setex_other sk ak left now u (otp_session x) s1 apart))
                (up u b d),
        ),
      )

  right_lem :
      (n now : ℕ) (input : Text) (s : Server)
      → x.status ≡ active
      → text_eq x.otp input ≡ true
      → now < x.expires_at
      → Waits n now s
      → (call input now s).0 ≡ success (record x { status = verified })
  unfolding atomic_verify_otp check_session attempt compare_otp
  right_lem n now input s a w l (here, counts) =
      let found = here now (omega arith) l in ground (arith, found, a, w)

  Waits-later : (n t u : ℕ) (s : Server) → t ≤ u → Waits n t s → Waits n u s
  Waits-later n t u s l (here, counts) =
      (λ v b d. here v (omega arith) d, λ v b d. counts v (omega arith) d)

  -- While a session is stored, active and not expired, with so many attempts counted: after any
  -- wrong codes that, with those counted, are fewer than the limit, all before it expires and within
  -- the time of a lock, the right code still succeeds, and opens the session as it was sent.
  pub right_code_after_wrong :
      (n t later : ℕ) (gs : List (ℕ × Text)) (code : Text) (s : Server)
      → x.status ≡ active
      → text_eq x.otp code ≡ true
      → AllWrong x.otp gs
      → n + length gs < max
      → InTime t later gs
      → later < x.expires_at
      → x.expires_at < t + lock * 1000
      → Waits n t s
      → (call code later (after_all gs s)).0 ≡ success (record x { status = verified })
  right_code_after_wrong n t later [] code s a c w m i l h k =
      right_lem n later code s a c l (Waits-later n t later s (omega arith) k)
  right_code_after_wrong n t later ((now, input) ∷ gs) code s a c (w, ws) m (le, i) l h k =
      let before = InTime-le now later gs i in
      let (_, k') =
        wrong-Waits n now input s a w (omega arith) (omega arith) (omega arith)
          (Waits-later n t now s le k) in
      right_code_after_wrong (suc n) now later gs code (call input now s).1 a c ws (omega arith) i l
        (omega arith) k'

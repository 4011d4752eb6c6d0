-- ===== src/Otp/Tests.antt =====
-- Sending and verifying a code, over the model of the Redis commands.
use qisma_be.Prelude.{◌≤◌, ◌≡◌, ◌≢◌, refl, some, [], ◌∷◌, arith, ◌+◌, List, true}
use qisma_be.Prelude.Result.{Result, ok}
use qisma_be.Redis.{Text, verified, OtpSession, key, session, attempts, otp_session}
use qisma_be.Redis.Model.{model, Model-IsRedis, Entry}
use qisma_be.Redis.Scripts.{
  Code, text_eq, atomic_verify_otp, atomic_increment_with_limit, count_up, check_session, attempt,
  compare_otp,
}
use qisma_be.Redis.Guesses.{stop, guess, compared}
use qisma_be.Otp.{
  OtpError, SendOtpData, send_otp, verify_otp, check_rate_limit, open_session, forget_session,
  invalidate_existing_session, normalize_ip, answer,
}
use qisma_be.Otp.Codes.{guesses_bounded, verify_otp_right}

-- `+1`, `::1`, a session id, the code that is sent and another.
abbrev phone : Text
phone = 43 ∷ 49 ∷ []

abbrev ip : Text
ip = 58 ∷ 58 ∷ 49 ∷ []

abbrev id : Text
id = 97 ∷ []

abbrev code : Text
code = 55 ∷ []

abbrev wrong : Text
wrong = 56 ∷ []

abbrev sent : SendOtpData
sent = record { session_id = id; expires_at = 301000; retry_after = 60 }

abbrev after_send : List Entry
after_send = (send_otp model phone ip id code 1000 []).1

abbrev wrong_guess : Code × List Entry
wrong_guess =
    atomic_verify_otp model (key session id) (key attempts id) wrong 5 900 60 2000 after_send

guesses_bounded_example : compared wrong_guess.0 + 0 ≤ 5
unfolding send_otp check_rate_limit open_session forget_session invalidate_existing_session
    normalize_ip atomic_increment_with_limit count_up
guesses_bounded_example =
    guesses_bounded model Model-IsRedis phone ip id code 1000 [] sent (compared wrong_guess.0 + 0)
      (λ u. refl) refl (guess 2000 wrong (omega arith) stop)

wrong_compared : compared wrong_guess.0 ≡ 1
unfolding send_otp check_rate_limit open_session forget_session invalidate_existing_session
    normalize_ip atomic_increment_with_limit count_up atomic_verify_otp check_session attempt
    compare_otp
wrong_compared = refl

-- A login that answers with the identifier.
abbrev login : Text → List Entry → Result OtpError Text × List Entry
login identifier s = (ok identifier, s)

verify_otp_right_example :
    (x : OtpSession) × (model.get (key session id) 2000 after_send ≡ some (otp_session x))
    × (text_eq x.otp code ≡ true)
    × (2000 ≤ x.expires_at)
    × (x.status ≢ verified)
    × ((r : List Entry) × ((login x.identifier r).0 ≡ ok (49 ∷ [])))
unfolding send_otp check_rate_limit open_session forget_session invalidate_existing_session
    normalize_ip atomic_increment_with_limit count_up verify_otp atomic_verify_otp check_session
    attempt compare_otp answer
verify_otp_right_example =
    verify_otp_right model Model-IsRedis login id code 2000 after_send (49 ∷ []) refl

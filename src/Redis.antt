-- ===== src/Redis.antt =====
-- What src/infrastructure/redis/redis.service.ts uses of the Redis server, which is not part of the
-- repository: the commands as a record of operations on a state of the server, and their documented
-- behaviour. Keys are those of src/modules/otp/constants/otp.constants.ts and
-- src/modules/auth/constants; a value is what the code encodes into it.
pub mod Scripts
pub mod Verify
pub mod Guesses
pub mod Once
pub mod Right
pub mod Model
pub mod Limit
pub mod Tests
use qisma_be.Prelude.{ℕ, suc, ◌+◌, ◌*◌, ◌≤◌, ◌<◌, ◌≡◌, ◌≢◌, Bool, Option, none, some, List}

-- A string, as its character codes.
abbrev pub Text : Type 0
Text = List ℕ

-- `OtpSessionStatus`
pub data SessionStatus : Type 0 where
  active verified locked : SessionStatus

-- `OtpSession`
pub record OtpSession : Type 0 where
  pub session_id : Text
  pub otp : Text
  pub identifier : Text
  pub status : SessionStatus
  pub created_at : ℕ
  pub expires_at : ℕ
  pub locked_until : Option ℕ

-- The prefixes of the keys.
pub data Kind : Type 0 where
  session attempts cooldown identifier_session : Kind
  phone_rate_limit ip_rate_limit verify_rate_limit revoked_users : Kind

pub record Key : Type 0 where
  pub kind : Kind
  pub name : Text

abbrev pub key : Kind → Text → Key
key k n = record { kind = k; name = n }

pub data Value : Type 0 where
  number : ℕ → Value
  text : Text → Value
  otp_session : OtpSession → Value

-- The count that INCR adds to.
abbrev pub count_of : Option Value → ℕ
count_of (some (number n)) = n
count_of _ = 0

pub record RedisLib : Type 1 where
  pub Server : Type 0
  -- What GET returns at a time in milliseconds.
  pub get : Key → ℕ → Server → Option Value
  -- `setex key ttl value`, in seconds, at a time.
  pub setex : Key → ℕ → Value → ℕ → Server → Server
  pub del : Key → Server → Server
  -- The number that INCR returns at a time, and what it leaves.
  pub incr : Key → ℕ → Server → ℕ × Server
  pub expire : Key → ℕ → ℕ → Server → Server
  -- The seconds left, 0 where TTL is not positive.
  pub ttl : Key → ℕ → Server → ℕ

module _ (lib : RedisLib) where
  open lib use {Server, get, setex, del, incr, expire}

  -- The documented behaviour that the results rest on.
  pub record IsRedis : Type 0 where
    pub get-setex :
        (k : Key) (secs now t : ℕ) (v : Value) (s : Server)
        → t < now + secs * 1000
        → get k t (setex k secs v now s) ≡ some v
    pub get-setex_late :
        (k : Key) (secs now t : ℕ) (v : Value) (s : Server)
        → now + secs * 1000 ≤ t
        → get k t (setex k secs v now s) ≡ none
    pub get-setex_other :
        (k k' : Key) (secs now t : ℕ) (v : Value) (s : Server)
        → k ≢ k'
        → get k' t (setex k secs v now s) ≡ get k' t s
    pub get-del : (k : Key) (t : ℕ) (s : Server) → get k t (del k s) ≡ none
    pub get-del_other : (k k' : Key) (t : ℕ) (s : Server) → k ≢ k' → get k' t (del k s) ≡ get k' t s
    -- INCR starts at 1 without an expiry, and keeps the expiry of a key that is there.
    pub incr_new :
        (k : Key) (now t : ℕ) (s : Server)
        → get k now s ≡ none
        → ((incr k now s).0 ≡ 1) × (get k t (incr k now s).1 ≡ some (number 1))
    pub incr_old :
        (k : Key) (now n : ℕ) (s : Server)
        → get k now s ≡ some (number n)
        → (incr k now s).0 ≡ suc n
    pub get-incr :
        (k : Key) (now t n : ℕ) (s : Server)
        → get k now s ≡ some (number n)
        → get k t s ≡ some (number n)
        → get k t (incr k now s).1 ≡ some (number (suc n))
    pub get-incr_other :
        (k k' : Key) (now t : ℕ) (s : Server) → k ≢ k' → get k' t (incr k now s).1 ≡ get k' t s
    pub get-expire :
        (k : Key) (secs now t : ℕ) (v : Value) (s : Server)
        → get k now s ≡ some v
        → t < now + secs * 1000
        → get k t (expire k secs now s) ≡ some v
    pub get-expire_other :
        (k k' : Key) (secs now t : ℕ) (s : Server)
        → k ≢ k'
        → get k' t (expire k secs now s) ≡ get k' t s

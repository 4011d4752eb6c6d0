-- ===== src/Redis/Model.antt =====
-- A model of the commands that meets the laws: a list of writes, each with the time from which its
-- value is gone.
use qisma_be.Prelude.{
  ℕ, suc, ◌+◌, ◌-◌, ◌*◌, ◌≡◌, ◌≢◌, ◌⊎◌, refl, Bool, true, false, ◌&&◌, Option, none, some, List, [],
  ◌∷◌, arith, ltb, ◌==◌, if◌then◌else◌, Bool-cases, inl, inr,
}
use qisma_be.Redis.{
  Text, Kind, session, attempts, cooldown, identifier_session, phone_rate_limit, ip_rate_limit,
  verify_rate_limit, revoked_users, Key, Value, number, count_of, RedisLib, IsRedis,
}
use qisma_be.Redis.Scripts.{text_eq, seconds}

-- A write: the value and, where it has one, its end.
pub record Entry : Type 0 where
  pub at_key : Key
  pub value : Option Value
  pub ends : Option ℕ

abbrev pub rank : Kind → ℕ
rank session = 0
rank attempts = 1
rank cooldown = 2
rank identifier_session = 3
rank phone_rate_limit = 4
rank ip_rate_limit = 5
rank verify_rate_limit = 6
rank revoked_users = 7

abbrev of_rank : ℕ → Kind
of_rank n =
    if n == 0
    then session
    else (if n == 1
        then attempts
        else (if n == 2
            then cooldown
            else (if n == 3
                then identifier_session
                else (if n == 4
                    then phone_rate_limit
                    else (if n == 5
                        then ip_rate_limit
                        else (if n == 6 then verify_rate_limit else revoked_users))))))

of_rank-rank : (k : Kind) → of_rank (rank k) ≡ k
of_rank-rank session = refl
of_rank-rank attempts = refl
of_rank-rank cooldown = refl
of_rank-rank identifier_session = refl
of_rank-rank phone_rate_limit = refl
of_rank-rank ip_rate_limit = refl
of_rank-rank verify_rate_limit = refl
of_rank-rank revoked_users = refl

abbrev pub key_eq : Key → Key → Bool
key_eq a b = rank a.kind == rank b.kind && text_eq a.name b.name

text_eq_refl : (a : Text) → text_eq a a ≡ true
text_eq_refl [] = refl
text_eq_refl (x ∷ xs) = ground (arith, text_eq_refl xs)

text_eq-true : (a b : Text) → text_eq a b ≡ true → a ≡ b
text_eq-true [] [] e = refl
text_eq-true [] (y ∷ ys) e = absurd (ground arith)
text_eq-true (x ∷ xs) [] e = absurd (ground arith)
text_eq-true (x ∷ xs) (y ∷ ys) e = ground (arith, text_eq-true xs ys)

key_eq_refl : (k : Key) → key_eq k k ≡ true
key_eq_refl k = ground (arith, text_eq_refl k.name)

key_eq-false : (k k' : Key) → k ≢ k' → key_eq k k' ≡ false
key_eq-false k k' h = elim (Bool-cases (key_eq k k')) [
  | inr e ↦ e
  | inl e ↦
      absurd
        (h (ground (arith, of_rank-rank k.kind, of_rank-rank k'.kind, text_eq-true k.name k'.name)))
]

pub dec_key : (k k' : Key) → (k ≡ k') ⊎ (k ≢ k')
dec_key k k' = elim (Bool-cases (key_eq k k')) [
  | inl e ↦
      inl (ground (arith, of_rank-rank k.kind, of_rank-rank k'.kind, text_eq-true k.name k'.name))
  | inr e ↦ inr λ h. absurd (ground (arith, key_eq_refl k))
]

-- The last write to a key.
abbrev pub last : Key → List Entry → Option Entry
last k [] = none
last k (e ∷ es) = let rest = last k es in if key_eq e.at_key k then some e else rest

abbrev pub live : ℕ → Entry → Option Value
live t e = elim e.ends [ none ↦ e.value | some u ↦ if ltb t u then e.value else none ]

abbrev pub get : Key → ℕ → List Entry → Option Value
get k t es = elim (last k es) [ none ↦ none | some e ↦ live t e ]

-- The end of a key that is there.
abbrev pub end_of : Key → ℕ → List Entry → Option ℕ
end_of k now es = elim (get k now es) [
  | none ↦ none
  | some _ ↦ elim (last k es) [ none ↦ none | some e ↦ e.ends ]
]

abbrev pub entry : Key → Option Value → Option ℕ → Entry
entry k v u = record { at_key = k; value = v; ends = u }

abbrev pub model : RedisLib
model = record {
  Server = List Entry;
  get = get;
  setex = λ k secs v now es. entry k (some v) (some (now + secs * 1000)) ∷ es;
  del = λ k es. entry k none none ∷ es;
  incr = λ k now es.
      let n = suc (count_of (get k now es)) in
      (n, entry k (some (number n)) (end_of k now es) ∷ es);
  expire = λ k secs now es. entry k (get k now es) (some (now + secs * 1000)) ∷ es;
  ttl = λ k now es. elim (end_of k now es) [ none ↦ 0 | some u ↦ seconds (u - now) ];
}

module _ (k k' : Key) where
  same : (e : Entry) (es : List Entry) (t : ℕ) → get k t (entry k e.value e.ends ∷ es) ≡ live t e
  same e es t = ground (arith, key_eq_refl k)

  other :
      (v : Option Value) (u : Option ℕ) (es : List Entry) (t : ℕ)
      → k ≢ k'
      → get k' t (entry k v u ∷ es) ≡ get k' t es
  other v u es t h = ground (arith, key_eq-false k k' h)

pub Model-IsRedis : IsRedis model
Model-IsRedis = record {
  get-setex = λ k secs now t v s h. ground (arith, key_eq_refl k);
  get-setex_late = λ k secs now t v s h. ground (arith, key_eq_refl k);
  get-setex_other = λ k k' secs now t v s h. other k k' (some v) (some (now + secs * 1000)) s t h;
  get-del = λ k t s. ground (arith, key_eq_refl k);
  get-del_other = λ k k' t s h. other k k' none none s t h;
  incr_new = λ k now t s e. ground (arith, key_eq_refl k);
  incr_old = λ k now n s e. ground arith;
  get-incr = λ k now t n s e f. ground (arith, key_eq_refl k);
  get-incr_other = λ k k' now t s h.
      other k k' (some (number (suc (count_of (get k now s))))) (end_of k now s) s t h;
  get-expire = λ k secs now t v s e h. ground (arith, key_eq_refl k);
  get-expire_other =
      λ k k' secs now t s h. other k k' (get k now s) (some (now + secs * 1000)) s t h;
}

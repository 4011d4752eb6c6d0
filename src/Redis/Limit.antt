-- ===== src/Redis/Limit.antt =====
-- `atomicIncrementWithLimit` over the requests of one window.
use qisma_be.Prelude.{
  ℕ, suc, ◌+◌, ◌*◌, ◌≤◌, ◌<◌, ◌≡◌, refl, Bool, true, false, none, some, List, [], ◌∷◌, arith, leb,
  ◌⊎◌, inl, inr, Bool-cases, if◌then◌else◌, length,
}
use qisma_be.Redis.{Key, number, RedisLib, IsRedis}
use qisma_be.Redis.Scripts.{atomic_increment_with_limit, count_up}

module _ (lib : RedisLib) (laws : IsRedis lib) (k : Key) (max secs : ℕ) where
  open lib use {Server, get, incr, expire}
  open laws use {incr_new, incr_old, get-incr, get-expire}

  abbrev call : ℕ → Server → (Bool × ℕ) × Server
  call now s = atomic_increment_with_limit lib k max secs now s

  -- How many of the requests at these times are allowed.
  abbrev pub allowed : List ℕ → Server → ℕ
  allowed [] s = 0
  allowed (t ∷ ts) s = let ((ok, n), s') = call t s in (if ok then 1 else 0) + allowed ts s'

  -- Times in order, each from `t` on and before `ends`.
  abbrev pub Within : ℕ → ℕ → List ℕ → Type 0
  Within t ends [] = Unit {0}
  Within t ends (u ∷ us) = (t ≤ u) × (u < ends) × Within u ends us

  abbrev Stands : ℕ → ℕ → ℕ → Server → Type 0
  Stands n t ends s = (u : ℕ) → t ≤ u → u < ends → get k u s ≡ some (number n)

  abbrev After : ℕ → ℕ → ℕ → (Bool × ℕ) × Server → Type 0
  After n now ends ((ok, m), s') =
      ((ok ≡ false) × (max ≤ n) × Stands n now ends s')
      ⊎ ((ok ≡ true) × (n < max) × Stands (suc n) now ends s')

  call-After :
      (n now ends : ℕ) (s : Server)
      → 0 < n
      → now < ends
      → Stands n now ends s
      → After n now ends (call now s)
  unfolding atomic_increment_with_limit count_up
  call-After n now ends s p b c = elim (Bool-cases (leb max n)) [
    | inl e ↦ inl (
      ground (arith, c now (omega arith) b),
      ground arith,
      λ u d g. ground (arith, c now (omega arith) b, c u d g),
    )
    | inr e ↦ inr (
      ground (arith, c now (omega arith) b, incr_old k now n s),
      ground arith,
      λ u d g. ground (
        arith,
        c now (omega arith) b,
        incr_old k now n s,
        get-incr k now u n s (c now (omega arith) b) (c u d g),
      ),
    )
  ]

  first :
      (now : ℕ) (s : Server)
      → 0 < max
      → get k now s ≡ none
      → ((call now s).0.0 ≡ true) × Stands 1 now (now + secs * 1000) (call now s).1
  unfolding atomic_increment_with_limit count_up
  first now s p e = (
    ground (arith, incr_new k now now s e),
    λ u d g.
        ground (arith, incr_new k now now s e, get-expire k secs now u (number 1) (incr k now s).1),
  )

  allowed-rest :
      (n t ends : ℕ) (ts : List ℕ) (s : Server)
      → 0 < n
      → n ≤ max
      → Within t ends ts
      → Stands n t ends s
      → (n + allowed ts s ≤ max)
        × (n + length ts ≤ max → allowed ts s ≡ length ts)
        × (max ≤ n + length ts → n + allowed ts s ≡ max)
  allowed-rest n t ends [] s p l w c = (omega arith, λ h. refl, λ h. omega arith)
  allowed-rest n t ends (now ∷ ts) s p l (a, b, w) c =
      elim (call-After n now ends s p b (λ u d g. c u (omega arith) g)) [
        | inl (e, m, d) ↦
            let (x, y, z) = allowed-rest n now ends ts (call now s).1 p l w d in
            (ground (arith, x), λ h. absurd (omega arith), λ h. ground (arith, x))
        | inr (e, m, d) ↦
            let (x, y, z) = allowed-rest (suc n) now ends ts (call now s).1 (omega arith) m w d in
            (ground (arith, x), λ h. ground (arith, y), λ h. ground (arith, z))
      ]

  -- Of the requests of one window, which opens with the first on a key that is not there, all are
  -- allowed where they are no more than `max`, and `max` of them where they are no fewer.
  pub window_limit :
      (now : ℕ) (ts : List ℕ) (s : Server)
      → 0 < max
      → get k now s ≡ none
      → Within now (now + secs * 1000) ts
      → (length (now ∷ ts) ≤ max → allowed (now ∷ ts) s ≡ length (now ∷ ts))
        × (max ≤ length (now ∷ ts) → allowed (now ∷ ts) s ≡ max)
  window_limit now ts s p e w =
      let (f, c) = first now s p e in
      let (x, y, z) =
        allowed-rest 1 now (now + secs * 1000) ts (call now s).1 (omega arith) p w c in
      (λ h. ground (arith, f, y), λ h. ground (arith, f, z))

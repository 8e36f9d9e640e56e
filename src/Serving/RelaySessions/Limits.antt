-- ===== src/Serving/RelaySessions/Limits.antt =====
-- `RelaySessionRegistry.allow_bind` over sequences of attempts.
use iicp_client_python.Prelude.{
  ℕ, suc, ◌+◌, ◌-◌, ◌≤◌, ◌<◌, ◌≡◌, refl, false, ◌&&◌, String, some, List, [], ◌∷◌, arith, ap, ◌∙◌,
  str_eq, eq_iff, str_eq_refl, str-cases, leb, ltb, length, if◌then◌else◌, Bool-cases, inl, inr,
}
use iicp_client_python.Prelude.Dict
use iicp_client_python.Prelude.Dict.{Dict}
use iicp_client_python.Serving.RelaySessions.{
  Registry, current_bucket, trimmed, count_bind, allow_bind, max_buckets,
}

-- an attempt to bind, by a worker without a session: its source and time
pub record Attempt : Type 0 where
  pub source : String
  pub time : ℕ

-- how many attempts of a source are let through
unfoldable pub allowed : ℕ → String → Registry → List Attempt → ℕ
allowed window source registry [] = 0
allowed window source registry (a ∷ attempts) =
    let (passes, next) = allow_bind window a.source false a.time registry in
    let rest = allowed window source next attempts in
    if str_eq a.source source && passes then suc rest else rest

-- every attempt is in the window that begins then
abbrev pub Within : ℕ → List Attempt → Type 0
Within end [] = Unit
Within end (a ∷ attempts) = (a.time < end) × Within end attempts

-- the source's bucket
abbrev Counted : ℕ → ℕ → String → Registry → Type 0
Counted start n source registry =
    (Dict.get registry.bind_rate_buckets source ≡ some (start, n))
    × Dict.Unique registry.bind_rate_buckets

get-trimmed :
    (window now : ℕ) (buckets : Dict (ℕ × ℕ)) (k : String) (start n : ℕ)
    → Dict.Unique buckets
    → now < start + window
    → Dict.get buckets k ≡ some (start, n)
    → Dict.get (trimmed window now buckets) k ≡ some (start, n)
get-trimmed window now buckets k start n u p h =
    let found = Dict.get-keep (λ (bucket : ℕ × ℕ). ltb now (bucket.0 + window)) buckets k u in
    elim (Bool-cases (ltb max_buckets (length buckets))) [
      | inl e ↦ ground arith
      | inr e ↦ ground arith
    ]

Unique-trimmed :
    (window now : ℕ) (buckets : Dict (ℕ × ℕ))
    → Dict.Unique buckets
    → Dict.Unique (trimmed window now buckets)
Unique-trimmed window now buckets u = elim (Bool-cases (ltb max_buckets (length buckets))) [
  | inl e ↦ rw e (Dict.Unique-keep (λ (bucket : ℕ × ℕ). ltb now (bucket.0 + window)) buckets u)
  | inr e ↦ rw e u
]

-- the registry after an attempt
abbrev after : ℕ → Attempt → Registry → Registry
after window a registry = (count_bind window a.source a.time registry).1

-- a bucket that is written and trimmed
abbrev written : ℕ → ℕ → String → ℕ × ℕ → Dict (ℕ × ℕ) → Dict (ℕ × ℕ)
written window now source bucket buckets = trimmed window now (Dict.put buckets source bucket)

Counted-other :
    (window start n : ℕ) (source : String) (a : Attempt) (registry : Registry)
    → str_eq a.source source ≡ false
    → a.time < start + window
    → Counted start n source registry
    → Counted start n source (after window a registry)
unfolding count_bind
Counted-other window start n source a registry ne p (h, u) =
    let old = current_bucket window a.time (Dict.get registry.bind_rate_buckets a.source) in
    let bucket : ℕ × ℕ = (old.0, suc old.1) in
    let buckets = Dict.put registry.bind_rate_buckets a.source bucket in
    let unique = Dict.Unique-put registry.bind_rate_buckets a.source bucket u in
    let there : Dict.get buckets source ≡ some (start, n) =
      Dict.get-put registry.bind_rate_buckets a.source source bucket ∙ rw ne h in
    (
      get-trimmed window a.time buckets source start n unique p there,
      Unique-trimmed window a.time buckets unique,
    )

current_bucket-within :
    (window now start n : ℕ)
    → now < start + window
    → current_bucket window now (some (start, n)) ≡ (start, n)
current_bucket-within window now start n p = ground arith

Counted-same :
    (window start n : ℕ) (a : Attempt) (registry : Registry)
    → a.time < start + window
    → Dict.Unique registry.bind_rate_buckets
    → current_bucket window a.time (Dict.get registry.bind_rate_buckets a.source) ≡ (start, n)
    → Counted start (suc n) a.source (after window a registry)
      × ((count_bind window a.source a.time registry).0 ≡ leb (suc n) registry.bind_rate_limit)
unfolding count_bind
Counted-same window start n a registry p u old =
    let bucket : ℕ × ℕ = (start, suc n) in
    let buckets = Dict.put registry.bind_rate_buckets a.source bucket in
    let unique = Dict.Unique-put registry.bind_rate_buckets a.source bucket u in
    let there : Dict.get buckets a.source ≡ some bucket =
      Dict.get-put registry.bind_rate_buckets a.source a.source bucket
      ∙ rw (str_eq_refl a.source) refl in
    rw old (
      (
        get-trimmed window a.time buckets a.source start (suc n) unique p there,
        Unique-trimmed window a.time buckets unique,
      ),
      refl,
    )

limit-count_bind :
    (window now : ℕ) (source : String) (registry : Registry)
    → (count_bind window source now registry).1.bind_rate_limit ≡ registry.bind_rate_limit
unfolding count_bind
limit-count_bind window now source registry = refl

allow_bind-counted :
    (window now : ℕ) (source : String) (registry : Registry)
    → 0 < registry.bind_rate_limit
    → allow_bind window source false now registry ≡ count_bind window source now registry
unfolding allow_bind
allow_bind-counted window now source registry p = ground arith

allowed-same :
    (window : ℕ) (source : String) (a : Attempt) (registry : Registry) (attempts : List Attempt)
    → 0 < registry.bind_rate_limit
    → a.source ≡ source
    → allowed window source registry (a ∷ attempts) ≡ (
        if (count_bind window a.source a.time registry).0
        then suc (allowed window source (after window a registry) attempts)
        else allowed window source (after window a registry) attempts)
unfolding allowed
allowed-same window source a registry attempts p e =
    ground (arith, allow_bind-counted window a.time a.source registry p, eq_iff a.source source)

allowed-other :
    (window : ℕ) (source : String) (a : Attempt) (registry : Registry) (attempts : List Attempt)
    → 0 < registry.bind_rate_limit
    → str_eq a.source source ≡ false
    → allowed window source registry (a ∷ attempts)
      ≡ allowed window source (after window a registry) attempts
unfolding allowed
allowed-other window source a registry attempts p ne =
    ground (arith, allow_bind-counted window a.time a.source registry p)

allowed-nil :
    (window : ℕ) (source : String) (registry : Registry) → allowed window source registry [] ≡ 0
unfolding allowed
allowed-nil window source registry = refl

allowed-le :
    (window start n : ℕ) (source : String) (registry : Registry) (attempts : List Attempt)
    → 0 < registry.bind_rate_limit
    → Counted start n source registry
    → Within (start + window) attempts
    → allowed window source registry attempts ≤ registry.bind_rate_limit - n
allowed-le window start n source registry [] p c w =
    omega (arith, allowed-nil window source registry)
allowed-le window start n source registry (a ∷ attempts) p c (early, w) =
    let kept = limit-count_bind window a.time a.source registry in
    elim (str-cases a.source source) [
      | inl e ↦
          let mine : Dict.get registry.bind_rate_buckets a.source ≡ some (start, n) = rw e c.0 in
          let old =
            ap (current_bucket window a.time) mine
            ∙ current_bucket-within window a.time start n early in
          let next = Counted-same window start n a registry early c.1 old in
          let counted : Counted start (suc n) source (after window a registry) = rw⁻¹ e next.0 in
          let rest =
            allowed-le window start (suc n) source (after window a registry) attempts (omega arith)
              counted w in
          let head = allowed-same window source a registry attempts p e in ground arith
      | inr ne ↦
          let rest =
            allowed-le window start n source (after window a registry) attempts (omega arith)
              (Counted-other window start n source a registry ne early c) w in
          omega (arith, allowed-other window source a registry attempts p ne)
    ]

-- From an attempt that begins a new window of its source on, while no attempt of any source comes
-- after the end of that window, no more attempts of the source are let through than the limit; the
-- limit and the window are positive, and no source has two buckets.
pub bind_rate_limited :
    (window : ℕ) (registry : Registry) (a : Attempt) (attempts : List Attempt)
    → 0 < registry.bind_rate_limit
    → 0 < window
    → Dict.Unique registry.bind_rate_buckets
    → current_bucket window a.time (Dict.get registry.bind_rate_buckets a.source) ≡ (a.time, 0)
    → Within (a.time + window) attempts
    → allowed window a.source registry (a ∷ attempts) ≤ registry.bind_rate_limit
bind_rate_limited window registry a attempts p z u fresh w =
    let next = Counted-same window a.time 0 a registry (omega arith) u fresh in
    let kept = limit-count_bind window a.time a.source registry in
    let rest =
      allowed-le window a.time 1 a.source (after window a registry) attempts (omega arith) next.0
        w in
    let head = allowed-same window a.source a registry attempts p refl in ground arith

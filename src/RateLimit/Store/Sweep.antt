-- ===== src/RateLimit/Store/Sweep.antt =====
-- The sweep of packages/auth/src/rate-limit/store.ts removes the expired counters and no other.
use aoothjs.Base.{
  ℕ, ◌+◌, ◌≤◌, ◌<◌, ◌≡◌, refl, true, Option, none, some, [], ◌∷◌, arith, leb, ltb, length, All,
  Bool-cases, inl, inr, Eq, if◌then◌else◌,
}
use aoothjs.Base.Assoc.{Assoc, get}
use aoothjs.Base.Assoc.Laws.{Distinct}
use aoothjs.RateLimit.Store.{Counter, below, lower, sweep_from}

-- a lower bound of an expiry
abbrev pub IsBound : Option ℕ → ℕ → Type 0
IsBound none t = ⊥
IsBound (some b) t = b ≤ t

-- the bound lies below the expiry of every entry
abbrev pub Bounds : {K : Type 0} → Option ℕ → Assoc K Counter → Type 0
Bounds least entries = All (λ x. IsBound least x.1.expires_at) entries

pub IsBound-lower : (t : ℕ) (least : Option ℕ) → IsBound (lower t least) t
IsBound-lower t none = omega arith
IsBound-lower t (some b) = ground arith

module _ {K : Type 0} where
  pub Bounds-lower :
      (t : ℕ) (least : Option ℕ) (entries : Assoc K Counter)
      → Bounds least entries
      → Bounds (lower t least) entries
  Bounds-lower t none [] h = tt
  Bounds-lower t (some b) [] h = tt
  Bounds-lower t none (x ∷ xs) h = absurd h.0
  Bounds-lower t (some b) (x ∷ xs) h = ground (arith, Bounds-lower t (some b) xs h.1)

  -- after a sweep the bound is one of the entries that stay
  pub sweep_from-Bounds :
      (now : ℕ) (entries : Assoc K Counter)
      → Bounds (sweep_from now entries).2 (sweep_from now entries).0
  unfolding sweep_from
  sweep_from-Bounds now [] = tt
  sweep_from-Bounds now ((key, entry) ∷ entries) =
      let rest = sweep_from-Bounds now entries in
      elim (Bool-cases (leb entry.expires_at now)) [
        | inl gone ↦ rw gone rest
        | inr live ↦ rw live (
          IsBound-lower entry.expires_at (sweep_from now entries).2,
          Bounds-lower entry.expires_at (sweep_from now entries).2 _ rest,
        )
      ]

  pub length-sweep_from :
      (now : ℕ) (entries : Assoc K Counter)
      → length (sweep_from now entries).0 + (sweep_from now entries).1 ≡ length entries
  unfolding sweep_from
  length-sweep_from now [] = omega arith
  length-sweep_from now ((key, entry) ∷ entries) = ground (arith, length-sweep_from now entries)

  pub sweep_from-live :
      (now : ℕ) (entries : Assoc K Counter)
      → All (λ x. now < x.1.expires_at) (sweep_from now entries).0
  unfolding sweep_from
  sweep_from-live now [] = tt
  sweep_from-live now ((key, entry) ∷ entries) = ground (arith, sweep_from-live now entries)

  -- while the time is below the bound there is nothing to sweep
  pub sweep_from_early :
      (now : ℕ) (least : Option ℕ) (entries : Assoc K Counter)
      → Bounds least entries
      → below now least ≡ true
      → ((sweep_from now entries).0 ≡ entries) × ((sweep_from now entries).1 ≡ 0)
  unfolding sweep_from
  sweep_from_early now least [] h early = (refl, refl)
  sweep_from_early now none (x ∷ entries) h early = absurd h.0
  sweep_from_early now (some b) ((key, entry) ∷ entries) h early =
      ground (arith, sweep_from_early now (some b) entries h.1)

-- what `get` answers for an entry that was looked up
abbrev pub live_count : ℕ → Option Counter → ℕ
live_count now none = 0
live_count now (some entry) = if ltb now entry.expires_at then entry.count else 0

module _ {K : Type 0} ⦃e : Eq K⦄ where
  -- a sweep changes no count
  pub get-sweep_from :
      (now : ℕ) (key : K) (entries : Assoc K Counter)
      → Distinct entries
      → live_count now (get key (sweep_from now entries).0) ≡ live_count now (get key entries)
  unfolding sweep_from get
  get-sweep_from now key [] d = refl
  get-sweep_from now key ((j, entry) ∷ entries) d =
      ground (arith, get-sweep_from now key entries d.1, e.equal_iff j key)

  pub get-sweep_from_absent :
      (now : ℕ) (key : K) (entries : Assoc K Counter)
      → get key entries ≡ none
      → get key (sweep_from now entries).0 ≡ none
  unfolding sweep_from get
  get-sweep_from_absent now key [] h = refl
  get-sweep_from_absent now key ((j, entry) ∷ entries) h =
      ground (arith, get-sweep_from_absent now key entries)

  pub sweep_from-Distinct :
      (now : ℕ) (entries : Assoc K Counter) → Distinct entries → Distinct (sweep_from now entries).0
  unfolding sweep_from
  sweep_from-Distinct now [] d = tt
  sweep_from-Distinct now ((j, entry) ∷ entries) d = elim (Bool-cases (leb entry.expires_at now)) [
    | inl gone ↦ rw gone (sweep_from-Distinct now entries d.1)
    | inr live ↦
        rw live (get-sweep_from_absent now j entries d.0, sweep_from-Distinct now entries d.1)
  ]

-- ===== src/RateLimit/Store/Evict.antt =====
-- The eviction of packages/auth/src/rate-limit/store.ts: which key goes, and when the loop ends.
use aoothjs.Base.{
  ℕ, zero, suc, ◌<◌, ◌≡◌, refl, ◌⊎◌, inl, inr, Bool, true, false, not, Option, none, some, [], ◌∷◌,
  arith, leb, any, length, All, Eq, ◌==◌, ==_refl, Bool-cases, Option-cases,
}
use aoothjs.Base.Assoc.{Assoc, get, delete}
use aoothjs.Base.Assoc.Laws.{get-delete, length-delete-lt, All-delete, Distinct, Distinct-delete}
use aoothjs.RateLimit.Store.{Counter, victim_from, evict_one, evict_while}

module _ {K : Type 0} ⦃e : Eq K⦄ (evict_last : K → Bool) where
  -- some key may go before the marked ones
  abbrev pub has_unmarked : Assoc K Counter → Bool
  has_unmarked entries = any (λ x. not (evict_last x.0)) entries

  victim_from_unmarked :
      (first : Option K) (entries : Assoc K Counter) (victim : K)
      → has_unmarked entries ≡ true
      → victim_from evict_last first entries ≡ some victim
      → evict_last victim ≡ false
  unfolding victim_from
  victim_from_unmarked first [] victim u h = cc
  victim_from_unmarked none ((key, c) ∷ entries) victim u h =
      ground (arith, victim_from_unmarked (some key) entries victim)
  victim_from_unmarked (some k) ((key, c) ∷ entries) victim u h =
      ground (arith, victim_from_unmarked (some k) entries victim)

  evict_one-none :
      (entries : Assoc K Counter)
      → victim_from evict_last none entries ≡ none
      → evict_one evict_last entries ≡ entries
  unfolding evict_one
  evict_one-none entries h = rw (h, evict_one)

  evict_one-some :
      (entries : Assoc K Counter) (victim : K)
      → victim_from evict_last none entries ≡ some victim
      → evict_one evict_last entries ≡ delete victim entries
  unfolding evict_one
  evict_one-some entries victim h = rw (h, evict_one)

  -- While a key that is not marked is there, no marked counter is evicted.
  pub evict_one-spares :
      (entries : Assoc K Counter) (k : K)
      → has_unmarked entries ≡ true
      → evict_last k ≡ true
      → get k (evict_one evict_last entries) ≡ get k entries
  evict_one-spares entries k u marked = elim (Option-cases (victim_from evict_last none entries)) [
    | inl none_found ↦ rw (evict_one-none entries none_found)
    | inr (victim, found) ↦
        let unmarked = victim_from_unmarked none entries victim u found in
        rw (evict_one-some entries victim found)
          (ground (arith, get-delete victim k entries, e.equal_iff victim k))
  ]

  IsIn : K → Assoc K Counter → Type 0
  IsIn k entries = (c : Counter) × (get k entries ≡ some c)

  IsIn-cons :
      (k j : K) (c : Counter) (entries : Assoc K Counter)
      → IsIn k entries
      → IsIn k ((j, c) ∷ entries)
  unfolding IsIn get
  IsIn-cons k j c entries (d, found) = elim (Bool-cases (j == k)) [
    | inl here ↦ (c, rw (here, get))
    | inr there ↦ (d, rw (there, get) found)
  ]

  IsIn-head : (k : K) (c : Counter) (entries : Assoc K Counter) → IsIn k ((k, c) ∷ entries)
  unfolding IsIn get
  IsIn-head k c entries = (c, rw (==_refl k))

  record IsVictim (out : Option K) (entries : Assoc K Counter) (first : K → Type 0) : Type 0 where
    victim : K
    chosen : out ≡ some victim
    among : first victim ⊎ IsIn victim entries

  victim_from-some :
      (k : K) (entries : Assoc K Counter)
      → IsVictim (victim_from evict_last (some k) entries) entries (λ v. v ≡ k)
  unfolding victim_from
  victim_from-some k [] = record { victim = k; chosen = refl; among = inl refl }
  victim_from-some k ((key, c) ∷ entries) = elim (Bool-cases (evict_last key)) [
    | inr unmarked ↦
        rw unmarked (record { victim = key; chosen = refl; among = inr (IsIn-head key c entries) })
    | inl marked ↦
        let rest = victim_from-some k entries in
        rw marked (record {
          victim = rest.victim;
          chosen = rest.chosen;
          among = elim rest.among [
            | inl first ↦ inl first
            | inr later ↦ inr (IsIn-cons rest.victim key c entries later)
          ];
        })
  ]

  victim-IsIn :
      (key : K) (c : Counter) (entries : Assoc K Counter)
      → (v : K) × (victim_from evict_last none ((key, c) ∷ entries) ≡ some v)
        × IsIn v ((key, c) ∷ entries)
  unfolding victim_from
  victim-IsIn key c entries = elim (Bool-cases (evict_last key)) [
    | inr unmarked ↦ (key, rw unmarked, IsIn-head key c entries)
    | inl marked ↦
        let rest = victim_from-some key entries in
        (
          rest.victim,
          rw marked rest.chosen,
          elim rest.among [
            | inl first ↦ rw first (IsIn-head key c entries)
            | inr later ↦ IsIn-cons rest.victim key c entries later
          ],
        )
  ]

  -- every round of the loop removes an entry
  length-evict_one :
      (key : K) (c : Counter) (entries : Assoc K Counter)
      → length (evict_one evict_last ((key, c) ∷ entries)) < length ((key, c) ∷ entries)
  unfolding IsIn
  length-evict_one key c entries =
      let (v, chosen, (d, found)) = victim-IsIn key c entries in
      rw (evict_one-some ((key, c) ∷ entries) v chosen)
        (length-delete-lt v ((key, c) ∷ entries) found)

  evict_one-Distinct :
      (entries : Assoc K Counter) → Distinct entries → Distinct (evict_one evict_last entries)
  evict_one-Distinct entries d = elim (Option-cases (victim_from evict_last none entries)) [
    | inl none_found ↦ rw (evict_one-none entries none_found) d
    | inr (victim, found) ↦
        rw (evict_one-some entries victim found) (Distinct-delete victim entries d)
  ]

  evict_one_All :
      (P : K × Counter → Type 0) (entries : Assoc K Counter)
      → All P entries
      → All P (evict_one evict_last entries)
  evict_one_All P entries h = elim (Option-cases (victim_from evict_last none entries)) [
    | inl none_found ↦ rw (evict_one-none entries none_found) h
    | inr (victim, found) ↦ rw (evict_one-some entries victim found) (All-delete P victim entries h)
  ]

  evict_one-get :
      (entries : Assoc K Counter) (k : K)
      → (get k (evict_one evict_last entries) ≡ none)
        ⊎ (get k (evict_one evict_last entries) ≡ get k entries)
  evict_one-get entries k = elim (Option-cases (victim_from evict_last none entries)) [
    | inl none_found ↦ inr (rw (evict_one-none entries none_found))
    | inr (victim, found) ↦
        rw (evict_one-some entries victim found) (ground (arith, get-delete victim k entries))
  ]

  -- what the loop leaves of the entries
  pub record IsKept (limit : ℕ) (entries kept : Assoc K Counter) : Type 1 where
    pub below : length kept < limit
    pub distinct : Distinct entries → Distinct kept
    pub all : (P : K × Counter → Type 0) → All P entries → All P kept
    pub lookup : (k : K) → (get k kept ≡ none) ⊎ (get k kept ≡ get k entries)

  IsKept-evict_one :
      (limit : ℕ) (entries kept : Assoc K Counter)
      → IsKept limit (evict_one evict_last entries) kept
      → IsKept limit entries kept
  IsKept-evict_one limit entries kept h = record {
    below = h.below;
    distinct = λ d. h.distinct (evict_one-Distinct entries d);
    all = λ P a. h.all P (evict_one_All P entries a);
    lookup = λ k. ground (arith, h.lookup k, evict_one-get entries k);
  }

  -- With a limit of at least one and as many rounds as entries the loop ends, below the limit.
  pub evict_while_ends :
      (fuel limit : ℕ) (entries : Assoc K Counter)
      → 0 < limit
      → length entries < fuel
      → (kept : Assoc K Counter) × (evict_while fuel evict_last (some limit) entries ≡ some kept)
        × IsKept limit entries kept
  unfolding evict_while
  evict_while_ends zero limit entries pos enough = absurd (omega arith)
  evict_while_ends (suc fuel) limit [] pos enough = (
    [],
    ground arith,
    record {
      below = pos;
      distinct = λ d. d;
      all = λ P a. a;
      lookup = λ k. inl (unfold get in refl);
    },
  )
  evict_while_ends (suc fuel) limit ((key, c) ∷ entries) pos enough =
      elim (Bool-cases (leb limit (length ((key, c) ∷ entries)))) [
        | inr done ↦ (
          (key, c) ∷ entries,
          rw done,
          record {
            below = ground arith;
            distinct = λ d. d;
            all = λ P a. a;
            lookup = λ k. inr refl;
          },
        )
        | inl more ↦
            let (kept, ended, h) =
              evict_while_ends fuel limit (evict_one evict_last ((key, c) ∷ entries)) pos
                (omega (arith, length-evict_one key c entries)) in
            (kept, rw more ended, IsKept-evict_one limit ((key, c) ∷ entries) kept h)
      ]

  -- A limit of zero is never passed: the loop runs on, whatever the fuel.
  pub evict_while-zero :
      (fuel : ℕ) (entries : Assoc K Counter) → evict_while fuel evict_last (some 0) entries ≡ none
  unfolding evict_while
  evict_while-zero zero entries = refl
  evict_while-zero (suc fuel) entries =
      ground (arith, evict_while-zero fuel (evict_one evict_last entries))

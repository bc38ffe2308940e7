-- ===== src/RateLimit/Store.antt =====
-- packages/auth/src/rate-limit/store.ts: `RateLimitStoreMemory`. Times are milliseconds; `none`
-- stands for `Infinity`. A method that reads the clock takes the time as `now`. The store only
-- compares keys, so their type is a parameter.
pub mod Sweep
pub mod Evict
pub mod Invariant
pub mod Room
pub mod Counts
pub mod Methods
mod Tests
use aoothjs.Base.{
  ℕ, zero, suc, ◌+◌, ◌*◌, max, Bool, true, false, not, ◌&&◌, Option, none, some, List, [], ◌∷◌, leb,
  ltb, length, if◌then◌else◌, Eq,
}
use aoothjs.Base.Assoc.{Assoc, get, put, delete}

pub record Counter : Type 0 where
  pub count : ℕ
  pub expires_at : ℕ

-- the options of the constructor; an absent `evictLast` marks no key
pub record Options (K : Type 0) : Type 0 where
  pub max_entries : Option ℕ
  pub evict_last : K → Bool

pub record Store (K : Type 0) : Type 0 where
  pub entries : Assoc K Counter
  pub sweep_at : ℕ
  pub min_expiry : Option ℕ

abbrev pub min_sweep_size : ℕ
min_sweep_size = 1024

-- `a < b`, where `b` may be infinite
abbrev pub below : ℕ → Option ℕ → Bool
below a none = true
below a (some b) = ltb a b

-- the size of the map has reached the limit
abbrev pub reaches : ℕ → Option ℕ → Bool
reaches n none = false
reaches n (some m) = leb m n

-- the smaller of an expiry and a lower bound
abbrev pub lower : ℕ → Option ℕ → Option ℕ
lower a bound = if below a bound then some a else bound

module _ {K : Type 0} where
  abbrev pub empty : Store K
  empty = record { entries = []; sweep_at = min_sweep_size; min_expiry = none }

  -- the loop of `sweep`: the entries that stay, how many go, and the least expiry that stays
  unfoldable pub sweep_from : ℕ → Assoc K Counter → Assoc K Counter × ℕ × Option ℕ
  sweep_from now [] = ([], 0, none)
  sweep_from now ((key, entry) ∷ entries) =
      let (kept, removed, least) = sweep_from now entries in
      if leb entry.expires_at now
      then (kept, suc removed, least)
      else ((key, entry) ∷ kept, removed, lower entry.expires_at least)

  unfoldable pub sweep : ℕ → Store K → ℕ × Store K
  unfolding sweep_from
  sweep now s =
      let (kept, removed, least) = sweep_from now s.entries in
      (removed, record s { entries = kept; min_expiry = least })

  -- the loop of `evictOne`, which has met `first` among marked keys
  unfoldable pub victim_from : (K → Bool) → Option K → Assoc K Counter → Option K
  victim_from evict_last first [] = first
  victim_from evict_last first ((key, _) ∷ entries) =
      let rest =
        victim_from evict_last (elim first [ none ↦ some key | some k ↦ some k ]) entries in
      if evict_last key then rest else some key

module _ {K : Type 0} ⦃e : Eq K⦄ where
  unfoldable pub evict_one : (K → Bool) → Assoc K Counter → Assoc K Counter
  unfolding victim_from
  evict_one evict_last entries = elim (victim_from evict_last none entries) [
    | none ↦ entries
    | some victim ↦ delete victim entries
  ]

  -- `while (this.entries.size >= this.maxEntries) this.evictOne()`; `none` means that the fuel ran
  -- out
  unfoldable pub evict_while :
      ℕ → (K → Bool) → Option ℕ → Assoc K Counter → Option (Assoc K Counter)
  evict_while zero evict_last limit entries = none
  evict_while (suc fuel) evict_last limit entries =
      let rest = evict_while fuel evict_last limit (evict_one evict_last entries) in
      if reaches (length entries) limit then rest else some entries

  -- `if (now >= this.minExpiry) this.sweep(now)`
  unfoldable pub sweep_if_due : ℕ → Store K → Store K
  unfolding sweep
  sweep_if_due now s = if below now s.min_expiry then s else (sweep now s).1

  -- the eviction loop, with a round for each entry and one for the last test
  unfoldable pub evict_to_fit : Options K → Store K → Option (Store K)
  unfolding evict_while
  evict_to_fit options s =
      elim (evict_while (suc (length s.entries)) options.evict_last options.max_entries s.entries) [
        | none ↦ none
        | some kept ↦ some (record s { entries = kept })
      ]

  -- what `hit` does for a key that is not in the map, before it inserts it
  unfoldable pub make_room : Options K → ℕ → Store K → Option (Store K)
  unfolding evict_to_fit sweep_if_due
  make_room options now s =
      let swept = sweep_if_due now s in
      if reaches (length s.entries) options.max_entries
      then evict_to_fit options swept
      else if leb s.sweep_at (length s.entries)
      then some (record swept { sweep_at = max min_sweep_size (length swept.entries * 2) })
      else some s

  -- a fresh counter goes to the end of the map
  unfoldable pub start_counter : K → ℕ → Store K → Store K
  start_counter key expires_at s = record s {
    min_expiry = lower expires_at s.min_expiry;
    entries = put key (record { count = 1; expires_at = expires_at }) (delete key s.entries);
  }

  -- `none` means that the eviction loop does not end within its fuel
  unfoldable pub hit : Options K → ℕ → K → ℕ → Store K → Option (ℕ × Store K)
  unfolding make_room start_counter
  hit options now key ttl s = elim (get key s.entries) [
    | none ↦ elim (make_room options now s) [
      | none ↦ none
      | some room ↦ some (1, start_counter key (now + ttl) room)
    ]
    | some entry ↦
        if leb entry.expires_at now
        then some (1, start_counter key (now + ttl) s)
        else some (
          suc entry.count,
          record s { entries = put key (record entry { count = suc entry.count }) s.entries },
        )
  ]

  -- `get`
  unfoldable pub count_of : ℕ → K → Store K → ℕ
  count_of now key s = elim (get key s.entries) [
    | none ↦ 0
    | some entry ↦ if ltb now entry.expires_at then entry.count else 0
  ]

  unfoldable pub expire : ℕ → K → ℕ → Store K → Store K
  expire now key ttl s = elim (get key s.entries) [
    | none ↦ s
    | some entry ↦ if leb entry.expires_at now then s else record s {
      min_expiry = lower (now + ttl) s.min_expiry;
      entries = put key (record entry { expires_at = now + ttl }) (delete key s.entries);
    }
  ]

  unfoldable pub reset : K → Store K → Store K
  reset key s = record s { entries = delete key s.entries }

  unfoldable pub clear : Store K → Store K
  clear s = record s { entries = []; min_expiry = none }

  unfoldable pub cleanup : ℕ → Store K → ℕ × Store K
  unfolding sweep
  cleanup now s = sweep now s

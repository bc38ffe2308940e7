-- ===== src/User/Service/Devices/Cap.antt =====
-- The cap on the ledger of seen devices in packages/user/src/user-service.ts.
use mathlib.Core.Path.{subst}
use aoothjs.Base.{
  ℕ, zero, suc, ◌+◌, ◌-◌, ◌≤◌, ◌≡◌, refl, sym, ap, ◌∙◌, ◌⊎◌, inl, inr, Bool, true, not, List, [],
  ◌∷◌, ◌++◌, arith, ltb, Bool-cases, length, filter, text_eq, nat_eq, All-map, All-append,
  All_right, string_eq, All,
}
use aoothjs.Base.Sorting.{
  passing, passing-append, IsSortedBy, sort_by, sort_by-IsSortedBy, passing-sort_by, length-sort_by,
}
use aoothjs.User.Types.{TrustedDeviceRecord}
use aoothjs.User.Service.Devices.{Devices, skip, sort_devices, within_cap}

abbrev pub lead : {A : Type 0} → ℕ → List A → List A
lead zero xs = []
lead (suc n) [] = []
lead (suc n) (x ∷ xs) = x ∷ lead n xs

module _ {A : Type 0} where
  lead-skip : (n : ℕ) (xs : List A) → lead n xs ++ skip n xs ≡ xs
  lead-skip zero xs = refl
  lead-skip (suc n) [] = refl
  lead-skip (suc n) (x ∷ xs) = ap (λ ys. x ∷ ys) (lead-skip n xs)

  length-skip : (n : ℕ) (xs : List A) → length (skip n xs) ≡ length xs - n
  length-skip zero xs = omega arith
  length-skip (suc n) [] = omega arith
  length-skip (suc n) (x ∷ xs) = omega (arith, length-skip n xs)

  module _ (key : A → ℕ) where
    -- what stands before in a sorted list is no greater than what stands after
    IsSortedBy-append :
        (xs ys : List A) → IsSortedBy key (xs ++ ys) → All (λ x. All (λ y. key x ≤ key y) ys) xs
    IsSortedBy-append [] ys h = tt
    IsSortedBy-append (x ∷ xs) ys h =
        (All_right (λ y. key x ≤ key y) xs ys h.0, IsSortedBy-append xs ys h.1)

-- What a cap may do to a ledger: some records are kept and some evicted, of those kept within the
-- cap; evicted live records expire no later than any that is kept.
pub record IsCapped (now cap : ℕ) (devices kept : Devices) : Type 0 where
  pub evicted : Devices
  pub within : length kept ≤ cap
  pub all_of :
      (q : TrustedDeviceRecord → Bool) → passing q evicted + passing q kept ≡ passing q devices
  pub oldest : All (λ r. (r.expires_at ≤ now) ⊎ All (λ k. r.expires_at ≤ k.expires_at) kept) evicted

module _ (p : TrustedDeviceRecord → Bool) where
  passing_parts :
      (q : TrustedDeviceRecord → Bool) (xs : Devices)
      → passing q (filter (λ r. not (p r)) xs) + passing q (filter p xs) ≡ passing q xs
  passing_parts q [] = omega arith
  passing_parts q (x ∷ xs) = ground (arith, passing_parts q xs)

  All-filter :
      (P : TrustedDeviceRecord → Type 0) (xs : Devices)
      → ((r : TrustedDeviceRecord) → p r ≡ true → P r)
      → All P (filter p xs)
  All-filter P [] h = tt
  All-filter P (x ∷ xs) h = elim (Bool-cases (p x)) [
    | inl passes ↦ rw passes (h x passes, All-filter P xs h)
    | inr fails ↦ rw fails (All-filter P xs h)
  ]

module _ (now cap : ℕ) where
  abbrev is_alive : TrustedDeviceRecord → Bool
  is_alive r = ltb now r.expires_at

  abbrev dead_of : Devices → Devices
  dead_of devices = filter (λ r. not (is_alive r)) devices

  dead_oldest :
      (devices kept : Devices)
      → All
          (λ r. (r.expires_at ≤ now) ⊎ All (λ k. r.expires_at ≤ k.expires_at) kept)
          (dead_of devices)
  dead_oldest devices kept =
      All-filter (λ r. not (is_alive r))
        (λ r. (r.expires_at ≤ now) ⊎ All (λ k. r.expires_at ≤ k.expires_at) kept) devices
        λ r over. inl (ground (arith, over))

  pub within_cap-IsCapped :
      (devices : Devices) → IsCapped now cap devices (within_cap now cap devices)
  unfolding within_cap sort_devices
  within_cap-IsCapped devices =
      let live = filter is_alive devices in
      elim (Bool-cases (ltb cap (length devices))) [
        | inr small ↦ rw small (record {
          evicted = [];
          within = ground (arith, small);
          all_of = λ q. omega arith;
          oldest = tt;
        })
        | inl many ↦ elim (Bool-cases (ltb cap (length live))) [
          | inr enough ↦
              rw (many, enough)
                (record {
                  evicted = dead_of devices;
                  within = ground (arith, enough);
                  all_of = λ q. passing_parts is_alive q devices;
                  oldest = dead_oldest devices live;
                })
          | inl full ↦
              let sorted = sort_by (λ r. r.expires_at) live in
              let n = length live - cap in
              let kept = skip n sorted in
              let parts : lead n sorted ++ kept ≡ sorted = lead-skip n sorted in
              rw (many, full)
                (record {
                  evicted = dead_of devices ++ lead n sorted;
                  within =
                      omega (arith, length-skip n sorted, length-sort_by (λ r. r.expires_at) live);
                  all_of = λ q. omega (
                    arith,
                    passing-append q (dead_of devices) (lead n sorted),
                    sym (passing-append q (lead n sorted) kept) ∙ ap (passing q) parts,
                    passing-sort_by (λ r. r.expires_at) q live,
                    passing_parts is_alive q devices,
                  );
                  oldest =
                      All-append
                        (λ r. (r.expires_at ≤ now) ⊎ All (λ k. r.expires_at ≤ k.expires_at) kept)
                        (dead_of devices) (lead n sorted) (dead_oldest devices kept)
                        (All-map (λ r h. inr h) (lead n sorted)
                          (IsSortedBy-append (λ r. r.expires_at) (lead n sorted) kept
                            (subst (IsSortedBy (λ r. r.expires_at)) (sym parts)
                              (sort_by-IsSortedBy (λ r. r.expires_at) live))));
                })
        ]
      ]

-- ===== src/User/Service/Passwords/Change.antt =====
-- The change of a password in packages/user/src/user-service.ts, by how it ends.
use aoothjs.Base.{
  All, ℕ, zero, suc, ◌≤◌, ◌≡◌, refl, inl, inr, String, Bool, true, false, some, List, [], ◌∷◌,
  arith, Bool-cases, length, any, Text, text_eq, nat_eq, string_eq, ◌==◌, ==_refl,
}
use aoothjs.Base.Assoc.{get}
use aoothjs.Base.Assoc.Entries.{get-put_here, get-put_there}
use aoothjs.User.Types.{PasswordData, UserCredentials, UserPatch, Result, ok, err}
use aoothjs.User.Patch.{deep_merge, merge_password, merge_account, merge_mfa}
use aoothjs.User.Store.{UserStore, updated, update, increment_all, find_by_id}
use aoothjs.User.Store.Plain.{with_row, update_plain}
use aoothjs.User.Service.{PasswordPolicy, ResolvedConfig, PasswordHasher, >>=-ok, setting, get_user}
use aoothjs.User.Service.Passwords.{
  check_policies, first, known_hashes, new_history, apply_password_change, set_password, changing,
}

length-first : {A : Type 0} (n : ℕ) (xs : List A) → length (first n xs) ≤ n
length-first zero xs = omega arith
length-first (suc n) [] = omega arith
length-first (suc n) (x ∷ xs) = omega (arith, length-first n xs)

module _ (config : ResolvedConfig) (hasher : PasswordHasher) (now : ℕ) (salt id : String)
    (password : Text) where
  -- the rule of every policy holds for the new password
  abbrev pub Allowed : UserCredentials → Type 0
  Allowed user = All (λ policy. policy.rule password user.password ≡ true) config.policies

  abbrev policies_pass : UserCredentials → Bool
  policies_pass user = (check_policies password user.password config.policies).passed

  abbrev is_reused : UserCredentials → Bool
  is_reused user = any (hasher.verify password) (known_hashes user.password)

  -- what a change that was made has done to the row of the user
  pub record IsChanged (user : UserCredentials) (before after : UserStore) : Type 0 where
    pub row : UserCredentials
    pub found : get id after.rows ≡ some row
    pub allowed : Allowed user
    pub unused : is_reused user ≡ false
    pub hashed : row.password.hash ≡ hasher.hash salt password
    pub dated : row.password.last_changed ≡ now
    pub own : row.password.is_initial ≡ false
    pub history : row.password.history ≡ first config.history_length (known_hashes user.password)
    pub bounded : length row.password.history ≤ config.history_length
    pub rest : row ≡ record user { version = row.version; password = row.password }
    pub others : (k : String) → (id == k) ≡ false → get k after.rows ≡ get k before.rows

  -- with the checks made before: a success has passed them, an error has changed nothing
  abbrev pub IsOutcome : Bool → UserCredentials → UserStore → Result Unit × UserStore → Type 0
  IsOutcome checks user before (ok _, after) = (checks ≡ true) × IsChanged user before after
  IsOutcome checks user before (err e, after) = after ≡ before

  allowed-policies :
      (old : PasswordData) (policies : List PasswordPolicy)
      → (check_policies password old policies).passed ≡ true
      → All (λ policy. policy.rule password old ≡ true) policies
  unfolding check_policies
  allowed-policies old [] h = tt
  allowed-policies old (policy ∷ policies) h =
      (ground (arith, h), allowed-policies old policies (ground (arith, h)))

  change : UserCredentials → UserPatch
  change user =
      changing now (hasher.hash salt password) (new_history config.history_length user.password)

  changed_row : UserCredentials → UserCredentials
  changed_row user = updated (setting (change user)) user

  applied :
      (user : UserCredentials) (s : UserStore)
      → get id s.rows ≡ some user
      → policies_pass user ≡ true
      → is_reused user ≡ false
      → apply_password_change config hasher now salt id user password s
        ≡ (ok tt, with_row id (changed_row user) s)
  unfolding apply_password_change changed_row change
  applied user s found fine fresh =
      let e = update_plain id (setting (change user)) s found refl (refl, refl) in
      simp (fine, fresh) (>>=-ok (update id (setting (change user))) _ s e)

  changed_row-IsChanged :
      (user : UserCredentials) (s : UserStore)
      → policies_pass user ≡ true
      → is_reused user ≡ false
      → IsChanged user s (with_row id (changed_row user) s)
  unfolding changed_row change updated increment_all deep_merge merge_password merge_account
      merge_mfa new_history
  changed_row-IsChanged user s fine fresh = record {
    row = changed_row user;
    found = get-put_here id id (changed_row user) s.rows (==_refl id);
    allowed = allowed-policies user.password config.policies fine;
    unused = fresh;
    hashed = refl;
    dated = refl;
    own = refl;
    history = refl;
    bounded = length-first config.history_length (known_hashes user.password);
    rest = refl;
    others = λ k other. get-put_there id k (changed_row user) s.rows other;
  }

  apply-IsOutcome :
      (user : UserCredentials) (s : UserStore)
      → get id s.rows ≡ some user
      → IsOutcome true user s (apply_password_change config hasher now salt id user password s)
  unfolding apply_password_change
  apply-IsOutcome user s found = elim (Bool-cases (policies_pass user)) [
    | inr bad ↦ rw bad refl
    | inl fine ↦ elim (Bool-cases (is_reused user)) [
      | inl used ↦ rw (fine, used) refl
      | inr fresh ↦
          rw (applied user s found fine fresh) (refl, changed_row-IsChanged user s fine fresh)
    ]
  ]

  -- the outcome of `setPassword`
  pub set_password-IsOutcome :
      (s : UserStore) (user : UserCredentials)
      → get id s.rows ≡ some user
      → IsOutcome true user s (set_password config hasher now salt id password s)
  unfolding set_password get_user find_by_id
  set_password-IsOutcome s user found = rw found (apply-IsOutcome user s found)

-- ===== src/User/Service/Devices/Seen.antt =====
-- `addSeenDevice` of packages/user/src/user-service.ts while others write.
use aoothjs.Base.{
  ℕ, ◌≡◌, refl, ap, ◌∙◌, String, some, [], ◌∷◌, ◌++◌, text_eq, nat_eq, string_eq, ==_refl, All,
}
use aoothjs.Base.Assoc.{get}
use aoothjs.Base.Assoc.Entries.{get-put_here}
use aoothjs.User.Types.{TrustedDeviceRecord, UserCredentials, ok}
use aoothjs.User.Patch.{deep_merge}
use aoothjs.User.Store.{UserStore, updated, increment_all, default_attempts}
use aoothjs.User.Store.Later.{IsNoBirth}
use aoothjs.User.Store.Cas.{Waits, as_others, run_waits}
use aoothjs.User.Store.Done.{done_patch, with_cas_ok}
use aoothjs.User.Service.Devices.{
  or_no_devices, within_cap, seen_patch, set_seen, add_within_cap, add_seen_device,
}
use aoothjs.User.Service.Devices.Cap.{IsCapped, within_cap-IsCapped}

-- When a seen device has been added, whatever others do to the store meanwhile, so long as they
-- create no row under the id, the ledger is within the cap: it is what is left of the ledger that
-- stood there and the new record, and a record that was evicted has expired or expires no later
-- than any that was kept.
pub add_seen_device-IsCapped :
    (now : ℕ) (waits : Waits) (id : String) (r : TrustedDeviceRecord) (cap : ℕ)
    (s after : UserStore)
    → ((n : ℕ) → All (IsNoBirth id) (waits n))
    → add_seen_device now (as_others waits) id r cap s ≡ (ok tt, after)
    → (m : ℕ) × (u : UserCredentials) × (v : UserCredentials) × (get id (run_waits m waits s).rows
        ≡ some u)
      × (get id after.rows ≡ some v)
      × IsCapped now cap (or_no_devices u.seen_devices ++ r ∷ []) (or_no_devices v.seen_devices)
unfolding add_seen_device add_within_cap updated increment_all deep_merge
add_seen_device-IsCapped now waits id r cap s after quiet e =
    let (m, u, found, done) =
      with_cas_ok default_attempts waits id (add_within_cap now cap r) s after quiet e in
    let ledger = or_no_devices u.seen_devices ++ r ∷ [] in
    let before = run_waits m waits s in
    let change = set_seen (within_cap now cap ledger) in
    let v : UserCredentials = updated change u in
    let (_, same) =
      done_patch id (add_within_cap now cap r u) tt tt (seen_patch (within_cap now cap ledger)) u
        before after found (refl, refl) refl done in
    (
      m,
      u,
      v,
      found,
      ap (λ t. get id t.rows) same ∙ get-put_here id id v before.rows (==_refl id),
      within_cap-IsCapped now cap ledger,
    )

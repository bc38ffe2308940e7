-- ===== src/User/Service/Devices.antt =====
-- packages/user/src/user-service.ts: the trusted devices and the ledger of seen devices. The
-- HMAC-SHA256 is the argument `sign`, from the secret and the payload to hex digits.
pub mod Cap
pub mod Seen
use aoothjs.Base.{
  ℕ, zero, suc, ◌+◌, ◌-◌, String, Bool, true, false, not, ◌&&◌, Option, none, some, List, [], ◌∷◌,
  ◌++◌, ltb, leb, nat_beq, length, any, filter, Text, text_eq, ◌==◌, string_eq, units,
  if◌then◌else◌,
}
use aoothjs.Base.Sorting.{sort_by}
use aoothjs.User.Types.{
  TrustedDeviceRecord, UserCredentials, UserStoreUpdate, UserPatch, UserAuthError, not_found,
  Result, ok, err,
}
use aoothjs.User.Patch.{no_patch}
use aoothjs.User.Store.{
  UserStore, Action, Others, Mutator, find_by_id, update, with_cas, default_attempts,
}
use aoothjs.User.Service.{pure, gets, ◌>>=◌, ◌>>◌, setting, get_user}
use aoothjs.User.Service.Mfa.{find_first}

abbrev pub Devices : Type 0
Devices = List TrustedDeviceRecord

-- `user.trustedDevices ?? []`
abbrev pub or_no_devices : Option Devices → Devices
or_no_devices none = []
or_no_devices (some devices) = devices

abbrev pub trusted_of : Option UserCredentials → Devices
trusted_of none = []
trusted_of (some user) = or_no_devices user.trusted_devices

abbrev pub seen_of : Option UserCredentials → Devices
seen_of none = []
seen_of (some user) = or_no_devices user.seen_devices

abbrev pub separator : ℕ
separator = 46

abbrev pub bar : ℕ
bar = 124

abbrev pub seen_tag : Text
seen_tag = 115 ∷ 101 ∷ 101 ∷ 110 ∷ 124 ∷ []

abbrev pub or_no_text : Option Text → Text
or_no_text none = []
or_no_text (some t) = t

abbrev pub ip_units : Option String → Option Text
ip_units none = none
ip_units (some ip) = some (units ip)

-- `${userId}|${raw}|${ip ?? ""}`
unfoldable pub trusted_device_payload : String → Option String → Text → Text
unfolding units
trusted_device_payload user_id ip raw =
    units user_id ++ (bar ∷ (raw ++ (bar ∷ or_no_text (ip_units ip))))

-- `seen|${userId}|${raw}`
unfoldable pub seen_device_payload : String → Text → Text
unfolding units
seen_device_payload user_id raw = seen_tag ++ (units user_id ++ (bar ∷ raw))

-- the parts of a token at its last separator: `slice(0, i)` and `slice(i + 1)`
unfoldable pub split_last : Text → Option (Text × Text)
split_last [] = none
split_last (c ∷ cs) = elim (split_last cs) [
  | some parts ↦ some (c ∷ parts.0, parts.1)
  | none ↦ if nat_beq c separator then some ([], cs) else none
]

-- no separator, or only one in front, is no token
unfoldable pub parse_device_trust_token : Text → Option (Text × Text)
unfolding split_last
parse_device_trust_token token = elim (split_last token) [
  | none ↦ none
  | some parts ↦ elim parts.0 [ [] ↦ none | c ∷ cs ↦ some parts ]
]

module _ (sign : Text → Text → Text) where
  -- a record for the random digits `raw`, which is not stored yet
  unfoldable pub mint_device_record :
      ℕ → Text → Text → (Text → Text) → ℕ → Option String → Option String → TrustedDeviceRecord
  mint_device_record now secret raw payload_for ttl ip name = record {
    token = raw ++ (separator ∷ sign secret (payload_for raw));
    ip = ip;
    issued_at = now;
    expires_at = now + ttl;
    name = name;
  }

  unfoldable pub check_device_token_sig : Text → Text → (Text → Text) → Bool
  unfolding parse_device_trust_token
  check_device_token_sig secret token payload_for = elim (parse_device_trust_token token) [
    | none ↦ false
    | some parts ↦ parts.1 == sign secret (payload_for parts.0)
  ]

  unfoldable pub issue_trusted_device :
      ℕ → Text → Text → String → Option String → ℕ → Option String → TrustedDeviceRecord
  unfolding mint_device_record trusted_device_payload
  issue_trusted_device now secret raw user_id ip ttl name =
      mint_device_record now secret raw (trusted_device_payload user_id ip) ttl ip name

  unfoldable pub issue_seen_device :
      ℕ → Text → Text → String → ℕ → Option String → TrustedDeviceRecord
  unfolding mint_device_record seen_device_payload
  issue_seen_device now secret raw user_id ttl name =
      mint_device_record now secret raw (seen_device_payload user_id) ttl none name

  -- a record that is bound to an address needs that address
  abbrev pub is_bound_to : Option String → Option String → Bool
  is_bound_to none ip = true
  is_bound_to (some bound) none = false
  is_bound_to (some bound) (some ip) = bound == ip

  abbrev pub is_live_token : ℕ → Text → TrustedDeviceRecord → Bool
  is_live_token now token r = (r.token == token) && ltb now r.expires_at

  abbrev pub found_ip : Option String → Option TrustedDeviceRecord → Bool
  found_ip ip none = false
  found_ip ip (some r) = is_bound_to r.ip ip

  unfoldable pub verify_trusted_device : ℕ → Text → String → Text → Option String → UserStore → Bool
  unfolding check_device_token_sig trusted_device_payload find_by_id
  verify_trusted_device now secret user_id token ip s =
      check_device_token_sig secret token (trusted_device_payload user_id ip)
      && found_ip ip (find_first (is_live_token now token) (trusted_of (find_by_id user_id s)))

unfoldable pub add_trusted_device : Others → String → TrustedDeviceRecord → Action Unit
unfolding with_cas
add_trusted_device others id r = with_cas default_attempts others id λ user. ok (
  tt,
  some (
      setting (record no_patch {
        trusted_devices = some (or_no_devices user.trusted_devices ++ r ∷ []);
      })),
)

-- no write when the user or the record is absent
unfoldable pub revoke_trusted_device : String → Text → Action Unit
unfolding find_by_id update
revoke_trusted_device id token s =
    let list = trusted_of (find_by_id id s) in
    let next = filter (λ r. not (r.token == token)) list in
    if nat_beq (length next) (length list)
    then (ok tt, s)
    else (do update id (setting (record no_patch { trusted_devices = some next })); pure tt) s

unfoldable pub list_trusted_devices : String → Action Devices
unfolding get_user
list_trusted_devices id = do user ← get_user id; pure (or_no_devices user.trusted_devices)

abbrev pub seen_devices_default_cap : ℕ
seen_devices_default_cap = 5

-- `next.sort((a, b) => a.expiresAt - b.expiresAt)`
unfoldable pub sort_devices : Devices → Devices
unfolding sort_by
sort_devices devices = sort_by (λ r. r.expires_at) devices

-- `list.slice(n)`
abbrev pub skip : {A : Type 0} → ℕ → List A → List A
skip zero xs = xs
skip (suc n) [] = []
skip (suc n) (x ∷ xs) = skip n xs

-- beyond the cap, what has expired goes first, and then what expires next
unfoldable pub within_cap : ℕ → ℕ → Devices → Devices
unfolding sort_devices
within_cap now cap devices =
    if not (ltb cap (length devices))
    then devices
    else let live = filter (λ r. ltb now r.expires_at) devices in
      if not (ltb cap (length live)) then live else skip (length live - cap) (sort_devices live)

abbrev pub seen_patch : Devices → UserPatch
seen_patch devices = record no_patch { seen_devices = some devices }

abbrev pub set_seen : Devices → UserStoreUpdate
set_seen devices = setting (seen_patch devices)

unfoldable pub add_within_cap : ℕ → ℕ → TrustedDeviceRecord → Mutator Unit
unfolding within_cap
add_within_cap now cap r user =
    ok (tt, some (set_seen (within_cap now cap (or_no_devices user.seen_devices ++ r ∷ []))))

unfoldable pub add_seen_device : ℕ → Others → String → TrustedDeviceRecord → ℕ → Action Unit
unfolding with_cas add_within_cap
add_seen_device now others id r cap = with_cas default_attempts others id (add_within_cap now cap r)

-- the list with the first live record of the token to expire at `ends`, if there is one
unfoldable pub slide : ℕ → ℕ → Text → Devices → Option Devices
slide now ends token [] = none
slide now ends token (r ∷ rest) =
    let later = slide now ends token rest in
    if (r.token == token) && ltb now r.expires_at
    then some (record r { expires_at = ends } ∷ rest)
    else elim later [ none ↦ none | some next ↦ some (r ∷ next) ]

unfoldable pub slide_seen : ℕ → ℕ → Text → Mutator Bool
unfolding slide
slide_seen now ttl token current =
    elim (slide now (now + ttl) token (or_no_devices current.seen_devices)) [
      | none ↦ ok (false, none)
      | some next ↦ ok (true, some (set_seen next))
    ]

-- an unknown user is not recognized
abbrev pub not_found_is_false : Result Bool × UserStore → Result Bool × UserStore
not_found_is_false (ok matched, s) = (ok matched, s)
not_found_is_false (err not_found, s) = (ok false, s)
not_found_is_false (err e, s) = (err e, s)

module _ (sign : Text → Text → Text) where
  unfoldable pub verify_seen_device : ℕ → Others → Text → String → Text → Option ℕ → Action Bool
  unfolding check_device_token_sig seen_device_payload find_by_id with_cas slide_seen
  verify_seen_device now others secret user_id token ttl s =
      if not (check_device_token_sig sign secret token (seen_device_payload user_id))
      then (ok false, s)
      else elim ttl [
        | none ↦ (
          ok (
              any (λ r. (r.token == token) && ltb now r.expires_at)
                (seen_of (find_by_id user_id s))),
          s,
        )
        | some ms ↦
            not_found_is_false
              (with_cas default_attempts others user_id (slide_seen now ms token) s)
      ]

unfoldable pub list_seen_devices : String → Action Devices
unfolding get_user
list_seen_devices id = do user ← get_user id; pure (or_no_devices user.seen_devices)

unfoldable pub revoke_seen_devices : String → Action Unit
unfolding update
revoke_seen_devices id = do update id (set_seen []); pure tt

-- ===== src/Auth/Tests.antt =====
-- Runs of the denylist and of the authorization server's stores, and the theorems at those runs.
use aoothjs.Base.{
  Option, ℕ, ◌+◌, ◌≡◌, refl, String, false, none, some, [], ◌∷◌, arith, leb, ltb, length, ◌==◌,
  string_eq, if◌then◌else◌,
}
use aoothjs.Base.Assoc.{get}
use aoothjs.Base.Assoc.Laws.{Distinct}
use aoothjs.Auth.Denylist.{Denylist, add, has, cleanup, denied_at, denylist_calls}
use aoothjs.Auth.Codes.{NewAuthCode, AuthCodeStore, code_store, mint, consume, consume-mint}
use aoothjs.Auth.Pending.{
  NewPendingAuthorization, PendingAuthorization, PendingStore, pending_store,
}
use aoothjs.Auth.Composite.{
  ResolveArgs, ClientRedirectPolicy, CompositeClientPolicy, composite, pick_for_client_id,
  resolve_by, Owns, IsDispatch, composite-IsDispatch,
}
use aoothjs.Auth.Clients.{NewDynamicClient, DynamicClient, ClientStore, no_auth}

abbrev jti_x : String
jti_x = "x"

abbrev code_j : String
code_j = "j"

abbrev listed : Denylist
listed = record { entries = ("x", 50) ∷ ("y", 9) ∷ []; sweep_at = 1024 }

denylist_calls_example :
    ((denied_at 20 "x" (add 10 "z" 70 listed)
        ≡ (if "z" == jti_x then ltb 20 70 else denied_at 20 "x" listed))
      × Distinct (add 10 "z" 70 listed).entries)
    × (((has 10 "z" listed).0 ≡ denied_at 10 "z" listed)
        × (denied_at 20 "x" (has 10 "z" listed).1 ≡ denied_at 20 "x" listed)
        × Distinct (has 10 "z" listed).1.entries)
    × ((denied_at 20 "x" (cleanup 10 listed).1 ≡ denied_at 20 "x" listed)
        × ((cleanup 10 listed).0 + length (cleanup 10 listed).1.entries ≡ length listed.entries)
        × Distinct (cleanup 10 listed).1.entries)
unfolding get
denylist_calls_example = denylist_calls 10 20 "z" "x" 70 listed (refl, (refl, tt)) (omega arith)

abbrev code_request : NewAuthCode ℕ
code_request = record {
  user_id = "ann";
  code_challenge = "c";
  redirect_uri = "http://localhost/";
  client_id = none;
  scope = none;
  resource = none;
  nonce = none;
  id_token = none;
  access_token = none;
  audience = none;
  token_policy = 0;
}

abbrev codes : AuthCodeStore ℕ
codes = code_store none

consume-mint_example :
    ((consume 100 "k" (mint 10 "k" code_request codes).1).0 ≡ (
      if leb (10 + 60000) 100
      then none
      else some (record { code = "k"; given = code_request; expires_at = 10 + 60000 })))
    × ((consume 200 "k" (consume 100 "k" (mint 10 "k" code_request codes).1).1).0 ≡ none)
    × (("k" == code_j) ≡ false
        → get "j" (consume 100 "k" (mint 10 "k" code_request codes).1).1.codes
          ≡ get "j" codes.codes)
consume-mint_example = consume-mint 10 100 200 "k" "j" code_request codes

abbrev authorize_request : NewPendingAuthorization ℕ
authorize_request = record {
  client_id = none;
  client_name = none;
  redirect_uri = "http://localhost/";
  code_challenge = "c";
  client_state = none;
  resource = none;
  scope = none;
  nonce = none;
  id_token = none;
  access_token = none;
  audience = none;
  token_policy = 0;
  binding = "b";
}

abbrev pending : PendingStore ℕ
pending = pending_store none

abbrev pending_row : PendingAuthorization ℕ
pending_row = record {
  handle = "h";
  given = authorize_request;
  created_at = 10;
  expires_at = 10 + 900000;
}

abbrev client_request : NewDynamicClient
client_request = record {
  client_name = none;
  redirect_uris = [];
  token_endpoint_auth_method = no_auth;
  client_secret_hash = none;
  grant_types = [];
  response_types = [];
  scope = none;
}

abbrev client : DynamicClient
client = record { client_id = "c"; given = client_request; created_at = 10; last_used_at = none }

abbrev clients : ClientStore
clients = ("c", client) ∷ []

-- a policy that resolves to its own number, and knows one client
abbrev policy : ℕ → ClientRedirectPolicy ℕ
policy n = record {
  resolve_client = λ _. some n;
  authenticate_client = none;
  has_client = some (λ client_id. client_id == "own");
}

abbrev tiers : CompositeClientPolicy ℕ
tiers = record { loopback = policy 0; registered = some (policy 1); dynamic = some (policy 2) }

abbrev ask : Option String → ResolveArgs
ask client_id = record { client_id = client_id; redirect_uri = "https://x"; scope = none }

composite_tests :
    (resolve_by tiers (ask none) ≡ some 0)
    × (resolve_by tiers (ask (some "own")) ≡ some 1)
    × (resolve_by tiers (ask (some "new")) ≡ some 2)
unfolding resolve_by pick_for_client_id
composite_tests = (refl, refl, refl)

composite-IsDispatch_example :
    (owner : ClientRedirectPolicy ℕ) × Owns (some (policy 1)) (some (policy 2)) "own" owner
    × IsDispatch (policy 0) (some (policy 1)) tiers "own" owner
unfolding composite
composite-IsDispatch_example =
    composite-IsDispatch (policy 0) (some (policy 1)) (some (policy 2)) tiers "own" refl

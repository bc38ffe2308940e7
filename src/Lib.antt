-- ===== src/Lib.antt =====
-- A model of aoothjs, a library for authentication and authorization, and what is proved of it.
--
-- Authorization is by roles (packages/arbac-core). A caller registers roles, each a list of rules
-- with patterns for a resource and an action; the engine compiles them for each resource when
-- either is registered, memoizes the matches of an action for each compiled object, and evaluates a
-- request for a user, once or, when the credential is attenuated, twice with the results
-- intersected. Users sign in through a service over a store of rows (packages/user), which counts
-- failures, locks accounts and writes under optimistic concurrency. Requests are limited
-- (packages/auth/src/rate-limit): rules are parsed from texts, a limiter counts a request against
-- every rule in a store, and the rule that governs gives the decision and its message.
--
-- Base: what the modules share: tests on numbers, lists, texts as UTF-16 code units, sorting by a
-- number (Base/Sorting), and maps with JavaScript's insertion order as association lists (Base/Assoc).
-- Arbac/Pattern: packages/arbac-core/src/utils.ts, `arbacPatternToRegex` and the match of its
-- result; Pattern/Meaning has the language of the parts that it is compiled to, Pattern/Accepts that
-- of the text of a pattern.
-- Arbac/Engine: packages/arbac-core/src/types.ts and arbac.ts, the state of class `Arbac` and its
-- registration (`registerRole`, `registerResource`, `evalRoleForResource`); Engine/Evaluate has
-- `evaluate`, `evaluateForRoles` and `matchAction`. A compiled object has an identity, by which the
-- memo (a WeakMap) knows it; attributes that are fetched are fetched through a cell that counts the
-- calls. Engine/Direct describes the decision by the registered roles alone; Gather, Sound,
-- Placing, Memo, Held, Registration, Passes and Refines relate the two, and Attenuation has what
-- follows for credentials.
-- RateLimit/Store: packages/auth/src/rate-limit/store.ts, class `RateLimitStoreMemory`; the eviction
-- loop has one round for each entry and one for the last test, which Store/Evict shows to be
-- enough. Sweep, Invariant, Room, Counts and Methods have its lemmas.
-- RateLimit/Rules: packages/auth/src/rate-limit/rules.ts: Rules/Duration (`parseDurationMs`,
-- `formatDurationMs`), Rules/Parse (`parseRuleString`, `assertValidRule`, `parseRateLimitRule`) and
-- Rules/Render (`renderRateLimitMessage`, `rateLimitParams`); Rules/Numbers has the parts of
-- JavaScript that they use, Rules/Shown, Rules/Messages, Rules/Grammar and Rules/Accepted their
-- lemmas. Numbers are printed with the number itself as fuel, which Rules/Numbers shows to be enough.
-- RateLimit/Limiter: packages/auth/src/rate-limit/rate-limiter.ts, `pickGoverning` and class
-- `RateLimiter`, over any store; Limiter/Counted says what is taken of a store and
-- Limiter/Memory that the one in memory has it. Governing and Decides have the lemmas.
--
-- Auth: the stores in memory of packages/auth/src, each over an association list: Credentials
-- (stores/memory.ts, `CredentialStoreMemory`, whose index by user stands beside its states; Index
-- and Sync keep the two in step, Users and Listed have the operations on a user, Reads the reads
-- and the sequences of calls; `consume_among` is `consume` with what others do at its await),
-- Denylist (stores/denylist-memory.ts), Codes
-- (authz/auth-code-store.ts), Pending (authz/pending-authorization-store.ts) and Clients
-- (authz/dynamic-client-store.ts). Composite is authz/composite-client-policy.ts, over the interface
-- of authz/client-policy.ts. Random tokens and the time are arguments.
-- Auth/AuthCredential: packages/auth/src/credential/auth-credential.ts, class `AuthCredential`,
-- over the store of Auth/Credentials, with its types (credential/types.ts) and the way from a token
-- to its row (`keyOf`, `put`, `find`; lemmas in Finding). Cache is `ValidateCache`. Issuance has
-- `issue`, Validation `validate` (Dead and Raced: a revoked token), Revocation `revoke`,
-- `revokeAllForUser`, `revokeSession`, `revokeOtherSessions` and the concurrency limit (Swept and
-- Alone: the repeated passes, whose bound is the fuel of the loop and whose end throws as in the
-- code), Refreshing and Refresh `refresh` with its rotations, the grace of a rotated token and the
-- answer to its reuse (Reuse), the check after a mint (Live) and what a rotation has left (Written,
-- Stored). Node's cryptography and the random values are the record `Crypto`. Others act at these
-- awaits of the store: in `refresh` while its rows are written (`between`), in `validate` while it
-- reads, and in the repeated passes while each listing is awaited, the last one too, and after the
-- revocations of each pass (`passes`). The revocations of one pass are one step, and so are the
-- other calls.
--
-- User/Types and User/Patch: packages/user/src/types.ts, the row of a user, patches of it and the
-- errors, and of utils.ts the merge of a patch (`deepMerge`) and `incrementAtPath`.
-- User/Store: packages/user/src/store/memory.ts, `UserStoreMemory`. A method gives a result or an
-- error, and the store in either case. `withCas` takes what others do while it waits; its loop
-- recurses on the attempts that are left. Valid and Calls have the invariant of the rows, Handles and
-- Keys what a login handle finds, Later what calls do to the version of a row, Cas and Settles
-- `withCas` among other calls, Plain and Done the updates that touch no handle.
-- User/Service: packages/user/src/user-service.ts, class `UserService`: Accounts (`login` and the
-- lockout; Login as a step of the account alone, Guesses as a sequence), Passwords (Change), Mfa
-- (`verifyMfa`; Once and Replay), Devices (the trusted and the seen ones; Cap and Seen), Invitations
-- (Safe) and Snapshots (`getUserSnapshot` and the epoch of writes; Fresh). The hasher, the check of a
-- code against a secret, the HMAC, the time and random texts are arguments. Within a method, others
-- act only while `withCas` waits, and where Invitations says so.
-- User/Federated: packages/user/src/store/federated-identity-store.ts and
-- federated-identity-store-memory.ts, the links of users to accounts of identity providers; Links
-- and Sorted have its lemmas. User/Totp: packages/user/src/mfa/totp.ts, the codes and their
-- verification, with the bytes of a text in Utf8; Digits, Window and Accept have its lemmas, and
-- base32 and HMAC are arguments. User/Masking: the masks of packages/user/src/utils.ts, and in Hidden
-- what they hide.
--
-- Not modelled: what every JavaScript object inherits when it is used as a map; numbers from 2^53
-- on, and limits and windows that are negative, fractional or infinite; the texts of errors; more
-- than one reading of the clock in a call; the text of a counter's key, and that its encoding
-- throws on a lone surrogate. Of `AuthCredential`, the branches of a store that cannot enumerate,
-- the tests of its constructor, the listings of sessions, the hooks and `deriveStateKey`; the other
-- stores and policies of packages/auth; of packages/user the hasher, the built-in policies and
-- base32; and the other packages (federated login, scopes, the adapters, the bindings to moost, the
-- clients and the demonstration) are not modelled.
pub mod Base
pub mod Arbac
pub mod RateLimit
pub mod Auth
pub mod User

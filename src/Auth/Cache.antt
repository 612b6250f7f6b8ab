-- ===== src/Auth/Cache.antt =====
-- server/src/auth/identity-cache.ts: what the server remembers of signed-in requests. A Map keeps
-- its keys in the order of their insertion, and a key that is set again keeps its place. The value
-- that `load` reads is an argument.
use rewind_app.Common.{
  ℕ, ◌-◌, Bool, not, ◌&&◌, Option, none, some, List, [], ◌∷◌, ◌++◌, ltb, leb, ◌==◌, if◌then◌else◌,
  keep, find, any, length, drop, update,
}

abbrev pub identity_cache_ttl_ms : ℕ
identity_cache_ttl_ms = 300_000

abbrev pub max_entries : ℕ
max_entries = 10_000

pub record Entry {ℓ} (A : Type ℓ) : Type ℓ where
  pub key : ℕ
  pub value : A
  pub cached_at : ℕ

module _ {ℓ} {A : Type ℓ} where
  abbrev pub has_key : ℕ → Entry A → Bool
  has_key k e = e.key == k

  abbrev pub delete_key : ℕ → List (Entry A) → List (Entry A)
  delete_key k es = keep (λ (e : Entry A). not (has_key k e)) es

  abbrev pub is_fresh : ℕ → Entry A → Bool
  is_fresh now e = leb e.cached_at now && ltb (now - e.cached_at) identity_cache_ttl_ms

  -- An entry that is out of date, or from the future, is deleted.
  unfoldable pub fresh : List (Entry A) → ℕ → ℕ → List (Entry A) × Option A
  fresh es k now = elim (find (has_key k) es) [
    | none ↦ (es, none)
    | some e ↦ if is_fresh now e then (es, some e.value) else (delete_key k es, none)
  ]

  unfoldable pub set_key : ℕ → A → ℕ → List (Entry A) → List (Entry A)
  set_key k value now es =
      if any (has_key k) es
      then update (has_key k) (λ (e : Entry A). record { key = k; value = value; cached_at = now })
          es
      else es ++ record { key = k; value = value; cached_at = now } ∷ []

  unfoldable pub remember : List (Entry A) → ℕ → A → ℕ → List (Entry A)
  unfolding set_key
  remember es k value now =
      set_key k value now (if leb max_entries (length es) then drop 1 es else es)

pub record CachedSession : Type 0 where
  pub account_id : ℕ
  pub absolute_expires_at : ℕ
  pub persisted_idle_expires_at : ℕ

-- A key of the memberships is an account and a group: `memberships` pairs the account with it.
pub record Membership : Type 0 where
  pub account_id : ℕ
  pub profile_id : Option ℕ

pub record IdentityCache : Type 0 where
  pub sessions : List (Entry CachedSession)
  pub selections : List (Entry (Option ℕ))
  pub memberships : List (Entry Membership)

unfoldable pub forget_session : ℕ → IdentityCache → IdentityCache
forget_session token_hash c = record c { sessions = delete_key token_hash c.sessions }

-- The selected group of an account, from the cache or as it is loaded.
unfoldable pub selected_group_id : IdentityCache → ℕ → ℕ → Option ℕ → IdentityCache × Option ℕ
unfolding fresh remember
selected_group_id c account_id now loaded =
    let (kept, hit) = fresh c.selections account_id now in
    elim hit [
      | some group_id ↦ (record c { selections = kept }, group_id)
      | none ↦ (record c { selections = remember kept account_id loaded now }, loaded)
    ]

-- `key` is the text of the account and the group.
unfoldable pub membership_profile_id :
    IdentityCache → ℕ → ℕ → ℕ → Option ℕ → IdentityCache × Option ℕ
unfolding fresh remember
membership_profile_id c key account_id now loaded =
    let (kept, hit) = fresh c.memberships key now in
    elim hit [
      | some m ↦ (record c { memberships = kept }, m.profile_id)
      | none ↦ (
        record c {
          memberships =
              remember kept key (record { account_id = account_id; profile_id = loaded }) now;
        },
        loaded,
      )
    ]

unfoldable pub forget_account : ℕ → IdentityCache → IdentityCache
forget_account account_id c = record {
  sessions = keep (λ (e : Entry CachedSession). not (e.value.account_id == account_id)) c.sessions;
  selections = delete_key account_id c.selections;
  memberships =
      keep (λ (e : Entry Membership). not (e.value.account_id == account_id)) c.memberships;
}

unfoldable pub forget_all_identities : IdentityCache
forget_all_identities = record { sessions = []; selections = []; memberships = [] }

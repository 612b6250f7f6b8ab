-- ===== src/Archive/Capabilities/Kept.antt =====
-- server/src/archive/capabilities.ts: how long a capability is kept among other calls.
use rewind_app.Common.{
  ℕ, ◌+◌, ◌≤◌, ◌<◌, ◌≡◌, refl, sym, ap, ◌∙◌, subst, inl, inr, Bool, true, false, not, ◌&&◌, Option,
  none, some, List, [], ◌∷◌, ltb, ◌==◌, ==_refl, ==_iff, zero, suc, if_intro, keep, find,
  find_sound, find-append, find-keep, any, any-find, all, count, length, update, DateValue,
  Option-cases, Bool-cases, arith,
}
use rewind_app.Archive.Capabilities.{
  MediaCapability, Grant, Access, has_key, is_current, evict, set_grant, granted, issue,
  has_session, has_output, presents, resolve, media_capability_ttl_ms, media_capability_max_count,
}
use rewind_app.Archive.Capabilities.Evicted.{length-update, length-snoc}
use rewind_app.Archive.Capabilities.Resolved.{resolve-Resolves}

find-set : (g : Grant) (gs : List Grant) → find (has_key g.key) (set_grant g gs) ≡ some g
unfolding set_grant
find-set g gs = elim (Bool-cases (any (has_key g.key) gs)) [
  | inl t ↦ ground (arith, t, found_in gs t)
  | inr f ↦ ground (
    arith,
    f,
    any-find (has_key g.key) gs,
    find-append (has_key g.key) gs (g ∷ []),
    ==_refl g.key,
  )
]
  where
    found_in :
        (xs : List Grant)
        → any (has_key g.key) xs ≡ true
        → find (has_key g.key) (update (has_key g.key) (λ (x : Grant). g) xs) ≡ some g
    found_in [] t = absurd (cc t)
    found_in (x ∷ xs) t = ground (arith, t, found_in xs, ==_refl g.key)

-- Another key's entry is not touched.
find-set_other :
    (key : ℕ) (g : Grant) (gs : List Grant)
    → (g.key == key) ≡ false
    → find (has_key key) (set_grant g gs) ≡ find (has_key key) gs
unfolding set_grant
find-set_other key g gs ne =
    if_intro (λ t. find (has_key key) t ≡ find (has_key key) gs) (any (has_key g.key) gs)
      (λ _. replaced gs) (λ _. ground (arith, ne, find-append (has_key key) gs (g ∷ [])))
  where
    replaced :
        (xs : List Grant)
        → find (has_key key) (update (has_key g.key) (λ (x : Grant). g) xs) ≡ find (has_key key) xs
    replaced [] = refl
    replaced (x ∷ xs) = ground (arith, ne, replaced xs, ==_iff x.key g.key)

length-keep {ℓ} : {A : Type ℓ} (p : A → Bool) (xs : List A) → length (keep p xs) ≤ length xs
length-keep p [] = omega arith
length-keep p (x ∷ xs) = ground (arith, length-keep p xs)

length-set : (g : Grant) (gs : List Grant) → length (set_grant g gs) ≤ suc (length gs)
unfolding set_grant
length-set g gs =
    ground (arith, length-update (has_key g.key) (λ (x : Grant). g) gs, length-snoc gs g)

-- With room left, nothing is evicted.
evict_few :
    (fuel : ℕ) (gs : List Grant) → length gs < media_capability_max_count → evict fuel gs ≡ gs
unfolding evict
evict_few zero gs h = refl
evict_few (suc fuel) gs h = ground (arith, h)

-- A call to resolve a token or to issue a capability, with the tables that it reads.
pub data Call : Type 0 where
  resolves : (access : Access) (key : Option ℕ) (now : DateValue) (presented : Option ℕ) → Call
  issues : (asset : MediaCapability) (session_hash key now : ℕ) → Call

unfoldable pub after_call : Call → List Grant → List Grant
after_call (resolves access key now presented) gs = (resolve access key now presented gs).0
after_call (issues asset session_hash key now) gs = issue asset session_hash key now gs

unfoldable pub after_calls : List Call → List Grant → List Grant
unfolding after_call
after_calls [] gs = gs
after_calls (k ∷ ks) gs = after_calls ks (after_call k gs)

abbrev pub is_issue : Call → Bool
is_issue (resolves access key now presented) = false
is_issue (issues asset session_hash key now) = true

-- A call before an instant that does not issue under the key.
abbrev pub is_before : ℕ → ℕ → Call → Bool
is_before end key (resolves access asked none presented) = true
is_before end key (resolves access asked (some now) presented) = ltb now end
is_before end key (issues asset session_hash issued now) = ltb now end && not (issued == key)

-- The entry of a key is there, and there is room for a number of further capabilities.
pub record Keeps (key : ℕ) (g : Grant) (room : ℕ) (gs : List Grant) : Type 0 where
  pub found : find (has_key key) gs ≡ some g
  pub roomy : length gs + room ≤ media_capability_max_count

issue-Keeps :
    (asset : MediaCapability) (session_hash issued now key room : ℕ) (g : Grant) (gs : List Grant)
    → now < g.grant.expires_at
    → (issued == key) ≡ false
    → Keeps key g (suc room) gs
    → Keeps key g room (issue asset session_hash issued now gs)
unfolding issue
issue-Keeps asset session_hash issued now key room g gs early ne k =
    let current = keep (is_current now) gs in
    let g' : Grant = record { key = issued; grant = granted asset session_hash now } in
    let fewer = length-keep (is_current now) gs in
    let same_kept : evict (length current) current ≡ current =
      evict_few (length current) current (omega (arith, fewer, k.roomy)) in
    let kept : find (has_key key) current ≡ some g =
      find-keep (has_key key) (is_current now) gs k.found (ground (arith, early)) in
    record {
      found =
          ap (λ t. find (has_key key) (set_grant g' t)) same_kept
          ∙ find-set_other key g' current ne
          ∙ kept;
      roomy =
          subst (λ t. length (set_grant g' t) + room ≤ media_capability_max_count) (sym same_kept)
            (omega (arith, length-set g' current, fewer, k.roomy));
    }

-- A new capability is kept under its token.
issued-Keeps :
    (asset : MediaCapability) (session_hash key now room : ℕ) (gs : List Grant)
    → length gs + room < media_capability_max_count
    → Keeps key
        (record { key = key; grant = granted asset session_hash now })
        room
        (issue asset session_hash key now gs)
unfolding issue
issued-Keeps asset session_hash key now room gs few =
    let current = keep (is_current now) gs in
    let g : Grant = record { key = key; grant = granted asset session_hash now } in
    let fewer = length-keep (is_current now) gs in
    let same_kept : evict (length current) current ≡ current =
      evict_few (length current) current (omega (arith, fewer, few)) in
    record {
      found = find-set g (evict (length current) current);
      roomy =
          subst (λ t. length (set_grant g t) + room ≤ media_capability_max_count) (sym same_kept)
            (omega (arith, length-set g current, fewer, few));
    }

-- Dropping another token keeps the entry.
dropped-Keeps :
    (asked key room : ℕ) (g : Grant) (gs : List Grant)
    → (asked == key) ≡ false
    → Keeps key g room gs
    → Keeps key g room (keep (λ (x : Grant). not (has_key asked x)) gs)
dropped-Keeps asked key room g gs f k =
    let own : g.key ≡ key = (==_iff g.key key).0 (find_sound (has_key key) gs k.found) in
    let other_key : not (has_key asked g) ≡ true =
      ground (arith, f, own, ==_iff asked key, ==_iff g.key asked) in
    record {
      found = find-keep (has_key key) (λ (x : Grant). not (has_key asked x)) gs k.found other_key;
      roomy = omega (arith, length-keep (λ (x : Grant). not (has_key asked x)) gs, k.roomy);
    }

resolve-Keeps :
    (a : Access) (asked : Option ℕ) (date : DateValue) (presented : Option ℕ) (key room : ℕ)
    (g : Grant) (gs : List Grant)
    → is_before g.grant.expires_at key (resolves a asked date presented) ≡ true
    → Keeps key g room gs
    → Keeps key g room (resolve a asked date presented gs).0
unfolding resolve
resolve-Keeps a none date presented key room g gs early k = k
resolve-Keeps a (some asked) none presented key room g gs early k = k
resolve-Keeps a (some asked) (some now) presented key room g gs early k =
    elim (Bool-cases (asked == key)) [
      | inl t ↦
          let own : asked ≡ key = (==_iff asked key).0 t in
          let found : find (has_key asked) gs ≡ some g = rw own k.found in
          let current : is_current now g ≡ true = ground (arith, early) in
          ground (arith, found, current, k)
      | inr f ↦
          let dropped = dropped-Keeps asked key room g gs f k in
          elim (Option-cases (find (has_key asked) gs)) [
            | inl n ↦ ground (arith, n, dropped)
            | inr (g', e) ↦ ground (arith, e, dropped, k)
          ]
    ]

after_calls-Keeps :
    (calls : List Call) (key : ℕ) (g : Grant) (gs : List Grant)
    → all (is_before g.grant.expires_at key) calls ≡ true
    → Keeps key g (count is_issue calls) gs
    → Keeps key g 0 (after_calls calls gs)
unfolding after_calls after_call
after_calls-Keeps [] key g gs early k = k
after_calls-Keeps (resolves a asked date presented ∷ calls) key g gs early k =
    after_calls-Keeps calls key g _ (ground (arith, early)) (
      resolve-Keeps a asked date presented key (count is_issue calls) g gs (ground (arith, early))
        k)
after_calls-Keeps (issues asset session_hash issued now ∷ calls) key g gs early k =
    after_calls-Keeps calls key g _ (ground (arith, early)) (
      issue-Keeps asset session_hash issued now key (count is_issue calls) g gs
        (ground (arith, early)) (ground (arith, early)) k)

-- A capability that has been issued resolves until its two minutes are over, with or without its
-- session being presented, as long as its session and its output are good then, and the resolution
-- leaves the grants as they are: whatever tokens were resolved in between, and whatever capabilities
-- were issued under other tokens, if those that there were and those that were issued are fewer than
-- 4096, so that none is evicted.
pub resolve-issue :
    (a : Access) (asset : MediaCapability) (session_hash key now later : ℕ) (gs : List Grant)
    (calls : List Call)
    → length gs + count is_issue calls < media_capability_max_count
    → all (is_before (now + media_capability_ttl_ms) key) calls ≡ true
    → later < now + media_capability_ttl_ms
    → has_session a (granted asset session_hash now) later ≡ true
    → has_output a.tables (granted asset session_hash now) ≡ true
    → let kept = after_calls calls (issue asset session_hash key now gs) in
      (resolve a (some key) (some later) none kept ≡ (kept, some (granted asset session_hash now)))
      × (resolve a (some key) (some later) (some session_hash) kept
          ≡ (kept, some (granted asset session_hash now)))
resolve-issue a asset session_hash key now later gs calls room before early session output =
    let c = granted asset session_hash now in
    let g : Grant = record { key = key; grant = c } in
    let kept = after_calls calls (issue asset session_hash key now gs) in
    let k : Keeps key g 0 kept =
      after_calls-Keeps calls key g (issue asset session_hash key now gs) before
        (issued-Keeps asset session_hash key now (count is_issue calls) gs room) in
    let by_session = λ (p : Option ℕ) (h : presents p c ≡ true).
      (resolve-Resolves a key later p kept c).1 (record {
        grant = g;
        found = k.found;
        own = refl;
        unexpired = early;
        presented_own = h;
        session = session;
        output = output;
      }) in
    (by_session none refl, by_session (some session_hash) (==_refl session_hash))

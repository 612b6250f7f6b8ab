-- ===== src/Archive/Capabilities/Resolved.antt =====
-- server/src/archive/capabilities.ts: what a capability that resolves stands for.
use rewind_app.Common.{
  ℕ, ◌<◌, ◌≡◌, sym, subst, inl, inr, true, ◌&&◌, Option, some, List, find, Option-cases, Bool-cases,
  arith,
}
use rewind_app.Archive.Capabilities.{
  MediaCapability, Grant, Access, has_key, is_current, has_session, has_output, presents, resolve,
}

-- What holds of a capability that a token resolves to.
pub record Resolves (a : Access) (key now : ℕ) (presented : Option ℕ) (gs : List Grant)
    (c : MediaCapability) : Type 0 where
  pub grant : Grant
  pub found : find (has_key key) gs ≡ some grant
  pub own : grant.grant ≡ c
  pub unexpired : now < c.expires_at
  pub presented_own : presents presented c ≡ true
  pub session : has_session a c now ≡ true
  pub output : has_output a.tables c ≡ true

-- A token resolves to a capability exactly if that is kept under the token, has not expired, was
-- not presented with another session, its session is live with its account a member of the selected
-- group, and its output is still the verified one of a released cycle; a token that resolves changes
-- nothing.
pub resolve-Resolves :
    (a : Access) (key now : ℕ) (presented : Option ℕ) (gs : List Grant) (c : MediaCapability)
    → ((resolve a (some key) (some now) presented gs ≡ (gs, some c))
        → Resolves a key now presented gs c)
      × (Resolves a key now presented gs c
          → resolve a (some key) (some now) presented gs ≡ (gs, some c))
unfolding resolve
resolve-Resolves a key now presented gs c = (forth, back)
  where
    forth :
        resolve a (some key) (some now) presented gs ≡ (gs, some c)
        → Resolves a key now presented gs c
    forth e = elim (Option-cases (find (has_key key) gs)) [
      | inl n ↦ absurd (ground (arith, n, e))
      | inr (g, f) ↦ elim (Bool-cases (is_current now g)) [
        | inr u ↦ absurd (ground (arith, f, u, e))
        | inl u ↦
            let allowed : (presents presented g.grant
                  && has_session a g.grant now
                  && has_output a.tables g.grant)
                ≡ true =
              ground (arith, f, u, e) in
            let own : g.grant ≡ c = ground (arith, f, u, e, allowed) in
            record {
              grant = g;
              found = f;
              own = own;
              unexpired =
                  subst (λ (d : MediaCapability). now < d.expires_at) own (ground (arith, u));
              presented_own =
                  subst (λ (d : MediaCapability). presents presented d ≡ true) own
                    (ground (arith, allowed));
              session =
                  subst (λ (d : MediaCapability). has_session a d now ≡ true) own
                    (ground (arith, allowed));
              output =
                  subst (λ (d : MediaCapability). has_output a.tables d ≡ true) own
                    (ground (arith, allowed));
            }
      ]
    ]

    back :
        Resolves a key now presented gs c
        → resolve a (some key) (some now) presented gs ≡ (gs, some c)
    back r =
        let unexpired : now < r.grant.grant.expires_at =
          subst (λ (d : MediaCapability). now < d.expires_at) (sym r.own) r.unexpired in
        let current : is_current now r.grant ≡ true = ground (arith, unexpired) in
        let allowed : (presents presented r.grant.grant
              && has_session a r.grant.grant now
              && has_output a.tables r.grant.grant)
            ≡ true =
          subst
            (λ (d : MediaCapability).
              (presents presented d && has_session a d now && has_output a.tables d) ≡ true)
            (sym r.own) (ground (arith, r.presented_own, r.session, r.output)) in
        ground (arith, r.found, current, allowed, r.own)

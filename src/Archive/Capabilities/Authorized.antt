-- ===== src/Archive/Capabilities/Authorized.antt =====
-- server/src/archive/capabilities.ts: the rows that stand behind a capability that resolves.
use rewind_app.Common.{
  ℕ, ◌<◌, ◌≡◌, refl, ap, ◌∙◌, inl, inr, Bool, true, false, ◌&&◌, Option, none, some, List, [], ◌∷◌,
  ==_iff, same, is_some, any, Memᴰ, Bool-cases, arith,
}
use rewind_app.Tables.{
  JobKind, clip, download, ready, film, published, CycleRow, MediaJobRow, is_film, Database,
}
use rewind_app.Auth.Sessions.{SessionRow}
use rewind_app.Archive.Capabilities.{
  MediaCapability, Grant, Access, MembershipRow, is_open_session, is_member, is_released, same_kind,
  is_output, is_servable, has_session, has_output, presents, resolve,
}
use rewind_app.Archive.Capabilities.Resolved.{resolve-Resolves}

any-exists {ℓ} :
    {A : Type ℓ} (p : A → Bool) (xs : List A) → any p xs ≡ true → (x : A) × Memᴰ x xs × (p x ≡ true)
any-exists p [] t = absurd (cc t)
any-exists p (x ∷ xs) t = elim (Bool-cases (p x)) [
  | inl u ↦ (x, Memᴰ.head refl, u)
  | inr u ↦
      let found = any-exists p xs (ground (arith, t, u)) in (found.0, Memᴰ.tail found.1, found.2)
]

-- A live session of the account, and its membership of the group that it has selected.
pub record LiveSession (a : Access) (now : ℕ) (c : MediaCapability) : Type 0 where
  pub session : SessionRow
  pub is_row : Memᴰ session a.sessions
  pub token : session.token_hash ≡ c.session_hash
  pub account : session.account_id ≡ c.account_id
  pub unrevoked : session.revoked_at ≡ none
  pub not_idle : now < session.idle_expires_at
  pub not_over : now < session.absolute_expires_at
  pub member : MembershipRow
  pub is_member_row : Memᴰ member a.memberships
  pub member_account : member.account_id ≡ c.account_id
  pub member_group : member.group_id ≡ c.group_id
  pub member_profile : member.profile_id ≡ c.member_id
  pub accepted : member.accepted ≡ true

-- The output as it was verified.
pub record VerifiedOutput (db : Database) (c : MediaCapability) : Type 0 where
  pub job : MediaJobRow
  pub is_row : Memᴰ job db.jobs
  pub id : job.id ≡ c.job_id
  pub group : job.group_id ≡ c.group_id
  pub kind : same_kind job.kind c.kind ≡ true
  pub is_ready : job.status ≡ ready
  pub kept : job.deleted_at ≡ none
  pub path : job.output_path ≡ some c.output_path
  pub digest : job.output_sha256 ≡ some c.sha256
  pub size : job.output_bytes ≡ some c.byte_length
  pub servable : is_servable db c job ≡ true

none_of : (o : Option ℕ) → is_some o ≡ false → o ≡ none
none_of none e = refl
none_of (some x) e = absurd (cc e)

same-some : (o : Option ℕ) (n : ℕ) → same o (some n) ≡ true → o ≡ some n
same-some none n e = absurd (ground (arith, e))
same-some (some m) n e = ap some (ground (arith, e, ==_iff m n))

live_session :
    (a : Access) (now : ℕ) (c : MediaCapability) → has_session a c now ≡ true → LiveSession a now c
unfolding has_session
live_session a now c h =
    let s = any-exists (is_open_session c now) a.sessions (ground (arith, h)) in
    let m = any-exists (is_member c) a.memberships (ground (arith, h)) in
    record {
      session = s.0;
      is_row = s.1;
      token = ground (arith, s.2, ==_iff s.0.token_hash c.session_hash);
      account = ground (arith, s.2, ==_iff s.0.account_id c.account_id);
      unrevoked = none_of s.0.revoked_at (ground (arith, s.2));
      not_idle = ground (arith, s.2);
      not_over = ground (arith, s.2);
      member = m.0;
      is_member_row = m.1;
      member_account = ground (arith, m.2, ==_iff m.0.account_id c.account_id);
      member_group = ground (arith, m.2, ==_iff m.0.group_id c.group_id);
      member_profile = ground (arith, m.2, ==_iff m.0.profile_id c.member_id);
      accepted = ground (arith, m.2);
    }

verified_output :
    (db : Database) (c : MediaCapability) → has_output db c ≡ true → VerifiedOutput db c
unfolding has_output
verified_output db c h =
    let j = any-exists (λ (j : MediaJobRow). is_output c j && is_servable db c j) db.jobs h in
    record {
      job = j.0;
      is_row = j.1;
      id = ground (arith, j.2, ==_iff j.0.id c.job_id);
      group = ground (arith, j.2, ==_iff j.0.group_id c.group_id);
      kind = ground (arith, j.2);
      is_ready = ground (arith, j.2);
      kept = none_of j.0.deleted_at (ground (arith, j.2));
      path = same-some j.0.output_path c.output_path (ground (arith, j.2));
      digest = same-some j.0.output_sha256 c.sha256 (ground (arith, j.2));
      size = same-some j.0.output_bytes c.byte_length (ground (arith, j.2));
      servable = ground (arith, j.2);
    }

-- A film that is served has a published cycle of its group.
released_cycle :
    (db : Database) (c : MediaCapability) (j : MediaJobRow)
    → is_film j.kind ≡ true
    → is_servable db c j ≡ true
    → (cy : CycleRow) × Memᴰ cy db.cycles
      × (j.cycle_id ≡ some cy.id)
      × (cy.group_id ≡ j.group_id)
      × (cy.release_status ≡ published)
unfolding is_servable
released_cycle db c j f h =
    let cy =
      any-exists (λ (c : CycleRow). same j.cycle_id (some c.id) && is_released c.id j.group_id c)
        db.cycles (ground (arith, f, h)) in
    (
      cy.0,
      cy.1,
      same-some j.cycle_id cy.0.id (ground (arith, cy.2)),
      ground (arith, cy.2, ==_iff cy.0.group_id j.group_id),
      ground (arith, cy.2),
    )

film_of : (k : JobKind) → same_kind k film ≡ true → is_film k ≡ true
film_of film e = refl
film_of clip e = absurd (cc e)
film_of download e = absurd (cc e)

-- A token that resolves to the capability of a film: the capability has not expired and is of the
-- session that was presented, if one was; a session of its account is neither revoked nor over, and
-- the account is an accepted member of the group under the profile; the film is ready, not deleted,
-- at the path and with the digest and the size of the capability; and its cycle, of that group, is
-- published.
pub resolve-Authorized :
    (a : Access) (key now : ℕ) (presented : Option ℕ) (gs : List Grant) (c : MediaCapability)
    → c.kind ≡ film
    → resolve a (some key) (some now) presented gs ≡ (gs, some c)
    → (now < c.expires_at)
      × (presents presented c ≡ true)
      × LiveSession a now c
      × ((out : VerifiedOutput a.tables c) × ((cy : CycleRow) × Memᴰ cy a.tables.cycles
            × (out.job.cycle_id ≡ some cy.id)
            × (cy.group_id ≡ c.group_id)
            × (cy.release_status ≡ published)))
unfolding has_output
resolve-Authorized a key now presented gs c is_a_film e =
    let r = (resolve-Resolves a key now presented gs c).0 e in
    let out = verified_output a.tables c r.output in
    let film_kind : is_film out.job.kind ≡ true =
      film_of out.job.kind (ground (arith, out.kind, is_a_film)) in
    let cy = released_cycle a.tables c out.job film_kind out.servable in
    (
      r.unexpired,
      r.presented_own,
      live_session a now c r.session,
      (out, (cy.0, cy.1, cy.2, cy.3 ∙ out.group, cy.4)),
    )

-- ===== src/Auth/Issued.antt =====
-- A token that was issued gives the session that it was issued for.
use foundora_ai.Base.{
  suc, ◌≤◌, ◌<◌, ◌≡◌, refl, sym, ap, subst, ◌∙◌, arith, String, true, false, Option, none, some, [],
  ◌∷◌, ◌++◌, ok, ◌==◌, nat_eq, string_eq, eq_self, ltb, find, put, find-append_none, Datetime,
  text_length, Bool-cases, ok-injective, inl, inr,
}
use foundora_ai.Business.{OwnerSession}
use foundora_ai.Auth.Model.{Owner, Settings, Crypto, AuthStore}
use foundora_ai.Auth.Service.{new_session, issue, IssuedSession}
use foundora_ai.Auth.Sessions.{
  ResolvedSession, is_over, is_stale, refreshed, keep_session, find_session, use_session,
  resolve_session, csrf_is_valid,
}
use foundora_ai.Auth.Sound.{row_of}

-- What a token gives.
pub record Resolves (crypto : Crypto) (settings : Settings) (i : IssuedSession) (s : AuthStore)
    : Type 0 where
  pub given : ResolvedSession
  pub after : AuthStore
  pub run : resolve_session crypto settings (some i.token) s ≡ ok (some given, after)
  pub same_owner : given.owner ≡ i.owner
  pub same_session : given.session.id ≡ i.session.id
  pub csrf : csrf_is_valid crypto given.session (some i.csrf_token) ≡ true

-- The row of a session that was just issued.
record Issued (crypto : Crypto) (settings : Settings) (o : Owner) (s s' : AuthStore)
    (i : IssuedSession) : Type 0 where
  owners : s'.owners ≡ s.owners
  sessions : s'.sessions ≡ s.sessions ++ i.session ∷ []
  owner : i.owner ≡ o
  owner_id : i.session.owner_id ≡ o.id
  token_hash : i.session.token_hash ≡ crypto.digest i.token
  csrf_hash : i.session.csrf_hash ≡ crypto.digest i.csrf_token
  unrevoked : i.session.revoked_at ≡ none
  bounded : i.session.idle_expires_at ≤ i.session.expires_at

Issued-of_issue :
    (crypto : Crypto) (settings : Settings) (o : Owner) (user_agent : Option String)
    (s s' : AuthStore) (i : IssuedSession)
    → issue crypto settings o user_agent s ≡ ok (i, s')
    → Issued crypto settings o s s' i
unfolding issue new_session
Issued-of_issue crypto settings o user_agent s s' i h =
    let (result, state) = ok-injective (issue crypto settings o user_agent s) refl h in
    record {
      owners = ap (λ (w : AuthStore). w.owners) (sym state);
      sessions =
          ap (λ (w : AuthStore). w.sessions) (sym state)
          ∙ ap (λ (y : IssuedSession). s.sessions ++ y.session ∷ []) result;
      owner = ap (λ (y : IssuedSession). y.owner) (sym result);
      owner_id = ap (λ (y : IssuedSession). y.session.owner_id) (sym result);
      token_hash =
          subst (λ (y : IssuedSession). y.session.token_hash ≡ crypto.digest y.token) result refl;
      csrf_hash =
          subst (λ (y : IssuedSession). y.session.csrf_hash ≡ crypto.digest y.csrf_token) result
            refl;
      unrevoked = ap (λ (y : IssuedSession). y.session.revoked_at) (sym result);
      bounded =
          subst (λ (y : IssuedSession). y.session.idle_expires_at ≤ y.session.expires_at) result
            (omega arith);
    }

csrf_holds :
    (crypto : Crypto) (x : OwnerSession) (t : String)
    → x.csrf_hash ≡ crypto.digest t
    → text_length t ≤ 256
    → csrf_is_valid crypto x (some t) ≡ true
unfolding csrf_is_valid
csrf_holds crypto x t same short =
    rw (ap (λ k. k == crypto.digest t) same ∙ eq_self (crypto.digest t)) (ground arith)

Resolves-of_row :
    (crypto : Crypto) (settings : Settings) (i : IssuedSession) (s : AuthStore)
    → row_of crypto i.token s ≡ some i.session
    → find (λ y. y.id == i.session.owner_id) s.owners ≡ some i.owner
    → i.session.csrf_hash ≡ crypto.digest i.csrf_token
    → text_length i.token ≤ 256
    → text_length i.csrf_token ≤ 256
    → is_over i.session (s.clock s.ticks) ≡ false
    → Resolves crypto settings i s
unfolding resolve_session use_session find_session keep_session refreshed
Resolves-of_row crypto settings i s found owned csrf short short_csrf current =
    let fits : ltb 256 (text_length i.token) ≡ false = ground arith in
    elim (Bool-cases (is_stale settings i.session (s.clock s.ticks))) [
      | inl stale ↦ record {
        given = record {
          owner = i.owner;
          session = refreshed settings i.session (s.clock s.ticks);
        };
        after = record s {
          sessions =
              put (λ y. y.id == i.session.id) (refreshed settings i.session (s.clock s.ticks))
                s.sessions;
          ticks = suc s.ticks;
        };
        run = rw (fits, found, owned, current) (rw stale refl);
        same_owner = refl;
        same_session = refl;
        csrf = csrf_holds crypto _ i.csrf_token csrf short_csrf;
      }
      | inr young ↦ record {
        given = record { owner = i.owner; session = i.session };
        after = record s { ticks = suc s.ticks };
        run = rw (fits, found, owned, current) (rw young refl);
        same_owner = refl;
        same_session = refl;
        csrf = csrf_holds crypto i.session i.csrf_token csrf short_csrf;
      }
    ]

not_over :
    (x : OwnerSession) (at : Datetime)
    → x.revoked_at ≡ none
    → x.idle_expires_at ≤ x.expires_at
    → at < x.idle_expires_at
    → is_over x at ≡ false
unfolding is_over
not_over x at open_row bounded early = ground arith

-- A token that was issued to an owner of the table, whose digest no row had before, gives at once the
-- session it was issued for and its owner, and the CSRF token issued with it is valid for that session,
-- provided that both tokens have at most 256 characters and the session has not idled out.
pub issue-Resolves :
    (crypto : Crypto) (settings : Settings) (o : Owner) (user_agent : Option String)
    (s s' : AuthStore) (i : IssuedSession)
    → issue crypto settings o user_agent s ≡ ok (i, s')
    → find (λ y. y.id == o.id) s.owners ≡ some o
    → row_of crypto i.token s ≡ none
    → text_length i.token ≤ 256
    → text_length i.csrf_token ≤ 256
    → s'.clock s'.ticks < i.session.idle_expires_at
    → Resolves crypto settings i s'
issue-Resolves crypto settings o user_agent s s' i h known new short short_csrf early =
    let d = Issued-of_issue crypto settings o user_agent s s' i h in
    let q = λ (y : OwnerSession). y.token_hash == crypto.digest i.token in
    let hit : q i.session ≡ true =
      ap (λ k. k == crypto.digest i.token) d.token_hash ∙ eq_self (crypto.digest i.token) in
    Resolves-of_row crypto settings i s'
      (ap (find q) d.sessions ∙ find-append_none q s.sessions (i.session ∷ []) new ∙ rw hit refl)
      (ap (find (λ (y : Owner). y.id == i.session.owner_id)) d.owners
        ∙ ap (λ k. find (λ (y : Owner). y.id == k) s.owners) d.owner_id
        ∙ known
        ∙ ap some (sym d.owner))
      d.csrf_hash short short_csrf
      (not_over i.session (s'.clock s'.ticks) d.unrevoked d.bounded early)

-- ===== src/Auth/Service.antt =====
-- auth/service.py.
use foundora_ai.Base.{
  ℕ, suc, ◌+◌, ◌*◌, min, String, Bool, ◌&&◌, not, Option, none, some, List, [], ◌∷◌, ◌++◌, Tx,
  Result, ok, err, pure, or_raise, raise_if, ◌>>=◌, ◌>>◌, gets, modify, ◌==◌, nat_eq, string_eq,
  if◌then◌else◌, find, put, Uuid, Datetime, is_empty, text_take,
}
use foundora_ai.Business.{OwnerSession, AuthContext, is_none}
use foundora_ai.Auth.Model.{
  Owner, Settings, Crypto, AuthError, AuthStore, authentication_failed, owner_exists, no_owner,
}
use foundora_ai.Auth.Passwords.{normalize_email, validate_password, hash_password, verify_password}

abbrev pub Auth : Type 0 → Type 0
Auth A = Tx AuthError AuthStore A

-- `_now`
abbrev pub now : Auth Datetime
now s = ok (s.clock s.ticks, record s { ticks = suc s.ticks })

-- `_token`
abbrev pub new_token : Auth String
new_token s = ok (s.tokens s.drawn, record s { drawn = suc s.drawn })

abbrev pub new_uuid : Auth Uuid
new_uuid s = ok (s.next_uuid, record s { next_uuid = suc s.next_uuid })

abbrev pub lift : {A : Type 0} → Result AuthError A → Auth A
lift (ok a) s = ok (a, s)
lift (err e) s = err e

-- `timedelta(minutes=m)` in microseconds.
abbrev pub minutes : ℕ → ℕ
minutes m = m * 60000000

-- `_idle_refresh_interval`
unfoldable pub idle_refresh_interval : Settings → ℕ
idle_refresh_interval settings = min 300 (settings.session_idle_minutes * 30) * 1000000

-- `update(OwnerSession).where(..., revoked_at IS NULL).values(revoked_at=now)`
unfoldable pub revoke_if : (OwnerSession → Bool) → Datetime → OwnerSession → OwnerSession
revoke_if p at x = if p x && is_none x.revoked_at then record x { revoked_at = some at } else x

unfoldable pub revoke_where :
    (OwnerSession → Bool) → Datetime → List OwnerSession → List OwnerSession
revoke_where p at [] = []
revoke_where p at (x ∷ xs) = revoke_if p at x ∷ revoke_where p at xs

abbrev pub revoke_sessions : (OwnerSession → Bool) → Datetime → Auth (Unit {0})
revoke_sessions p at = modify (λ s. record s { sessions = revoke_where p at s.sessions })

pub record IssuedSession : Type 0 where
  pub owner : Owner
  pub session : OwnerSession
  pub token : String
  pub csrf_token : String

-- `(user_agent or "")[:512] or None`
unfoldable pub kept_agent : Option String → Option String
kept_agent none = none
kept_agent (some agent) = let cut = text_take 512 agent in if is_empty cut then none else some cut

unfoldable pub new_session :
    Crypto → Settings → Uuid → Option String → Datetime → String → String → Uuid → OwnerSession
new_session crypto settings owner_id user_agent at token csrf_token id = record {
  id = id;
  owner_id = owner_id;
  token_hash = crypto.digest token;
  csrf_hash = crypto.digest csrf_token;
  created_at = at;
  last_seen_at = at;
  idle_expires_at =
      min (at + minutes settings.session_absolute_minutes)
        (at + minutes settings.session_idle_minutes);
  expires_at = at + minutes settings.session_absolute_minutes;
  revoked_at = none;
  user_agent = kept_agent user_agent;
  selected_business_id = none;
}

abbrev pub insert_session : OwnerSession → Auth (Unit {0})
insert_session x = modify (λ s. record s { sessions = s.sessions ++ x ∷ [] })

-- `_issue`
unfoldable pub issue : Crypto → Settings → Owner → Option String → Auth IssuedSession
issue crypto settings owner user_agent = do
  at ← now
  token ← new_token
  csrf_token ← new_token
  id ← new_uuid
  insert_session (new_session crypto settings owner.id user_agent at token csrf_token id)
  pure (record {
    owner = owner;
    session = new_session crypto settings owner.id user_agent at token csrf_token id;
    token = token;
    csrf_token = csrf_token;
  })

abbrev pub write_owner : Owner → Auth (Unit {0})
write_owner o = modify (λ s. record s { owners = put (λ x. x.id == o.id) o s.owners })

unfoldable pub new_owner : String → String → Datetime → Uuid → Owner
new_owner email password_hash at id = record {
  id = id;
  singleton_key = 1;
  email = email;
  password_hash = password_hash;
  created_at = at;
  updated_at = at;
  password_changed_at = at;
}

unfoldable pub replaced_owner : Owner → String → String → Datetime → Owner
replaced_owner o email password_hash at = record o {
  email = email;
  password_hash = password_hash;
  updated_at = at;
  password_changed_at = at;
}

-- The branches on the owner that is found; `singleton_key` leaves one at most.
unfoldable pub provision : String → String → Datetime → Bool → List Owner → Auth Owner
provision email password_hash at replace_existing [] = do
  id ← new_uuid
  modify (λ s. record s { owners = s.owners ++ new_owner email password_hash at id ∷ [] })
  pure (new_owner email password_hash at id)
provision email password_hash at replace_existing (o ∷ _) = do
  raise_if (not replace_existing) owner_exists
  write_owner (replaced_owner o email password_hash at)
  revoke_sessions (λ x. x.owner_id == o.id) at
  pure (replaced_owner o email password_hash at)

unfoldable pub provision_owner : Crypto → String → String → Bool → Auth Owner
provision_owner crypto email password replace_existing = do
  normalized ← lift (normalize_email crypto email)
  encoded ← lift (hash_password crypto password)
  at ← now
  owners ← gets (λ s. s.owners)
  provision normalized encoded at replace_existing owners

-- The address under which the owner is looked up.
unfoldable pub lookup_email : Crypto → String → String
lookup_email crypto email = elim (normalize_email crypto email) [
  | ok normalized ↦ normalized
  | err e ↦ "invalid@example.invalid"
]

abbrev hash_of : Option Owner → Option String
hash_of none = none
hash_of (some o) = some o.password_hash

-- `if updated_hash is not None: ...`
unfoldable pub refresh_hash : Owner → Option String → Auth Owner
refresh_hash o none = pure o
refresh_hash o (some updated) = do
  at ← now
  write_owner (record o { password_hash = updated; updated_at = at })
  pure (record o { password_hash = updated; updated_at = at })

unfoldable pub sign_in :
    Crypto → Settings → Option String → Option Owner → Bool × Option String → Auth IssuedSession
sign_in crypto settings user_agent none verdict = λ s. err authentication_failed
sign_in crypto settings user_agent (some o) (valid, updated_hash) = do
  raise_if (not valid) authentication_failed
  owner ← refresh_hash o updated_hash
  issue crypto settings owner user_agent

unfoldable pub authenticate :
    Crypto → Settings → String → String → Option String → Auth IssuedSession
authenticate crypto settings email password user_agent = do
  owners ← gets (λ s. s.owners)
  let owner = find (λ o. o.email == lookup_email crypto email) owners
  sign_in crypto settings user_agent owner (verify_password crypto password (hash_of owner))

-- `change_password`, from the query of the owner on.
unfoldable pub replace_password :
    Crypto → Settings → Owner → Datetime → String → String → Option String → Auth IssuedSession
replace_password crypto settings o at current_password new_password user_agent = do
  raise_if (not (verify_password crypto current_password (some o.password_hash)).0)
      authentication_failed
  encoded ← lift (hash_password crypto new_password)
  let changed : Owner = record o {
    password_hash = encoded;
    password_changed_at = at;
    updated_at = at;
  }
  write_owner changed
  revoke_sessions (λ x. x.owner_id == o.id) at
  issue crypto settings changed user_agent

unfoldable pub change_password :
    Crypto → Settings → AuthContext → String → String → Option String → Auth IssuedSession
change_password crypto settings context current_password new_password user_agent = do
  lift (validate_password new_password)
  at ← now
  owners ← gets (λ s. s.owners)
  owner ← or_raise no_owner (find (λ o. o.id == context.owner_id) owners)
  replace_password crypto settings owner at current_password new_password user_agent

-- ===== src/Auth/Examples.antt =====
-- Sessions on a concrete store: an owner signs in twice, uses a token, and changes the password.
use foundora_ai.Base.{
  ℕ, zero, suc, arith, ◌+◌, ◌<◌, ◌≡◌, refl, String, Bool, true, false, none, some, Option, [], ◌∷◌,
  ◌++◌, ◌==◌, nat_eq, find, Result, ok, err, strip, rstrip, lstrip, is_space, text_take, ltb,
}
use foundora_ai.Business.{OwnerSession, AuthContext}
use foundora_ai.Business.Samples.{session_of}
use foundora_ai.Auth.Model.{Owner, Settings, Crypto, AuthError, AuthStore}
use foundora_ai.Auth.Passwords.{normalize_email, validate_password, hash_password, verify_password}
use foundora_ai.Auth.Service.{
  idle_refresh_interval, revoke_if, revoke_where, kept_agent, new_session, issue, lookup_email,
  refresh_hash, sign_in, authenticate, replace_password, change_password, IssuedSession,
}
use foundora_ai.Auth.Sessions.{
  ResolvedSession, is_over, close_session, is_stale, keep_session, find_session, use_session,
  resolve_session, revoke_current, revoke_other_sessions, is_other,
}
use foundora_ai.Auth.Sound.{row_of, IsLive, resolve_session-IsLive}
use foundora_ai.Auth.Dead.{IsDead}
use foundora_ai.Auth.Ended.{resolve_session-IsDead}
use foundora_ai.Auth.Lasting.{IsKeyed}
use foundora_ai.Auth.Renewed.{change_password-IsDead, revoke_other_sessions-IsDead}
use foundora_ai.Auth.RateLimit.{Command, incr, expire, ttl, Redis, RateLimit, passed, passed-min}
use foundora_ai.Auth.Issued.{Resolves, issue-Resolves}
use foundora_ai.Auth.Bounds.{AreBounded}
use foundora_ai.Auth.Histories.{here, by_sign_in, by_use, by_change, by_sign_out}
use foundora_ai.Auth.Bounds.Reach.{sessions-AreBounded}

-- A Redis that holds one counter and no expiry.
abbrev counter : Redis ℕ
counter = record { execute = run }
  where
    run : Command × Command × Command → ℕ → (ℕ × Bool × Option ℕ) × ℕ
    run (incr key, expire other seconds nx, ttl third) n = ((suc n, true, some seconds), suc n)
    run _ n = ((0, false, none), n)

abbrev login_limit : RateLimit
login_limit = record { scope = "login"; identity = "a@b.c"; limit = 5; window_seconds = 900 }

passed-min_example : passed counter (λ t. t) login_limit 7 1 ≡ 4
passed-min_example =
    passed-min counter (λ t. t) login_limit (λ n. n) 7 1
      (record { returned = λ s. refl; stored = λ s. refl })

abbrev crypto : Crypto
crypto = record {
  digest = λ t. t;
  casefold = λ t. t;
  is_email = λ _. true;
  hash = λ t. t;
  verify_and_update = λ _ _. some (true, none);
  dummy_hash = "dummy";
}

abbrev settings : Settings
settings = record { session_idle_minutes = 30; session_absolute_minutes = 480 }

abbrev founder : Owner
founder = record {
  id = 9;
  singleton_key = 1;
  email = "a@b.c";
  password_hash = "hash";
  created_at = 5;
  updated_at = 5;
  password_changed_at = 5;
}

-- The supply of tokens.
abbrev token_at : ℕ → String
token_at zero = "t0"
token_at (suc zero) = "c0"
token_at (suc (suc zero)) = "t1"
token_at _ = "c1"

abbrev start : AuthStore
start = record {
  owners = founder ∷ [];
  sessions = [];
  next_uuid = 20;
  tokens = token_at;
  drawn = 0;
  clock = λ k. 100 + k;
  ticks = 0;
}

abbrev state_of : {A : Type 0} → Result AuthError (A × AuthStore) → AuthStore
state_of (ok (a, s)) = s
state_of (err e) = start

abbrev result_of : {A : Type 0} → A → Result AuthError (A × AuthStore) → A
result_of a (ok (b, s)) = b
result_of a (err e) = a

abbrev nothing_issued : IssuedSession
nothing_issued = record {
  owner = founder;
  session = session_of 0 0 none;
  token = "";
  csrf_token = "";
}

abbrev signed_in : Result AuthError (IssuedSession × AuthStore)
signed_in = authenticate crypto settings "a@b.c" "secret" none start

signed_in_ok : signed_in ≡ ok (result_of nothing_issued signed_in, state_of signed_in)
unfolding authenticate lookup_email normalize_email strip rstrip lstrip is_space verify_password
    sign_in refresh_hash issue new_session kept_agent
signed_in_ok = refl

abbrev twice : Result AuthError (IssuedSession × AuthStore)
twice = authenticate crypto settings "a@b.c" "secret" (some "browser") (state_of signed_in)

twice_ok : twice ≡ ok (result_of nothing_issued twice, state_of twice)
unfolding authenticate lookup_email normalize_email strip rstrip lstrip is_space verify_password
    sign_in refresh_hash issue new_session kept_agent text_take
twice_ok = refl

abbrev first_row : OwnerSession
first_row = (result_of nothing_issued signed_in).session

abbrev second_row : OwnerSession
second_row = (result_of nothing_issued twice).session

first_found : row_of crypto "t0" (state_of twice) ≡ some first_row
unfolding authenticate lookup_email normalize_email strip rstrip lstrip is_space verify_password
    sign_in refresh_hash issue new_session kept_agent text_take
first_found = refl

second_found : row_of crypto "t1" (state_of twice) ≡ some second_row
unfolding authenticate lookup_email normalize_email strip rstrip lstrip is_space verify_password
    sign_in refresh_hash issue new_session kept_agent text_take
second_found = refl

abbrev used : Result AuthError (Option ResolvedSession × AuthStore)
used = resolve_session crypto settings (some "t0") (state_of twice)

abbrev in_use : ResolvedSession
in_use = record { owner = founder; session = first_row }

used_ok : used ≡ ok (some in_use, state_of used)
unfolding authenticate lookup_email normalize_email strip rstrip lstrip is_space verify_password
    sign_in refresh_hash issue new_session kept_agent text_take resolve_session find_session
    use_session is_over keep_session is_stale idle_refresh_interval
used_ok = refl

resolve_session-IsLive_example : IsLive crypto settings "t0" (state_of twice) in_use
resolve_session-IsLive_example =
    resolve_session-IsLive crypto settings "t0" (state_of twice) (state_of used) in_use used_ok

-- The same store a day later.
abbrev later : AuthStore
later = record (state_of twice) { clock = λ k. 86400000000 + k }

abbrev too_late : Result AuthError (Option ResolvedSession × AuthStore)
too_late = resolve_session crypto settings (some "t0") later

too_late_ok : too_late ≡ ok (result_of none too_late, state_of too_late)
unfolding authenticate lookup_email normalize_email strip rstrip lstrip is_space verify_password
    sign_in refresh_hash issue new_session kept_agent text_take resolve_session find_session
    use_session is_over close_session
too_late_ok = refl

first_is_over : is_over first_row (later.clock later.ticks) ≡ true
unfolding authenticate lookup_email normalize_email strip rstrip lstrip is_space verify_password
    sign_in refresh_hash issue new_session kept_agent text_take is_over
first_is_over = refl

keyed : IsKeyed (state_of twice)
unfolding authenticate lookup_email normalize_email strip rstrip lstrip is_space verify_password
    sign_in refresh_hash issue new_session kept_agent text_take
keyed = record {
  distinct = ((λ e. absurd (omega arith), tt), (tt, tt));
  old = (omega arith, (omega arith, tt));
}

first_owner : find (λ (o : Owner). o.id == first_row.owner_id) later.owners ≡ some founder
unfolding authenticate lookup_email normalize_email strip rstrip lstrip is_space verify_password
    sign_in refresh_hash issue new_session kept_agent text_take
first_owner = refl

-- The owner signs in again.
abbrev again : Result AuthError (IssuedSession × AuthStore)
again = authenticate crypto settings "a@b.c" "secret" none (state_of too_late)

again_ok : again ≡ ok (result_of nothing_issued again, state_of again)
unfolding authenticate lookup_email normalize_email strip rstrip lstrip is_space verify_password
    sign_in refresh_hash issue new_session kept_agent text_take resolve_session find_session
    use_session is_over close_session
again_ok = refl

resolve_session-IsDead_example :
    (result_of none too_late ≡ none) × IsDead crypto settings "t0" (state_of again)
resolve_session-IsDead_example =
    resolve_session-IsDead crypto settings "t0" later (state_of too_late) (state_of again) first_row
      founder (result_of none too_late) (record { distinct = keyed.distinct; old = keyed.old })
      first_found first_owner first_is_over too_late_ok
      (by_sign_in "a@b.c" "secret" none (state_of too_late) (state_of again) (state_of again)
        (result_of nothing_issued again) again_ok (here (state_of again)))

abbrev context : AuthContext
context = record { owner_id = 9; session_id = 20 }

abbrev changed : Result AuthError (IssuedSession × AuthStore)
changed =
    change_password crypto settings context "secret" "a long new password" none (state_of twice)

changed_ok : changed ≡ ok (result_of nothing_issued changed, state_of changed)
unfolding authenticate lookup_email normalize_email strip rstrip lstrip is_space verify_password
    sign_in refresh_hash issue new_session kept_agent text_take change_password replace_password
    validate_password hash_password revoke_where revoke_if
changed_ok = refl

first_owned : first_row.owner_id ≡ context.owner_id
unfolding authenticate lookup_email normalize_email strip rstrip lstrip is_space verify_password
    sign_in refresh_hash issue new_session kept_agent
first_owned = refl

-- The first token is tried after the change.
abbrev tried : Result AuthError (Option ResolvedSession × AuthStore)
tried = resolve_session crypto settings (some "t0") (state_of changed)

tried_ok : tried ≡ ok (result_of none tried, state_of tried)
unfolding authenticate lookup_email normalize_email strip rstrip lstrip is_space verify_password
    sign_in refresh_hash issue new_session kept_agent text_take change_password replace_password
    validate_password hash_password revoke_where revoke_if resolve_session find_session use_session
    is_over close_session
tried_ok = refl

change_password-IsDead_example :
    ((state_of changed).sessions
      ≡ revoke_where
          (λ y. y.owner_id == 9)
          ((state_of twice).clock (state_of twice).ticks)
          (state_of twice).sessions
        ++ (result_of nothing_issued changed).session ∷ [])
    × ((result_of nothing_issued changed).session.revoked_at ≡ none)
    × ((result_of nothing_issued changed).session.owner_id ≡ 9)
    × ((result_of nothing_issued changed).session.token_hash
        ≡ crypto.digest (result_of nothing_issued changed).token)
    × IsDead crypto settings "t0" (state_of tried)
change_password-IsDead_example =
    change_password-IsDead crypto settings context "secret" "a long new password" none
      (state_of twice) (state_of changed) (state_of tried) (result_of nothing_issued changed) "t0"
      first_row keyed changed_ok first_found first_owned
      (by_use (some "t0") (state_of changed) (state_of tried) (state_of tried)
        (result_of none tried) tried_ok (here (state_of tried)))

abbrev alone : Result AuthError (ℕ × AuthStore)
alone = revoke_other_sessions context (state_of twice)

alone_ok : alone ≡ ok (result_of 0 alone, state_of alone)
unfolding revoke_other_sessions
alone_ok = refl

second_is_other : is_other context second_row ≡ true
unfolding authenticate lookup_email normalize_email strip rstrip lstrip is_space verify_password
    sign_in refresh_hash issue new_session kept_agent text_take
second_is_other = refl

first_is_own : first_row.id ≡ context.session_id
unfolding authenticate lookup_email normalize_email strip rstrip lstrip is_space verify_password
    sign_in refresh_hash issue new_session kept_agent text_take
first_is_own = refl

-- The token that asked signs out.
abbrev out : Result AuthError (Unit {0} × AuthStore)
out = revoke_current context (state_of alone)

out_ok : out ≡ ok (tt, state_of out)
unfolding revoke_current
out_ok = refl

revoke_other_sessions-IsDead_example :
    (row_of crypto "t0" (state_of alone) ≡ some first_row)
    × IsDead crypto settings "t1" (state_of out)
revoke_other_sessions-IsDead_example =
    revoke_other_sessions-IsDead crypto settings context (state_of twice) (state_of alone)
      (state_of out) (result_of 0 alone) "t1" "t0" second_row first_row keyed alone_ok second_found
      second_is_other first_found first_is_own
      (by_sign_out context (state_of alone) (state_of out) (state_of out) out_ok
        (here (state_of out)))

abbrev issued : Result AuthError (IssuedSession × AuthStore)
issued = issue crypto settings founder none start

issued_ok : issued ≡ ok (result_of nothing_issued issued, state_of issued)
unfolding issue new_session kept_agent
issued_ok = refl

short_token : ltb 256 2 ≡ false
short_token = refl

not_idle :
    (state_of issued).clock (state_of issued).ticks
    < (result_of nothing_issued issued).session.idle_expires_at
unfolding issue new_session kept_agent
not_idle = omega arith

issue-Resolves_example :
    Resolves crypto settings (result_of nothing_issued issued) (state_of issued)
unfolding issue
issue-Resolves_example =
    issue-Resolves crypto settings founder none start (state_of issued)
      (result_of nothing_issued issued) issued_ok refl refl (omega arith) (omega arith) not_idle

sessions-AreBounded_example : AreBounded settings (state_of changed)
unfolding AreBounded
sessions-AreBounded_example = sessions-AreBounded crypto settings start (state_of changed) tt (
    by_sign_in "a@b.c" "secret" none start (state_of signed_in) (state_of changed)
      (result_of nothing_issued signed_in) signed_in_ok
      (by_sign_in "a@b.c" "secret" (some "browser") (state_of signed_in) (state_of twice)
        (state_of changed) (result_of nothing_issued twice) twice_ok
        (by_change context "secret" "a long new password" none (state_of twice) (state_of changed)
          (state_of changed) (result_of nothing_issued changed) changed_ok
          (here (state_of changed)))))

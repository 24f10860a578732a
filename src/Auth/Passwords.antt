-- ===== src/Auth/Passwords.antt =====
-- auth/passwords.py.
use foundora_ai.Base.{
  String, Bool, true, false, ◌&&◌, ◌||◌, not, Option, none, some, Result, ok, err, if◌then◌else◌,
  ltb, text_length, strip,
}
use foundora_ai.Base.Fallible.{◌>>=◌}
use foundora_ai.Auth.Model.{Crypto, AuthError, invalid_email, password_too_short, password_too_long}

unfoldable pub normalize_email : Crypto → String → Result AuthError String
normalize_email crypto value =
    let normalized = crypto.casefold (strip value) in
    if ltb 320 (text_length normalized) || not (crypto.is_email normalized)
    then err invalid_email
    else ok normalized

unfoldable pub validate_password : String → Result AuthError String
validate_password value =
    if ltb (text_length value) 15
    then err password_too_short
    else if ltb 128 (text_length value)
    then err password_too_long
    else ok value

unfoldable pub hash_password : Crypto → String → Result AuthError String
hash_password crypto value = do validated ← validate_password value; ok (crypto.hash validated)

abbrev or_dummy : Crypto → Option String → String
or_dummy crypto none = crypto.dummy_hash
or_dummy crypto (some encoded) = encoded

abbrev is_some : Option String → Bool
is_some none = false
is_some (some encoded) = true

unfoldable pub verify_password : Crypto → String → Option String → Bool × Option String
verify_password crypto value encoded_hash =
    elim (crypto.verify_and_update value (or_dummy crypto encoded_hash)) [
      | none ↦ (false, none)
      | some (valid, updated_hash) ↦ (valid && is_some encoded_hash, updated_hash)
    ]

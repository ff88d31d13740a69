-- ===== src/Tests/Enrollment.antt =====
-- Runs of the enrollment with a MAC that is always empty, so that every code is 000000.
use zt_access_gateway.Common.{
  ℕ, ◌≤◌, String, ◌≡◌, refl, ◌≢◌, true, none, some, List, [], ◌∷◌, arith, concat, codes,
}
use zt_access_gateway.JsMap.{get, set, delete}
use zt_access_gateway.Mfa.{get_secret}
use zt_access_gateway.Mfa.Totp.{
  Hmac, to_upper, strip_padding, base32_index, decode_from, base32_decode, uint32_be, six_digits,
  hotp, current_counter, generate, codes_eq, verify, generate-verify,
}
use zt_access_gateway.Mfa.Base32.{base32_char, drain, encode_from, base32_encode}
use zt_access_gateway.Mfa.Base32.RoundTrip.{base32_encode-base32_decode}
use zt_access_gateway.Mfa.Pending.{
  set_pending, increment_attempts, get_pending, has_pending_for_user,
}
use zt_access_gateway.Mfa.Enrollment.{
  EnrollCrypto, EnrollConfig, EnrollEnv, EnrollState, otpauth_uri, create_enrollment, count_failure,
  commit, confirm_enrollment, enrolling, confirmed,
}
use zt_access_gateway.Mfa.Enrollment.Attempts.{
  Call, call, is_wrong, spent, create-spent_le, confirms,
}
use zt_access_gateway.Mfa.Enrollment.Commit.{
  IsCommitted, confirm_enrollment-IsCommitted, create-confirm,
}

abbrev empty_mac : Hmac
empty_mac key msg = []

abbrev zeros : List ℕ
zeros = 48 ∷ 48 ∷ 48 ∷ 48 ∷ 48 ∷ 48 ∷ []

generate-verify_example : verify empty_mac zeros "ABCD" 60000 ≡ some true
unfolding generate hotp base32_decode codes decode_from strip_padding to_upper base32_index
    uint32_be six_digits current_counter
generate-verify_example =
    generate-verify empty_mac "ABCD" 30000 60000 {token = zeros} refl (omega arith) (omega arith)
      (omega arith)

base32_encode-base32_decode_example : base32_decode "AEBAG" ≡ some (1 ∷ 2 ∷ 3 ∷ [])
unfolding codes base32_encode encode_from drain base32_char
base32_encode-base32_decode_example =
    base32_encode-base32_decode (1 ∷ 2 ∷ 3 ∷ []) "AEBAG"
      (omega arith, (omega arith, (omega arith, tt))) refl

abbrev crypto : EnrollCrypto
crypto = record {
  hmac_sha1 = empty_mac;
  aes_gcm_encrypt = λ s. concat "sealed:" s;
  encode_uri_component = λ s. s;
}

abbrev config : EnrollConfig
config = record { enroll_pending_ttl_ms = 600000; issuer_name = "gateway" }

abbrev env_at : ℕ → EnrollEnv
env_at t = record { now = t; up = λ n. true; uuid = "e1"; secret = "ABCD" }

abbrev nobody : EnrollState
nobody = record { pending = []; secrets = []; events = [] }

abbrev started : EnrollState
started = (create_enrollment crypto config (env_at 60000) "alice" none nobody).1

abbrev uri : String
uri = "otpauth://totp/gateway:alice?secret=ABCD&issuer=gateway&algorithm=SHA1&digits=6&period=30"

made : (create_enrollment crypto config (env_at 60000) "alice" none nobody).0 ≡ enrolling "e1" uri
unfolding create_enrollment has_pending_for_user get otpauth_uri
made = refl

abbrev guesses : List (Call crypto config)
guesses =
    confirms (env_at 70000) "e1" "111111" "alice"
    ∷ confirms (env_at 80000) "e1" "000000" "alice"
    ∷ []

-- A wrong code, then the right one.
spent_two : spent crypto config "e1" guesses started ≡ 2
unfolding spent is_wrong call create_enrollment has_pending_for_user get otpauth_uri set_pending set
    confirm_enrollment get_pending count_failure increment_attempts commit delete verify hotp
    base32_decode codes decode_from strip_padding to_upper base32_index uint32_be six_digits
    current_counter codes_eq
spent_two = refl

create-spent_le_example : spent crypto config "e1" guesses started ≤ 5
create-spent_le_example =
    create-spent_le crypto config (env_at 60000) "alice" none nobody guesses {id = "e1"} {uri = uri}
      tt made (tt, (tt, tt))

create-confirm_example :
    let r = confirm_enrollment crypto config (env_at 90000) "e1" "000000" "alice" started in
    (r.0 ≡ confirmed) × (get_secret "alice" r.1.secrets ≡ some "sealed:ABCD")
unfolding verify hotp base32_decode codes decode_from strip_padding to_upper base32_index uint32_be
    six_digits current_counter codes_eq
create-confirm_example =
    create-confirm crypto config (env_at 60000) (env_at 90000) "alice" "000000" none nobody
      {id = "e1"} {uri = uri} made (omega arith) refl refl

confirm_enrollment-IsCommitted_example :
    let r = confirm_enrollment crypto config (env_at 90000) "e1" "000000" "alice" started in
    (r.0 ≡ confirmed → IsCommitted crypto config (env_at 90000) "e1" "000000" "alice" started r.1)
    × (r.0 ≢ confirmed → r.1.secrets ≡ started.secrets)
confirm_enrollment-IsCommitted_example =
    confirm_enrollment-IsCommitted crypto config (env_at 90000) "e1" "000000" "alice" started

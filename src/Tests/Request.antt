-- ===== src/Tests/Request.antt =====
-- Runs of src/shared/request-context.util.ts and src/gateway/public-paths.ts.
use zt_access_gateway.Common.{◌≡◌, refl, ◌⊎◌, false, none, some, [], ◌∷◌}
use zt_access_gateway.Request.{Request, or_else, is_valid_ip, before_comma, trim, extract_ip}
use zt_access_gateway.Request.Address.{IsAddressText, extract_ip-IsAddressText}

abbrev pub forged : Request
forged = record {
  method = "GET";
  original_url = "/api/orders/?page=1";
  headers = ("x-forwarded-for", "<script>") ∷ [];
  remote_address = some "10.0.0.7";
  ja4h = some "ge11nn";
  user = none;
  gateway_validated = false;
  trust_score = none;
}

-- The forged header is not passed on.
forged_ip : extract_ip forged ≡ "10.0.0.7"
unfolding extract_ip trim before_comma is_valid_ip
forged_ip = refl

extract_ip-IsAddressText_example :
    IsAddressText (extract_ip forged)
    ⊎ (extract_ip forged ≡ or_else forged.remote_address "unknown")
extract_ip-IsAddressText_example = extract_ip-IsAddressText forged

-- ===== src/Honeypot.antt =====
-- src/fingerprint/ja4h.util.ts and ja4h.middleware.ts, and src/honeypot/shadow.controller.ts with
-- the counter of security-metrics.service.ts. The hash is a parameter. A random delay is given by
-- its bounds in milliseconds, and the constant texts of the decoys are left out. `req.ip` is the
-- address of the socket.
pub mod Blocked
use zt_access_gateway.Common.{
  ℕ, ◌+◌, String, Bool, true, not, ◌&&◌, ◌||◌, Option, none, some, List, [], ◌∷◌, concat, nat_eq,
  if◌then◌else◌, length,
}
use zt_access_gateway.Request.{Request, header, extract_ip, extract_ja4h, contains}
use zt_access_gateway.Audit.{AuditEntry, Inserted, Config, log, deny}
use zt_access_gateway.Stores.Fingerprints.{FingerprintStore, add, is_blacklisted}

-- A request as Node hands it over, with its raw headers: names and values in turn.
pub record RawRequest : Type 0 where
  pub request : Request
  pub raw_headers : List String
  pub http_version : Option String

-- The raw headers at even positions.
unfoldable pub header_names : List String → List String
header_names [] = []
header_names (name ∷ []) = name ∷ []
header_names (name ∷ value ∷ rest) = name ∷ header_names rest

unfoldable pub join : String → List String → String
join sep [] = ""
join sep (s ∷ []) = s
join sep (s ∷ t ∷ rest) = concat s (concat sep (join sep (t ∷ rest)))

-- `value ?? fallback`: only an absent text gives the fallback.
abbrev pub or_absent : Option String → String → String
or_absent none d = d
or_absent (some s) d = s

unfoldable pub compute_ja4h : (String → String) → RawRequest → String
unfolding header_names join
compute_ja4h sha256_hex raw =
    let req = raw.request in
    sha256_hex (
      join "|" (
        req.method
        ∷ or_absent raw.http_version "1.1"
        ∷ join "," (header_names raw.raw_headers)
        ∷ or_absent (header "accept" req) ""
        ∷ or_absent (header "content-type" req) ""
        ∷ []))

pub data Admitted : Type 0 where
  next : Request → Admitted
  -- 403 after a delay between the bounds.
  forbidden_after : ℕ → ℕ → Admitted

unfoldable pub ja4h_middleware :
    (String → String) → RawRequest → ℕ → FingerprintStore → Admitted × FingerprintStore
ja4h_middleware sha256_hex raw now store =
    let fingerprint = compute_ja4h sha256_hex raw in
    let (listed, store') = is_blacklisted fingerprint now store in
    (
      if listed
          then forbidden_after 2000 5000
          else next (record raw.request { ja4h = some fingerprint }),
      store',
    )

-- The routes of the controller, as its start-up check lists them.
abbrev pub shadow_routes : List String
shadow_routes =
    "/wp-login.php" ∷ "/.env" ∷ "/admin/config.json" ∷ "/api/v1/debug" ∷ "/graphql/introspection"
    ∷ "/actuator/health" ∷ "/api/v1/internal/keys" ∷ []

abbrev pub all_in : List String → List String → Bool
all_in [] paths = true
all_in (p ∷ expected) paths = contains p paths && all_in expected paths

-- `none` where it throws.
unfoldable pub on_module_init : List String → Option (Unit {0})
on_module_init paths =
    if not (nat_eq (length shadow_routes) (length paths)) || not (all_in shadow_routes paths)
    then none
    else some tt

pub data TrapEvent : Type 0 where
  -- HONEYPOT_TRIGGER with the address, the fingerprint and the path.
  honeypot_trigger : String → Option String → String → TrapEvent

pub record TrapState (Db : Type 0) : Type 0 where
  pub store : FingerprintStore
  pub triggers : ℕ
  pub events : List TrapEvent
  pub db : Db

-- What a trapped request is answered: 200 for the path's decoy, after a delay between the bounds.
pub data Trapped : Type 0 where
  decoy_after : ℕ → ℕ → String → Trapped

module _ {Db : Type 0} (insert : AuditEntry → Db → Inserted Db) (cfg : Config) where
  abbrev pub trap_entry : Request → String → AuditEntry
  trap_entry req path = record {
    user_id = "anonymous";
    resource = path;
    action = req.method;
    decision = deny;
    trust_score = none;
    ja4h_fingerprint = extract_ja4h req;
    ip_address = extract_ip req;
    user_agent = header "user-agent" req;
    event_type = some "HONEYPOT_TRIGGERED";
    request_id = none;
  }

  unfoldable pub trap_and_respond :
      ℕ → Bool → ℕ → Request → String → TrapState Db → Trapped × TrapState Db
  trap_and_respond blacklist_ttl_ms demo now req path st = (
    if demo then decoy_after 0 50 path else decoy_after 2000 5000 path,
    record {
      store = add (or_absent req.ja4h "unknown") blacklist_ttl_ms true now st.store;
      triggers = st.triggers + 1;
      events =
          honeypot_trigger (or_absent req.remote_address "unknown") (extract_ja4h req) path
          ∷ st.events;
      db = (log insert cfg (trap_entry req path) st.db).db;
    },
  )

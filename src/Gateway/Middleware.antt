-- ===== src/Gateway/Middleware.antt =====
-- src/gateway/pipeline/orchestrator.ts, write-outcome.ts, handle-terminal-error.ts, the stage list
-- of src/gateway/gateway.module.ts, and `use` of src/gateway/gateway.middleware.ts. What reaches
-- the client is a reply.
use zt_access_gateway.Common.{ℕ, String, Option, List, [], ◌∷◌, ◌==◌, if◌then◌else◌}
use zt_access_gateway.Request.{Request}
use zt_access_gateway.Gateway.{
  Err, Runtime, Services, Ctx, World, noted, Body, StageOutcome, Outcome, Ran, Stage, returning,
  raising, build_stage_context, audit_exhausted, service_unavailable, unauthorized, other_error,
  audit_failure, audit_signal, request_counted, stage_observed, text, error_body, continue_on,
  bypass, short_circuit, proxied, returned, raised,
}
use zt_access_gateway.Gateway.Stages.{
  public_bypass, honeypot_bypass, auth, revocation, auth_only, trust_score, policy, audit_allow,
  proxy, bopla_strip, record_trust_context,
}
use zt_access_gateway.Gateway.Stages.Pow.{hashcash}
use zt_access_gateway.Gateway.Stages.Mfa.{mfa_stage}

-- What `use` did: it called `next()`, it wrote a response, or an error left it.
pub data Reply (Json : Type 0) : Type 0 where
  next_called : Reply Json
  response : ℕ → List (String × String) → Body Json → Reply Json
  rethrown : Err → Reply Json

pub record Handled (Json : Type 0) (St : Type 0) : Type 0 where
  pub reply : Reply Json
  pub world : World St

module _ {Json St : Type 0} (sv : Services Json St) (rt : Runtime Json) (trigger : Option ℕ) where
  -- The body of the orchestrator's loop: a stage's time is observed unless the stage throws, and
  -- any outcome but `continue` ends the loop.
  unfoldable pub after_stage : String → Stage Json St → Outcome Json → Stage Json St
  after_stage id later (raised e) c w = raising e c w
  after_stage id later (returned continue_on) c w = later c (noted (stage_observed id) w)
  after_stage id later (returned bypass) c w = returning bypass c (noted (stage_observed id) w)
  after_stage id later (returned (short_circuit status body headers)) c w =
      returning (short_circuit status body headers) c (noted (stage_observed id) w)
  after_stage id later (returned (proxied status body)) c w =
      returning (proxied status body) c (noted (stage_observed id) w)

  -- `run` of the orchestrator.
  unfoldable pub run : List (String × Stage Json St) → Stage Json St
  unfolding after_stage
  run [] c w = returning continue_on c w
  run ((id, stage) ∷ rest) c w =
      let r = stage c w in after_stage id (run rest) r.outcome r.ctx r.world

  -- `PIPELINE_STAGES`.
  unfoldable pub pipeline_stages : List (String × Stage Json St)
  pipeline_stages =
      ("public_bypass", public_bypass sv rt)
      ∷ ("honeypot_bypass", honeypot_bypass sv rt)
      ∷ ("auth", auth sv rt)
      ∷ ("revocation", revocation sv rt)
      ∷ ("auth_only", auth_only sv rt)
      ∷ ("trust_score", trust_score sv rt)
      ∷ ("hashcash", hashcash sv rt trigger)
      ∷ ("policy", policy sv rt)
      ∷ ("mfa_promotion", mfa_stage sv rt)
      ∷ ("audit_allow", audit_allow sv rt)
      ∷ ("proxy", proxy sv rt)
      ∷ ("bopla_strip", bopla_strip sv rt)
      ∷ ("record_trust_context", record_trust_context sv rt)
      ∷ []

  unfoldable pub handle_terminal_error : Err → Ctx Json → World St → Handled Json St
  handle_terminal_error audit_exhausted c w = record {
    reply =
        response 503 (("Retry-After", "5") ∷ []) (error_body "audit_unavailable" [] c.request_id);
    world = noted audit_signal (noted audit_failure w);
  }
  handle_terminal_error service_unavailable c w = record {
    reply = response 502 [] (error_body "proxy_unavailable" [] c.request_id);
    world = w;
  }
  handle_terminal_error (unauthorized message) c w = record {
    reply =
        response 401 [] (error_body "auth_invalid" (("message", text message) ∷ []) c.request_id);
    world = w;
  }
  handle_terminal_error (other_error message) c w = record {
    reply = rethrown (other_error message);
    world = w;
  }

  -- `writeOutcome`; its own throw is caught with those of the stages.
  unfoldable pub write_outcome : StageOutcome Json → Ctx Json → World St → Handled Json St
  unfolding handle_terminal_error
  write_outcome bypass c w = record { reply = next_called; world = w }
  write_outcome (short_circuit status body headers) c w = record {
    reply = response status headers body;
    world = w;
  }
  write_outcome (proxied status body) c w = record {
    reply = response status [] body;
    world = noted (request_counted "allow") w;
  }
  write_outcome continue_on c w =
      handle_terminal_error
        (other_error "orchestrator returned continue; pipeline did not terminate") c w

  unfoldable pub dispatch : Ran Json St → Handled Json St
  unfolding write_outcome handle_terminal_error
  dispatch r = elim r.outcome [
    | returned o ↦ write_outcome o r.ctx r.world
    | raised e ↦ handle_terminal_error e r.ctx r.world
  ]

  unfoldable pub use_middleware : Request → St → Handled Json St
  unfolding run pipeline_stages dispatch build_stage_context
  use_middleware req st =
      let w : World St = record { services = st; calls = []; notes = [] } in
      let r = run pipeline_stages (build_stage_context rt req) w in
      if req.method == "OPTIONS" then record { reply = next_called; world = w } else dispatch r

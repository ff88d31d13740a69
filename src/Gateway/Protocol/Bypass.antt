-- ===== src/Gateway/Protocol/Bypass.antt =====
-- src/gateway/gateway.middleware.ts: the requests that pass the gateway by.
use zt_access_gateway.Common.{
  ℕ, ◌≡◌, refl, ◌⊎◌, inl, inr, true, false, Option, [], arith, ◌==◌, Bool-cases,
}
use zt_access_gateway.Request.{Request, public_paths, honeypot_paths, contains, before_query}
use zt_access_gateway.Gateway.{
  Runtime, Services, Ctx, World, noted, returning, build_stage_context, stage_observed, bypass,
}
use zt_access_gateway.Gateway.Stages.{public_bypass, honeypot_bypass}
use zt_access_gateway.Gateway.Middleware.{
  after_stage, run, pipeline_stages, write_outcome, dispatch, use_middleware, next_called,
}

module _ {Json St : Type 0} (sv : Services Json St) (rt : Runtime Json) (trigger : Option ℕ) where
  run_public :
      (c : Ctx Json) (w : World St)
      → contains c.req_path public_paths ≡ true
      → run sv rt trigger (pipeline_stages sv rt trigger) c w
        ≡ returning bypass c (noted (stage_observed "public_bypass") w)
  unfolding run pipeline_stages public_bypass after_stage
  run_public c w h = rw (run, h) refl

  run_honeypot :
      (c : Ctx Json) (w : World St)
      → contains c.req_path public_paths ≡ false
      → contains c.req_path honeypot_paths ≡ true
      → run sv rt trigger (pipeline_stages sv rt trigger) c w
        ≡ returning bypass c
            (noted (stage_observed "honeypot_bypass") (noted (stage_observed "public_bypass") w))
  unfolding run pipeline_stages public_bypass honeypot_bypass after_stage
  run_honeypot c w h h' = rw (run, h, h') refl

  module _ (req : Request) (st : St) where
    -- The request goes on to the application, with no service called and no state changed.
    abbrev pub Untouched : Type 0
    Untouched =
        ((use_middleware sv rt trigger req st).reply ≡ next_called)
        × ((use_middleware sv rt trigger req st).world.calls ≡ [])
        × ((use_middleware sv rt trigger req st).world.services ≡ st)

    -- A preflight request, a public path and a honeypot path pass the gateway by: nothing is
    -- authenticated, audited or scored, and no state changes.
    pub use_middleware-Untouched :
        (req.method == "OPTIONS" ≡ true)
          ⊎ (contains (before_query req.original_url) public_paths ≡ true)
          ⊎ (contains (before_query req.original_url) honeypot_paths ≡ true)
        → Untouched
    unfolding use_middleware build_stage_context dispatch write_outcome
    use_middleware-Untouched h = elim (Bool-cases (req.method == "OPTIONS")) [
      | inl preflight ↦ simp (use_middleware, preflight) (refl, refl, refl)
      | inr other ↦ elim (Bool-cases (contains (before_query req.original_url) public_paths)) [
        | inl open' ↦
            simp (use_middleware, other, run_public (build_stage_context rt req) _ open', dispatch)
              (refl, refl, refl)
        | inr closed ↦
            let pot : contains (before_query req.original_url) honeypot_paths ≡ true =
              ground arith in
            simp
              (
                use_middleware,
                other,
                run_honeypot (build_stage_context rt req) _ closed pot,
                dispatch,
              )
              (refl, refl, refl)
      ]
    ]

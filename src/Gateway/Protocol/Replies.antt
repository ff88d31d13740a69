-- ===== src/Gateway/Protocol/Replies.antt =====
-- src/gateway/gateway.middleware.ts: what a reply and the log of calls say of each other.
use zt_access_gateway.Common.{
  ℕ, ◌≤◌, ◌<◌, String, ◌≡◌, refl, ap, subst, ◌≢◌, ◌⊎◌, inl, inr, true, Option, some, List, [], ◌∷◌,
  ◌==◌, Bool-cases,
}
use zt_access_gateway.Request.{UserClaims, Request, before_query}
use zt_access_gateway.Audit.{AuditEntry}
use zt_access_gateway.Policy.Evaluator.{TrustContext}
use zt_access_gateway.Gateway.{
  Err, Runtime, Services, Ctx, Call, World, Body, Outcome, Ran, build_stage_context,
  audit_exhausted, service_unavailable, unauthorized, other_error, forwarded, trust_recorded,
  error_body, plain_body, continue_on, bypass, short_circuit, proxied, returned, raised,
}
use zt_access_gateway.Gateway.Middleware.{
  Reply, run, pipeline_stages, handle_terminal_error, write_outcome, dispatch, use_middleware,
  next_called, response, rethrown,
}
use zt_access_gateway.Gateway.Protocol.Endings.{
  IsErrorBody, Ended, Turned-forwards, Refused-forwards, passed_by, let_in, turned_away, served,
  served_and_recorded, not_authenticated, not_scored, not_decided, refusal_lost, entrance_lost,
  grant_lost, unreachable, not_recorded,
}
use zt_access_gateway.Gateway.Protocol.{
  Rules, Reached, forwards, Reached-forwards, persisted, answered, persist, answer,
}
use zt_access_gateway.Gateway.Protocol.Grant.{rules_of, pipeline-Ended}

-- The log of a request that the upstream has answered with a body that may be shown, and the recording of the trust context
-- below status 400.
pub record IsServed {Json : Type 0} (rules : Rules Json) (status : ℕ) (body : Option Json)
    (calls : List Call) : Type 0 where
  pub user : UserClaims
  pub score : ℕ
  pub before : List Call
  pub reached : Reached rules (answered user score status) before
  pub shown : rules.Shown user score status body
  pub ends :
      ((400 ≤ status) × (calls ≡ before))
      ⊎ ((status < 400) × (tctx : TrustContext) × (calls ≡ trust_recorded tctx score ∷ before))

-- The log holds one forward, right after the ALLOW entry of a request that was permitted, and
-- nothing after it but the recording of the trust context; or it holds none.
pub data IsGuarded {Json : Type 0} (rules : Rules Json) : List Call → Type 0 where
  quiet : {t : List Call} → forwards t ≡ 0 → IsGuarded rules t
  once :
      {u : UserClaims} {n : ℕ} {status : Option ℕ} {t : List Call}
      → Reached rules (persisted u n) t
      → IsGuarded rules (forwarded u n status ∷ t)
  once_recorded :
      {u : UserClaims} {n status : ℕ} {tctx : TrustContext} {t : List Call}
      → Reached rules (persisted u n) t
      → IsGuarded rules (trust_recorded tctx n ∷ forwarded u n (some status) ∷ t)

module _ {Json St : Type 0} (sv : Services Json St) (rt : Runtime Json) (trigger : Option ℕ) where
  Ended-IsGuarded :
      {k : Rules Json} {o : Outcome Json} {t : List Call} → Ended k o t → IsGuarded k t
  unfolding forwards
  Ended-IsGuarded (passed_by path e) = quiet (ap forwards e)
  Ended-IsGuarded (let_in path r) = quiet (Reached-forwards r)
  Ended-IsGuarded (turned_away err why) = quiet (Refused-forwards why)
  Ended-IsGuarded (served le shown (answer r)) = once r
  Ended-IsGuarded (served_and_recorded lt shown (answer r)) = once_recorded r
  Ended-IsGuarded (not_authenticated gated) = quiet refl
  Ended-IsGuarded (not_scored path r) = quiet (Reached-forwards r)
  Ended-IsGuarded (not_decided r) = quiet (Reached-forwards r)
  Ended-IsGuarded (refusal_lost turned) = quiet (Turned-forwards turned)
  Ended-IsGuarded (entrance_lost path r) = quiet (Reached-forwards r)
  Ended-IsGuarded (grant_lost r) = quiet (Reached-forwards r)
  Ended-IsGuarded (unreachable r) = once r
  Ended-IsGuarded (not_recorded lt (answer r)) = once r

  dispatch-calls : (r : Ran Json St) → (dispatch sv rt trigger r).world.calls ≡ r.world.calls
  unfolding dispatch write_outcome handle_terminal_error
  dispatch-calls r = go r.outcome
    where
      go :
          (o : Outcome Json)
          → (dispatch sv rt trigger (record r { outcome = o })).world.calls ≡ r.world.calls
      go (returned continue_on) = refl
      go (returned bypass) = refl
      go (returned (short_circuit status body headers)) = refl
      go (returned (proxied status body)) = refl
      go (raised audit_exhausted) = refl
      go (raised service_unavailable) = refl
      go (raised (unauthorized message)) = refl
      go (raised (other_error message)) = refl

  -- A reply with a body of the upstream is one of a served request.
  abbrev Vouched : Rules Json → Reply Json → List Call → Type 0
  Vouched k next_called t = Unit
  Vouched k (rethrown e) t = Unit
  Vouched k (response status headers (error_body err fields id)) t = Unit
  Vouched k (response status headers (plain_body body)) t = IsServed k status body t

  raised-Vouched :
      (k : Rules Json) (e : Err) (c : Ctx Json) (w : World St) (t : List Call)
      → Vouched k (handle_terminal_error sv rt trigger e c w).reply t
  unfolding handle_terminal_error
  raised-Vouched k audit_exhausted c w t = tt
  raised-Vouched k service_unavailable c w t = tt
  raised-Vouched k (unauthorized message) c w t = tt
  raised-Vouched k (other_error message) c w t = tt

  refused-Vouched :
      (k : Rules Json) (status : ℕ) (headers : List (String × String)) (body : Body Json)
      (t : List Call)
      → IsErrorBody body
      → Vouched k (response status headers body) t
  refused-Vouched k status headers (error_body err fields id) t is = tt
  refused-Vouched k status headers (plain_body body) t is = elim is [ ]

  dispatch-Vouched :
      {k : Rules Json} (o : Outcome Json) (c : Ctx Json) (w : World St) (t : List Call)
      → Ended k o t
      → Vouched k (dispatch sv rt trigger (record { outcome = o; ctx = c; world = w })).reply t
  unfolding dispatch write_outcome
  dispatch-Vouched _ c w t (passed_by path e) = tt
  dispatch-Vouched _ c w _ (let_in path r) = tt
  dispatch-Vouched _ c w t (turned_away {status} {body} {headers} err why) =
      refused-Vouched _ status headers body t err
  dispatch-Vouched _ c w t (served {u} {n} le shown r) = record {
    user = u;
    score = n;
    before = t;
    reached = r;
    shown = shown;
    ends = inl (le, refl);
  }
  dispatch-Vouched _ c w _ (served_and_recorded {u} {n} {status} {body} {tctx} {t} lt shown r) =
      record {
        user = u;
        score = n;
        before = t;
        reached = r;
        shown = shown;
        ends = inr (lt, tctx, refl);
      }
  dispatch-Vouched {k} (raised e) c w t h = raised-Vouched k e c w t

  -- The middleware forwards a request at most once, and only right after its ALLOW entry was
  -- written, for a user whose token was accepted and found unrevoked, whose work was verified if
  -- the score demanded any, and whom the policy allowed or an MFA token promoted.
  pub use_middleware-IsGuarded :
      (req : Request) (st : St)
      → IsGuarded
          (rules_of sv rt trigger (before_query req.original_url))
          (use_middleware sv rt trigger req st).world.calls
  unfolding use_middleware build_stage_context forwards
  use_middleware-IsGuarded req st = elim (Bool-cases (req.method == "OPTIONS")) [
    | inl preflight ↦ simp (use_middleware, preflight) (quiet refl)
    | inr other ↦
        let w : World St = record { services = st; calls = []; notes = [] } in
        let r = run sv rt trigger (pipeline_stages sv rt trigger) (build_stage_context rt req) w in
        simp (use_middleware, other, dispatch-calls)
          (Ended-IsGuarded (pipeline-Ended sv rt trigger (build_stage_context rt req) w refl))
  ]

  persisted-Written :
      {rules : Rules Json} {u : UserClaims} {n : ℕ} {t : List Call}
      → Reached rules (persisted u n) t
      → (entry : AuditEntry) × rules.Written entry
  persisted-Written (persist {entry} w e e' r) = (entry, w)

  -- While the audit service accepts no entry, no request is forwarded.
  pub use_middleware_outage :
      (req : Request) (st : St)
      → ((entry : AuditEntry) (now : St) → (sv.audit_log entry now).exhausted ≡ true)
      → forwards (use_middleware sv rt trigger req st).world.calls ≡ 0
  use_middleware_outage req st outage = go (use_middleware-IsGuarded req st)
    where
      never :
          {u : UserClaims} {n : ℕ} {t : List Call}
          → Reached (rules_of sv rt trigger (before_query req.original_url)) (persisted u n) t
          → ⊥
      never r = let (entry, (now, kept)) = persisted-Written r in let lost = outage entry now in cc

      go :
          {t : List Call}
          → IsGuarded (rules_of sv rt trigger (before_query req.original_url)) t
          → forwards t ≡ 0
      go (quiet e) = e
      go (once r) = absurd (never r)
      go (once_recorded r) = absurd (never r)

  -- A body of the upstream reaches the client only with the upstream's own status and stripped for
  -- the caller's path and roles, and only if the request was granted and forwarded, with the trust
  -- context recorded below status 400: where that recording throws, no body is sent.
  pub use_middleware-IsServed :
      (req : Request) (st : St) {status : ℕ} {headers : List (String × String)} {body : Option Json}
      → (use_middleware sv rt trigger req st).reply ≡ response status headers (plain_body body)
      → IsServed
          (rules_of sv rt trigger (before_query req.original_url))
          status
          body
          (use_middleware sv rt trigger req st).world.calls
  unfolding use_middleware build_stage_context
  use_middleware-IsServed req st {status} h = elim (Bool-cases (req.method == "OPTIONS")) [
    | inl preflight ↦ absurd (not_next (simp (use_middleware, preflight) at h))
    | inr other ↦
        let w : World St = record { services = st; calls = []; notes = [] } in
        let c = build_stage_context rt req in
        let r = run sv rt trigger (pipeline_stages sv rt trigger) c w in
        simp (use_middleware, other, dispatch-calls)
          (subst
            (λ reply.
              Vouched (rules_of sv rt trigger (before_query req.original_url)) reply r.world.calls)
            (simp (use_middleware, other) at h)
            (dispatch-Vouched r.outcome r.ctx r.world r.world.calls
              (pipeline-Ended sv rt trigger c w refl)))
  ]
    where
      not_next :
          {s : ℕ} {hs : List (String × String)} {b : Body Json} → next_called ≢ response s hs b
      not_next e = cc

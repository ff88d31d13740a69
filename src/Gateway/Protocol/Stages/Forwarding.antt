-- ===== src/Gateway/Protocol/Stages/Forwarding.antt =====
-- src/gateway/pipeline/stages: the fail-closed audit, the proxy and what follows it, against the
-- protocol.
use zt_access_gateway.Common.{
  ℕ, ◌<◌, ◌≡◌, refl, sym, subst, inl, inr, false, Option, none, some, List, arith, ltb, Bool-cases,
}
use zt_access_gateway.Request.{UserClaims, Request}
use zt_access_gateway.Audit.{AuditEntry, allow}
use zt_access_gateway.Gateway.{
  Answer, Runtime, Upstream, Services, Ctx, Call, World, entry_of, gave, failed,
}
use zt_access_gateway.Gateway.Stages.{
  audit_allow, forward_answer, proxy, bopla_strip, record_answer, record_for, record_trust_context,
}
use zt_access_gateway.Gateway.Protocol.Endings.{
  served, served_and_recorded, grant_lost, unreachable, not_recorded,
}
use zt_access_gateway.Gateway.Protocol.{Rules, permitted, persisted, answered, persist, answer}
use zt_access_gateway.Gateway.Protocol.Stages.{Standing, Settles, Meets, advance, went, ended}

-- The proxy has answered a request of the user with the status and the body.
pub record Given {Json St : Type 0} (sv : Services Json St) (u : UserClaims) (n status : ℕ)
    (body : Option Json) : Type 0 where
  pub request : Request
  pub before : St
  pub upstream : Upstream Json
  pub answered_with : (sv.forward request u n before).0 ≡ gave upstream
  pub status_is : upstream.status ≡ status
  pub body_is : upstream.data_of ≡ body

module _ {Json St : Type 0} (sv : Services Json St) (rt : Runtime Json) (rules : Rules Json) where
  -- The upstream has answered, and the context holds its status and body.
  abbrev pub Answered : Ctx Json → List Call → Type 0
  Answered c t =
      (status : ℕ) × (c.upstream_status ≡ some status)
      × (s : Standing rules (λ u n. answered u n status) c t) × Given sv s.user s.score status
          c.upstream_body

  -- The context holds a body that may be shown.
  abbrev pub Stripped : Ctx Json → List Call → Type 0
  Stripped c t =
      (status : ℕ) × (c.upstream_status ≡ some status)
      × (s : Standing rules (λ u n. answered u n status) c t) × rules.Shown s.user s.score status
          c.stripped_body

  pub audit_allow-Meets :
      ((entry : AuditEntry) (st : St)
        → (sv.audit_log entry st).exhausted ≡ false
        → rules.Written entry)
      → Meets rules (Standing rules permitted) (audit_allow sv rt) (Standing rules persisted)
  unfolding audit_allow entry_of
  audit_allow-Meets accepts c w s =
      let entry = entry_of c s.user.user_id allow c.trust_score none in
      elim (Bool-cases (sv.audit_log entry w.services).exhausted) [
        | inl lost ↦ simp (audit_allow, s.claims_are, lost) (ended (grant_lost s.reached))
        | inr kept ↦
            simp (audit_allow, s.claims_are, kept)
              (went (advance s (persist (accepts entry w.services kept) refl refl s.reached)))
      ]

  forward_answer-Settles :
      (c : Ctx Json) (w : World St) (a : Answer (Upstream Json) × St)
      → (s : Standing rules persisted c w.calls)
      → (sv.forward c.request s.user s.score w.services).0 ≡ a.0
      → Settles rules Answered (forward_answer sv rt s.user s.score c w a)
  unfolding forward_answer
  forward_answer-Settles c w (failed x, st) s e = ended (unreachable s.reached)
  forward_answer-Settles c w (gave up, st) s e = went (
    up.status,
    refl,
    record {
      user = s.user;
      score = s.score;
      tctx = s.tctx;
      path_is = s.path_is;
      claims_are = s.claims_are;
      score_is = s.score_is;
      ctx_is = s.ctx_is;
      reached = answer s.reached;
    },
    record {
      request = c.request;
      before = w.services;
      upstream = up;
      answered_with = e;
      status_is = refl;
      body_is = refl;
    },
  )

  pub proxy-Meets : Meets rules (Standing rules persisted) (proxy sv rt) Answered
  unfolding proxy
  proxy-Meets c w s =
      simp (proxy, s.claims_are, s.score_is)
        (forward_answer-Settles c w (sv.forward c.request s.user s.score w.services) s refl)

  pub bopla_strip-Meets :
      ((u : UserClaims) (n status : ℕ) (got : Option Json)
        → Given sv u n status got
        → rules.Shown u n status (sv.strip got rules.path u.roles))
      → Meets rules Answered (bopla_strip sv rt) Stripped
  unfolding bopla_strip
  bopla_strip-Meets shows c w (status, e, s, given) =
      simp (bopla_strip, s.claims_are)
        (went (
          status,
          e,
          record {
            user = s.user;
            score = s.score;
            tctx = s.tctx;
            path_is = s.path_is;
            claims_are = refl;
            score_is = s.score_is;
            ctx_is = s.ctx_is;
            reached = s.reached;
          },
          subst
              (λ path.
                rules.Shown s.user s.score status (sv.strip c.upstream_body path s.user.roles))
              (sym s.path_is) (shows s.user s.score status c.upstream_body given),
        ))

  record_answer-Settles :
      {Q : Ctx Json → List Call → Type 0} (status : ℕ) (c : Ctx Json) (w : World St)
      (a : Answer {0} Unit × St)
      → status < 400
      → (s : Standing rules (λ u n. answered u n status) c w.calls)
      → rules.Shown s.user s.score status c.stripped_body
      → Settles rules Q (record_answer sv rt s.tctx s.score status c w a)
  unfolding record_answer
  record_answer-Settles status c w (failed x, st) lt s shown = ended (not_recorded lt s.reached)
  record_answer-Settles status c w (gave done, st) lt s shown =
      ended (served_and_recorded lt shown s.reached)

  pub record_trust_context-Meets :
      {Q : Ctx Json → List Call → Type 0} → Meets rules Stripped (record_trust_context sv rt) Q
  unfolding record_trust_context record_for
  record_trust_context-Meets c w (status, e, s, shown) = elim (Bool-cases (ltb status 400)) [
    | inl fine ↦
        simp (record_trust_context, e, fine, s.ctx_is, s.score_is, record_for)
          (record_answer-Settles status c w (sv.record_trust_context s.tctx s.score w.services)
            (ground arith) s shown)
    | inr bad ↦ simp (record_trust_context, e, bad) (ended (served (ground arith) shown s.reached))
  ]

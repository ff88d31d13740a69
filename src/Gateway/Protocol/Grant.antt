-- ===== src/Gateway/Protocol/Grant.antt =====
-- src/gateway/pipeline and src/gateway/gateway.middleware.ts: the whole pipeline follows the
-- protocol, and what that says of the replies.
use zt_access_gateway.Common.{ℕ, String, ◌≡◌, refl, sym, subst, false, Option, List, [], ◌∷◌}
use zt_access_gateway.Gateway.{
  Runtime, Services, Ctx, Call, World, Outcome, Stage, continue_on, bypass, short_circuit, proxied,
  returned, raised,
}
use zt_access_gateway.Gateway.Stages.Pow.{trigger_of}
use zt_access_gateway.Gateway.Middleware.{after_stage, run, pipeline_stages}
use zt_access_gateway.Gateway.Protocol.Endings.{Ended}
use zt_access_gateway.Gateway.Protocol.{
  Rules, identified, cleared, rated, worked, permitted, persisted,
}
use zt_access_gateway.Gateway.Protocol.Stages.{
  After, Standing, Outset, Open, Gated, Known, Full, Ruled, Meets, public_bypass-Meets,
  honeypot_bypass-Meets, auth-Meets, revocation-Meets, auth_only-Meets, went, ended,
}
use zt_access_gateway.Gateway.Protocol.Stages.Gates.{
  trust_score-Meets, policy-Meets, hashcash-Meets,
}
use zt_access_gateway.Gateway.Protocol.Stages.Promotion.{mfa_stage-Meets}
use zt_access_gateway.Gateway.Protocol.Stages.Forwarding.{
  Given, Answered, Stripped, audit_allow-Meets, proxy-Meets, bopla_strip-Meets,
  record_trust_context-Meets,
}

module _ {Json St : Type 0} (sv : Services Json St) (rt : Runtime Json) (trigger : Option ℕ) where
  -- The rules of this gateway for a path: an entry counts as written if the audit service has
  -- accepted it, and a body may be shown if it is what the strip of the path makes, for the user's
  -- roles, of the body that the proxy gave for that user and score with that status.
  abbrev pub rules_of : String → Rules Json
  rules_of path = record {
    path = path;
    trigger = trigger_of sv rt trigger;
    Written = λ entry. (st : St) × ((sv.audit_log entry st).exhausted ≡ false);
    Shown = λ u n status body.
        (got : Option Json) × Given sv u n status got × (body ≡ sv.strip got path u.roles);
  }

  -- A list of stages that ends the request according to the protocol.
  abbrev pub Finishes :
      Rules Json → (Ctx Json → List Call → Type 0) → List (String × Stage Json St) → Type 0
  Finishes k P stages =
      (c : Ctx Json) (w : World St)
      → P c w.calls
      → Ended k (run sv rt trigger stages c w).outcome (run sv rt trigger stages c w).world.calls

  run-Finishes :
      (k : Rules Json) (P Q : Ctx Json → List Call → Type 0) (id : String) (s : Stage Json St)
      (rest : List (String × Stage Json St))
      → Meets k P s Q
      → Finishes k Q rest
      → Finishes k P ((id, s) ∷ rest)
  unfolding run after_stage
  run-Finishes k P Q id s rest meets later c w p =
      go (s c w).outcome (s c w).ctx (s c w).world (s c w).world.calls refl (meets c w p)
    where
      joined : Outcome Json → Stage Json St
      joined = after_stage sv rt trigger id (run sv rt trigger rest)

      impossible : {t : List Call} → Ended {Json = Json} k (returned continue_on) t → ⊥
      impossible h = elim h [ ]

      go :
          (o : Outcome Json) (c' : Ctx Json) (w' : World St) (t : List Call)
          → w'.calls ≡ t
          → After k Q o c' t
          → Ended k (joined o c' w').outcome (joined o c' w').world.calls
      go o c' w' t e (went q) = later c' _ (subst (Q c') (sym e) q)
      go (raised x) c' w' t e (ended h) = subst (Ended _ (raised x)) (sym e) h
      go (returned continue_on) c' w' t e (ended h) = absurd (impossible h)
      go (returned bypass) c' w' t e (ended h) = subst (Ended _ (returned bypass)) (sym e) h
      go (returned (short_circuit status body headers)) c' w' t e (ended h) =
          subst (Ended _ (returned (short_circuit status body headers))) (sym e) h
      go (returned (proxied status body)) c' w' t e (ended h) =
          subst (Ended _ (returned (proxied status body))) (sym e) h

  pub pipeline-Ended :
      (c : Ctx Json) (w : World St)
      → w.calls ≡ []
      → Ended
          (rules_of c.req_path)
          (run sv rt trigger (pipeline_stages sv rt trigger) c w).outcome
          (run sv rt trigger (pipeline_stages sv rt trigger) c w).world.calls
  unfolding pipeline_stages
  pipeline-Ended c w empty =
      let k = rules_of c.req_path in
      let steps : Finishes k (Outset k) (pipeline_stages sv rt trigger) =
        run-Finishes k (Outset k) (Open k) "public_bypass" _ _ (public_bypass-Meets sv rt k) (
          run-Finishes k (Open k) (Gated k) "honeypot_bypass" _ _ (honeypot_bypass-Meets sv rt k) (
            run-Finishes k (Gated k) (Known k identified) "auth" _ _ (auth-Meets sv rt k) (
              run-Finishes k (Known k identified) (Known k cleared) "revocation" _ _
                (revocation-Meets sv rt k)
                (run-Finishes k (Known k cleared) (Full k) "auth_only" _ _ (auth_only-Meets sv rt k)
                  (run-Finishes k (Full k) (Standing k rated) "trust_score" _ _
                    (trust_score-Meets sv rt k)
                    (run-Finishes k (Standing k rated) (Standing k worked) "hashcash" _ _
                      (hashcash-Meets sv rt k trigger refl)
                      (run-Finishes k (Standing k worked) (Ruled k) "policy" _ _
                        (policy-Meets sv rt k)
                        (run-Finishes k (Ruled k) (Standing k permitted) "mfa_promotion" _ _
                          (mfa_stage-Meets sv rt k)
                          (run-Finishes k (Standing k permitted) (Standing k persisted)
                            "audit_allow" _ _
                            (audit_allow-Meets sv rt k (λ entry st kept. (st, kept)))
                            (run-Finishes k (Standing k persisted) (Answered sv rt k) "proxy" _ _
                              (proxy-Meets sv rt k)
                              (run-Finishes k (Answered sv rt k) (Stripped sv rt k) "bopla_strip" _
                                _
                                (bopla_strip-Meets sv rt k
                                  (λ u n status got given. (got, given, refl)))
                                (run-Finishes k (Stripped sv rt k) (λ c' t. ⊥)
                                  "record_trust_context" _ _ (record_trust_context-Meets sv rt k)
                                  (λ c' w' never. absurd never))))))))))))) in
      steps c w (refl, empty)

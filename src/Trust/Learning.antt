-- ===== src/Trust/Learning.antt =====
-- src/trust-score/trust-telemetry.repository.ts: what the recorded outcomes add up to.
use zt_access_gateway.Common.{
  ℕ, zero, suc, ◌+◌, ◌<◌, String, ◌≡◌, refl, ap, inl, inr, Bool, true, ◌&&◌, List, [], ◌∷◌, arith,
  ◌==◌, eq_iff, leb, if◌then◌else◌, Bool-cases, All,
}
use zt_access_gateway.Int.{pos}
use zt_access_gateway.Policy.Evaluator.{TrustContext}
use zt_access_gateway.Trust.Signals.{TrustConfig, minus, device_reputation, evaluate_rule}
use zt_access_gateway.Trust.{
  Floats, TrustSignalRow, Telemetry, utc_hour, bump, pad, is_row, get_signal_row,
  sum_allows_for_user_ip, count_allows_for_user_device_ip, next_row, first_row, upsert_signal_row,
  record_allow_outcome, count_activity_since,
}

-- An outcome as it is recorded: the context, the final score, and the times of the request and of
-- the database.
abbrev pub Outcome : Type 0
Outcome = TrustContext × ℕ × ℕ × ℕ

abbrev total : List ℕ → ℕ
total [] = 0
total (n ∷ ns) = n + total ns

total-bump : (h : ℕ) (hist : List ℕ) → total (bump h hist) ≡ suc (total hist)
unfolding bump
total-bump zero [] = refl
total-bump zero (n ∷ hist) = omega arith
total-bump (suc h) [] = omega (arith, total-bump h [])
total-bump (suc h) (n ∷ hist) = omega (arith, total-bump h hist)

total-pad : (slots : ℕ) (hist : List ℕ) → total (pad slots hist) ≡ total hist
unfolding pad
total-pad zero hist = refl
total-pad (suc slots) [] = omega (arith, total-pad slots [])
total-pad (suc slots) (n ∷ hist) = omega (arith, total-pad slots hist)

module _ {F : Type 0} (fl : Floats F) where
  abbrev pub occurs_in : String → String → String → List Outcome → ℕ
  occurs_in user device ip [] = 0
  occurs_in user device ip ((ctx, score, ts, db_now) ∷ rest) =
      if ctx.user_id == user && ctx.device_id == device && ctx.ip == ip
      then suc (occurs_in user device ip rest)
      else occurs_in user device ip rest

  unfoldable pub record_all : List Outcome → Telemetry F → Telemetry F
  record_all [] tables = tables
  record_all ((ctx, score, ts, db_now) ∷ rest) tables =
      record_all rest (record_allow_outcome fl ctx score ts db_now tables)

  -- In every row the histogram adds up to the count of allowed requests.
  abbrev pub IsCounted : List (TrustSignalRow F) → Type 0
  IsCounted rows = All (λ row. total row.hour_histogram ≡ row.allow_count) rows

  upsert-IsCounted :
      (ctx : TrustContext) (ts : ℕ) (rows : List (TrustSignalRow F))
      → IsCounted rows
      → IsCounted (upsert_signal_row fl ctx ts rows)
  unfolding upsert_signal_row next_row first_row
  upsert-IsCounted ctx ts [] h =
      (omega (arith, total-bump (utc_hour ts) (pad 24 []), total-pad 24 []), tt)
  upsert-IsCounted ctx ts (row ∷ rows) h =
      elim (Bool-cases (is_row ctx.user_id ctx.device_id ctx.ip row)) [
        | inl here ↦ rw here (
          omega (
            arith,
            total-bump (utc_hour ts) (pad 24 row.hour_histogram),
            total-pad 24 row.hour_histogram,
            h.0,
          ),
          h.1,
        )
        | inr there ↦ rw there (h.0, upsert-IsCounted ctx ts rows h.1)
      ]

  -- The row of a context carries the context's own names.
  is_row-same :
      (ctx : TrustContext) (row : TrustSignalRow F)
      → is_row ctx.user_id ctx.device_id ctx.ip row ≡ true
      → (row.user_id ≡ ctx.user_id) × (row.device_id ≡ ctx.device_id) × (row.ip ≡ ctx.ip)
  unfolding is_row
  is_row-same ctx row h = (
    ground (arith, eq_iff row.user_id ctx.user_id),
    ground (arith, eq_iff row.device_id ctx.device_id),
    ground (arith, eq_iff row.ip ctx.ip),
  )

  upsert-count :
      (ctx : TrustContext) (ts : ℕ) (user device ip : String) (rows : List (TrustSignalRow F))
      → count_allows_for_user_device_ip user device ip (upsert_signal_row fl ctx ts rows) ≡ (
          if ctx.user_id == user && ctx.device_id == device && ctx.ip == ip
          then suc (count_allows_for_user_device_ip user device ip rows)
          else count_allows_for_user_device_ip user device ip rows)
  unfolding count_allows_for_user_device_ip get_signal_row upsert_signal_row is_row next_row
      first_row
  upsert-count ctx ts user device ip [] = ground arith
  upsert-count ctx ts user device ip (row ∷ rows) =
      elim (Bool-cases (is_row ctx.user_id ctx.device_id ctx.ip row)) [
        | inl here ↦
            let (u, d, i) = is_row-same ctx row here in
            ground (arith, ap (λ x. x == user) u, ap (λ x. x == device) d, ap (λ x. x == ip) i)
        | inr there ↦ elim (Bool-cases (is_row user device ip row)) [
          | inr other ↦ ground (arith, upsert-count ctx ts user device ip rows)
          | inl mine ↦ ground (
            arith,
            eq_iff row.user_id user,
            eq_iff row.device_id device,
            eq_iff row.ip ip,
            eq_iff ctx.user_id user,
            eq_iff ctx.device_id device,
            eq_iff ctx.ip ip,
            eq_iff row.user_id ctx.user_id,
            eq_iff row.device_id ctx.device_id,
            eq_iff row.ip ctx.ip,
          )
        ]
      ]

  upsert-sum :
      (ctx : TrustContext) (ts : ℕ) (user ip : String) (rows : List (TrustSignalRow F))
      → sum_allows_for_user_ip user ip (upsert_signal_row fl ctx ts rows) ≡ (
          if ctx.user_id == user && ctx.ip == ip
          then suc (sum_allows_for_user_ip user ip rows)
          else sum_allows_for_user_ip user ip rows)
  unfolding sum_allows_for_user_ip upsert_signal_row is_row next_row first_row
  upsert-sum ctx ts user ip [] = ground arith
  upsert-sum ctx ts user ip (row ∷ rows) =
      elim (Bool-cases (is_row ctx.user_id ctx.device_id ctx.ip row)) [
        | inl here ↦
            let (u, d, i) = is_row-same ctx row here in
            ground (arith, ap (λ x. x == user) u, ap (λ x. x == ip) i)
        | inr there ↦ ground (arith, upsert-sum ctx ts user ip rows)
      ]

  -- Each recorded outcome adds one to the count of its user, device and address, one to the sum of
  -- its user and address over all devices, and one to the user's activity since any time before the database's clock;
  -- it changes no other count, and every histogram goes on adding up to its row's count.
  pub record_allow_outcome-counts :
      (ctx : TrustContext) (score ts db_now : ℕ) (tables : Telemetry F) (user device ip : String)
      (since : ℕ)
      → since < db_now
      → IsCounted tables.signals
      → let after = record_allow_outcome fl ctx score ts db_now tables in
        let one = λ (b : Bool) (n : ℕ). if b then suc n else n in
        IsCounted after.signals
        × (count_allows_for_user_device_ip user device ip after.signals
            ≡ one
                (ctx.user_id == user && ctx.device_id == device && ctx.ip == ip)
                (count_allows_for_user_device_ip user device ip tables.signals))
        × (sum_allows_for_user_ip user ip after.signals
            ≡ one
                (ctx.user_id == user && ctx.ip == ip)
                (sum_allows_for_user_ip user ip tables.signals))
        × (count_activity_since user since after.activity
            ≡ one (ctx.user_id == user) (count_activity_since user since tables.activity))
  unfolding record_allow_outcome count_activity_since
  record_allow_outcome-counts ctx score ts db_now tables user device ip since late counted = (
    upsert-IsCounted ctx ts tables.signals counted,
    upsert-count ctx ts user device ip tables.signals,
    upsert-sum ctx ts user ip tables.signals,
    ground arith,
  )

  record_all-count :
      (outcomes : List Outcome) (tables : Telemetry F) (user device ip : String)
      → count_allows_for_user_device_ip user device ip (record_all outcomes tables).signals
        ≡ occurs_in user device ip outcomes
          + count_allows_for_user_device_ip user device ip tables.signals
  unfolding record_all record_allow_outcome
  record_all-count [] tables user device ip = omega arith
  record_all-count ((ctx, score, ts, db_now) ∷ rest) tables user device ip =
      rw
        (
          record_all-count rest (record_allow_outcome fl ctx score ts db_now tables) user device ip,
          upsert-count ctx ts user device ip tables.signals,
        )
        (ground arith)

  -- However the recorded outcomes of other clients come in between, a device becomes known, and
  -- earns its 0.15, once as many outcomes of its user, device and address were recorded as the
  -- configured threshold, and is unknown before.
  pub record_all-device_known :
      (cfg : TrustConfig) (outcomes : List Outcome) (ctx : TrustContext) (now : ℕ)
      → let tables = record_all outcomes (record { signals = []; activity = [] }) in
        (evaluate_rule device_reputation tables cfg ctx now).delta ≡ (
          if leb cfg.known_threshold (occurs_in ctx.user_id ctx.device_id ctx.ip outcomes)
          then minus 150000
          else pos 150000)
  unfolding evaluate_rule
  record_all-device_known cfg outcomes ctx now =
      let empty : Telemetry F = record { signals = []; activity = [] } in
      let none_yet : count_allows_for_user_device_ip {F = F} ctx.user_id ctx.device_id ctx.ip []
          ≡ 0 =
        unfold count_allows_for_user_device_ip get_signal_row in refl in
      let count = record_all-count outcomes empty ctx.user_id ctx.device_id ctx.ip in
      ground (arith, count, none_yet)

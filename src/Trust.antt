-- ===== src/Trust.antt =====
-- src/trust-score/trust-telemetry.repository.ts: the two tables. Times are in milliseconds. The
-- type of floats and their arithmetic are a parameter. A null or empty fingerprint is `none`.
pub mod Signals
pub mod Score
pub mod Range
pub mod Learning
use zt_access_gateway.Common.{
  ℕ, zero, suc, ◌+◌, ◌-◌, ◌/◌, ◌%◌, max, String, Bool, ◌&&◌, Option, none, some, List, [], ◌∷◌,
  ◌==◌, ltb, nat_eq, if◌then◌else◌,
}
use zt_access_gateway.Policy.Evaluator.{TrustContext}

-- Floats and their arithmetic.
pub record Floats (F : Type 0) : Type 0 where
  pub of_nat : ℕ → F
  pub add : F → F → F
  pub sub : F → F → F
  pub mul : F → F → F
  pub div : F → F → F
  pub sqrt : F → F
  pub exp : F → F
  pub abs : F → F
  pub less : F → F → Bool
  -- The float in millionths, rounded to a natural number; 0 below 0.
  pub to_micro : F → ℕ

pub record TrustSignalRow (F : Type 0) : Type 0 where
  pub user_id : String
  pub device_id : String
  pub ip : String
  pub ja4h : Option String
  pub first_seen_at : ℕ
  pub last_seen_at : ℕ
  pub allow_count : ℕ
  pub hour_histogram : List ℕ
  pub rate_ema : F
  pub rate_ema_var : F
  pub anomaly_observations : ℕ

pub record ActivityRow : Type 0 where
  pub user_id : String
  pub score : ℕ
  pub ts : ℕ

pub record Telemetry (F : Type 0) : Type 0 where
  pub signals : List (TrustSignalRow F)
  pub activity : List ActivityRow

-- `getUTCHours`
abbrev pub utc_hour : ℕ → ℕ
utc_hour ts = ts / 3600000 % 24

abbrev pub non_empty_fp : String → Option String
non_empty_fp fp = if fp == "" then none else some fp

-- `while (hist.length < 24) hist.push(0)` and adding 1 at the hour; `more` slots are left to fill.
unfoldable pub bump : ℕ → List ℕ → List ℕ
bump zero [] = 1 ∷ []
bump zero (n ∷ hist) = suc n ∷ hist
bump (suc h) [] = 0 ∷ bump h []
bump (suc h) (n ∷ hist) = n ∷ bump h hist

unfoldable pub pad : ℕ → List ℕ → List ℕ
pad zero hist = hist
pad (suc slots) [] = 0 ∷ pad slots []
pad (suc slots) (n ∷ hist) = n ∷ pad slots hist

module _ {F : Type 0} where
  unfoldable pub is_row : String → String → String → TrustSignalRow F → Bool
  is_row user device ip row = row.user_id == user && row.device_id == device && row.ip == ip

  unfoldable pub get_signal_row :
      String → String → String → List (TrustSignalRow F) → Option (TrustSignalRow F)
  unfolding is_row
  get_signal_row user device ip [] = none
  get_signal_row user device ip (row ∷ rows) =
      let later = get_signal_row user device ip rows in
      if is_row user device ip row then some row else later

  unfoldable pub sum_allows_for_user_ip : String → String → List (TrustSignalRow F) → ℕ
  sum_allows_for_user_ip user ip [] = 0
  sum_allows_for_user_ip user ip (row ∷ rows) =
      let rest = sum_allows_for_user_ip user ip rows in
      if row.user_id == user && row.ip == ip then row.allow_count + rest else rest

  unfoldable pub count_allows_for_user_device_ip :
      String → String → String → List (TrustSignalRow F) → ℕ
  unfolding get_signal_row
  count_allows_for_user_device_ip user device ip rows = elim (get_signal_row user device ip rows) [
    | none ↦ 0
    | some row ↦ row.allow_count
  ]

  -- `60000 / interMs`, with an interval of at least 1.
  unfoldable pub inst_rate : Floats F → ℕ → ℕ → F
  inst_rate fl ts last_seen_at = fl.div (fl.of_nat 60000) (fl.of_nat (max 1 (ts - last_seen_at)))

  -- The running mean and variance after the n-th observation.
  unfoldable pub new_mean : Floats F → F → F → ℕ → F
  new_mean fl prev inst n = fl.add prev (fl.div (fl.sub inst prev) (fl.of_nat n))

  unfoldable pub new_var : Floats F → F → F → F → ℕ → F
  unfolding new_mean
  new_var fl prev var inst n =
      if nat_eq n 1
      then fl.of_nat 0
      else fl.div
          (fl.add (fl.mul (fl.sub (fl.of_nat n) (fl.of_nat 2)) var)
            (fl.mul (fl.sub inst prev) (fl.sub inst (new_mean fl prev inst n))))
          (fl.of_nat (n - 1))

  -- `first_seen_at = LEAST(old, new)` and `ja4h = COALESCE(new, old)`.
  unfoldable pub next_row : Floats F → TrustContext → ℕ → TrustSignalRow F → TrustSignalRow F
  unfolding bump pad
  next_row fl ctx ts row =
      let n = row.anomaly_observations + 1 in
      let inst = inst_rate fl ts row.last_seen_at in
      record {
        user_id = row.user_id;
        device_id = row.device_id;
        ip = row.ip;
        ja4h = elim (non_empty_fp ctx.ja4h) [ none ↦ row.ja4h | some fp ↦ some fp ];
        first_seen_at = row.first_seen_at;
        last_seen_at = ts;
        allow_count = row.allow_count + 1;
        hour_histogram = bump (utc_hour ts) (pad 24 row.hour_histogram);
        rate_ema = new_mean fl row.rate_ema inst n;
        rate_ema_var = new_var fl row.rate_ema row.rate_ema_var inst n;
        anomaly_observations = n;
      }

  unfoldable pub first_row : Floats F → TrustContext → ℕ → TrustSignalRow F
  unfolding bump pad
  first_row fl ctx ts = record {
    user_id = ctx.user_id;
    device_id = ctx.device_id;
    ip = ctx.ip;
    ja4h = non_empty_fp ctx.ja4h;
    first_seen_at = ts;
    last_seen_at = ts;
    allow_count = 1;
    hour_histogram = bump (utc_hour ts) (pad 24 []);
    rate_ema = fl.of_nat 0;
    rate_ema_var = fl.of_nat 0;
    anomaly_observations = 1;
  }

  -- The row is read for update and written back in one transaction.
  unfoldable pub upsert_signal_row :
      Floats F → TrustContext → ℕ → List (TrustSignalRow F) → List (TrustSignalRow F)
  unfolding is_row next_row first_row
  upsert_signal_row fl ctx ts [] = first_row fl ctx ts ∷ []
  upsert_signal_row fl ctx ts (row ∷ rows) =
      let rest = upsert_signal_row fl ctx ts rows in
      if is_row ctx.user_id ctx.device_id ctx.ip row
      then next_row fl ctx ts row ∷ rows
      else row ∷ rest

  -- The database stamps the activity row with its own clock, `db_now`.
  unfoldable pub record_allow_outcome :
      Floats F → TrustContext → ℕ → ℕ → ℕ → Telemetry F → Telemetry F
  unfolding upsert_signal_row
  record_allow_outcome fl ctx final_score ts db_now tables = record {
    signals = upsert_signal_row fl ctx ts tables.signals;
    activity = record { user_id = ctx.user_id; score = final_score; ts = db_now } ∷ tables.activity;
  }

unfoldable pub count_activity_since : String → ℕ → List ActivityRow → ℕ
count_activity_since user since [] = 0
count_activity_since user since (row ∷ rows) =
    let n = count_activity_since user since rows in
    if row.user_id == user && ltb since row.ts then suc n else n

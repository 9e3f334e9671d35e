-- ===== src/Metrics/Counters.antt =====
-- The counters of _metrics.py: `_DailyAgg`, `_HourlyAgg`, and the tables that hold them per time and
-- upstream. The samples of values are left out.
use credential_proxy.Prelude.{ℕ, ◌+◌, Bool, ◌&&◌, List, [], ◌∷◌, Text, Dict, if◌then◌else◌, text_eq}

-- `d[k] = d.get(k, 0) + n`
unfoldable pub bump : Text → ℕ → Dict ℕ → Dict ℕ
bump k n [] = (k, n) ∷ []
bump k n ((j, m) ∷ d) =
    let rest = bump k n d in if text_eq k j then (j, m + n) ∷ d else (j, m) ∷ rest

-- `for k, v in src.items(): d[k] = d.get(k, 0) + v`
unfoldable pub bump_all : Dict ℕ → Dict ℕ → Dict ℕ
unfolding bump
bump_all [] d = d
bump_all ((k, n) ∷ src) d = bump_all src (bump k n d)

-- `target.setdefault(model, {})` with the counts of one model added.
unfoldable pub merge_model : Text → Dict ℕ → Dict (Dict ℕ) → Dict (Dict ℕ)
unfolding bump_all
merge_model model u [] = (model, bump_all u []) ∷ []
merge_model model u ((m, t) ∷ target) =
    let rest = merge_model model u target in
    if text_eq model m then (m, bump_all u t) ∷ target else (m, t) ∷ rest

-- `_merge_tokens`
unfoldable pub merge_tokens : Dict (Dict ℕ) → Dict (Dict ℕ) → Dict (Dict ℕ)
unfolding merge_model
merge_tokens [] target = target
merge_tokens ((model, u) ∷ src) target = merge_tokens src (merge_model model u target)

-- `_DailyAgg`
pub record Daily : Type 0 where
  pub pii_by_type : Dict ℕ
  pub pii_hits : ℕ
  pub pii_miss : ℕ
  pub pii_requests : ℕ
  pub cred_hits : ℕ
  pub cred_miss : ℕ
  pub cred_lru_evictions : ℕ
  pub pii_lru_evictions : ℕ
  pub requests : ℕ
  pub requests_by_status : Dict ℕ
  pub tokens : Dict (Dict ℕ)
  pub audit_by_verdict : Dict ℕ
  pub audit_by_rule : Dict ℕ
  pub latency_counts : Dict ℕ
  pub placeholder_prompt_injected : ℕ
  pub truncated_total : ℕ
  pub json_aware_success : ℕ
  pub json_leaf_fallback : ℕ
  pub json_full_fallback : ℕ

-- `_HourlyAgg`
pub record Hourly : Type 0 where
  pub requests : ℕ
  pub requests_by_status : Dict ℕ
  pub tokens : Dict (Dict ℕ)
  pub latency_counts : Dict ℕ
  pub pii_by_type : Dict ℕ
  pub pii_hits : ℕ
  pub pii_miss : ℕ
  pub pii_requests : ℕ
  pub pii_lru_evictions : ℕ
  pub cred_lru_evictions : ℕ

unfoldable pub new_daily : Daily
new_daily = record {
  pii_by_type = [];
  pii_hits = 0;
  pii_miss = 0;
  pii_requests = 0;
  cred_hits = 0;
  cred_miss = 0;
  cred_lru_evictions = 0;
  pii_lru_evictions = 0;
  requests = 0;
  requests_by_status = [];
  tokens = [];
  audit_by_verdict = [];
  audit_by_rule = [];
  latency_counts = [];
  placeholder_prompt_injected = 0;
  truncated_total = 0;
  json_aware_success = 0;
  json_leaf_fallback = 0;
  json_full_fallback = 0;
}

unfoldable pub new_hourly : Hourly
new_hourly = record {
  requests = 0;
  requests_by_status = [];
  tokens = [];
  latency_counts = [];
  pii_by_type = [];
  pii_hits = 0;
  pii_miss = 0;
  pii_requests = 0;
  pii_lru_evictions = 0;
  cred_lru_evictions = 0;
}

-- A table by time and upstream.
abbrev pub Table : Type 0 → Type 0
Table V = List ((Text × Text) × V)

abbrev pub key_eq : Text × Text → Text × Text → Bool
key_eq k j = text_eq k.0 j.0 && text_eq k.1 j.1

-- `table.setdefault(key, new)`, and the entry changed.
unfoldable pub update_at : {V : Type 0} → V → Text × Text → (V → V) → Table V → Table V
unfolding text_eq
update_at new key f [] = (key, f new) ∷ []
update_at new key f ((k, v) ∷ t) =
    let rest = update_at new key f t in if key_eq key k then (k, f v) ∷ t else (k, v) ∷ rest

-- ===== src/Examples/Services.antt =====
-- Limits, scans, files and administration on concrete rows.
use oss_us_web_design_system.Base.{
  ℕ, suc, ◌+◌, ◌-◌, ◌≤◌, ◌≡◌, ◌≢◌, ◌∙◌, refl, sym, min, Bool, true, false, Option, none, some, List,
  [], ◌∷◌, ok, Text, codes, text_eq, text_eq_sound, text_eq_refl, if◌then◌else◌, ◌==◌, length,
  strip, AllPass, Bool-cases, inl, inr,
}
use oss_us_web_design_system.Limits.{Redis, Request, RateSettings, rate_key}
use oss_us_web_design_system.Limits.Laws.{IsUp, asked, passed, passed-dispatch}
use oss_us_web_design_system.Compliance.Inventory.{Dependency, InventoryDb, RemediationDb}
use oss_us_web_design_system.Compliance.Inventory.Laws.{
  is_justified, RemediationCall, propose, run_remediations, run_remediations-AllPass,
}
use oss_us_web_design_system.Files.{
  FileObject, FileDb, store_file, read_bytes, get_file, org_usage, is_empty_text,
}
use oss_us_web_design_system.Files.Laws.{store_file-read_bytes}

-- A Redis that is always up: a function from keys to counters.
abbrev pub bump : Text → (Text → ℕ) → Text → ℕ
bump k s j = if text_eq j k then suc (s k) else s j

pub bump-other : (j k : Text) (s : Text → ℕ) → j ≢ k → bump k s j ≡ s j
bump-other j k s d = elim (Bool-cases (text_eq j k)) [
  | inl e ↦ absurd (d (text_eq_sound j k e))
  | inr e ↦ rw e refl
]

pub bump-same : (k : Text) (s : Text → ℕ) → bump k s k ≡ suc (s k)
bump-same k s = rw (text_eq_refl k) refl

pub some-injective : {a b : ℕ} → Option.some a ≡ some b → a ≡ b
some-injective h = cc

abbrev pub memory_redis : Redis
memory_redis = record {
  Store = Text → ℕ;
  incr = λ k s. (some (suc (s k)), bump k s);
  expire = λ _ _ s. (true, s);
  ttl = λ _ _. some 30;
  count = λ k s. s k;
  incr_reply = λ k s e. (sym (some-injective e), bump-same k s ∙ some-injective e);
  incr_other = bump-other;
  expire_count = λ _ _ _ _. refl;
}

memory_redis-IsUp : IsUp memory_redis
unfolding IsUp
memory_redis-IsUp = (λ k s. refl, λ k w s. refl)

abbrev rate_settings : RateSettings
rate_settings = record { rate_limit_window_seconds = 60; rate_limit_requests = 2 }

abbrev request : Request
request = record {
  path = codes "/api/x";
  x_forwarded_for = none;
  client_host = some (codes "10.0.0.1");
}

abbrev requests : List (ℕ × Request)
requests =
    (61, request)
    ∷ (62, request)
    ∷ (63, request)
    ∷ (64, record request { path = codes "/healthz" })
    ∷ []

passed-dispatch_example :
    passed memory_redis rate_settings (rate_key rate_settings 61 request) requests (λ _. 0)
    ≡ min (asked memory_redis rate_settings (rate_key rate_settings 61 request) requests) (2 - 0)
passed-dispatch_example =
    passed-dispatch memory_redis rate_settings (rate_key rate_settings 61 request) memory_redis-IsUp
      requests (λ _. 0)

abbrev dependencies : List Dependency
dependencies =
    record {
      name = codes "fastapi";
      version = codes "1";
      vulns = record { id = none; description = none; fix_versions = [] } ∷ [];
    }
    ∷ record { name = codes "idna"; version = codes "3"; vulns = [] }
    ∷ []

abbrev no_scans : InventoryDb
no_scans = record { runs = []; items = []; findings = []; next_run_id = 1 }

abbrev latest : Text → Option Text
latest _ = some (codes "2")

abbrev direct : Text → Bool
direct name = text_eq name (codes "fastapi")

abbrev no_proposals : RemediationDb
no_proposals = record { proposals = []; next_id = 1 }

abbrev remediation_calls : List RemediationCall
remediation_calls = propose true true 5 (codes "idna") (codes "3") (codes "4") "minor" none ∷ []

run_remediations-AllPass_example :
    AllPass is_justified (run_remediations remediation_calls no_proposals).proposals
run_remediations-AllPass_example = run_remediations-AllPass remediation_calls no_proposals tt

abbrev two_bytes : List ℕ
two_bytes = 1 ∷ 2 ∷ []

abbrev no_files : FileDb
no_files = record { objects = []; disk = []; next_id = 1 }

abbrev digest : List ℕ → Text
digest b = b

named_file : is_empty_text (strip (codes "a.txt")) ≡ false
unfolding strip
named_file = refl

store_file-read_bytes_example :
    let (r, db') =
      store_file digest 10
        (codes "k")
        7
        (some 1)
        (codes "a.txt")
        (codes "text/plain")
        two_bytes
        no_files in
    (obj : FileObject) × (r ≡ ok obj)
    × (read_bytes obj db' ≡ ok two_bytes)
    × (get_file obj.id 8 db' ≡ (if 7 == 8 then some obj else none))
    × ((org_usage 7 db').1 ≡ (org_usage 7 no_files).1 + length two_bytes)
    × (length two_bytes ≤ 10)
store_file-read_bytes_example =
    store_file-read_bytes digest 10 (codes "k") 7 (some 1) (codes "a.txt") (codes "text/plain")
      two_bytes no_files refl named_file 8 refl

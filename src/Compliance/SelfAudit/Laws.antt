-- ===== src/Compliance/SelfAudit/Laws.antt =====
-- The report of a run of the checks, and the check of the privileged accounts.
use oss_us_web_design_system.Base.{
  ℕ, ◌+◌, ◌≡◌, Bool, true, ◌||◌, Option, String, List, [], ◌∷◌, str_eq, ltb, any-append, ltb,
  any-append,
}
use oss_us_web_design_system.Auth.User.{User}
use oss_us_web_design_system.Compliance.SelfAudit.{Live}
use oss_us_web_design_system.Compliance.SelfAudit.Report.{Check, Counts, Finding, outcome_of}

unfoldable pub total : Counts → ℕ
total c = c.pass_count + c.fail_count + c.not_applicable_count + c.operator_responsibility_count

unfoldable pub is_outcome : String → Bool
is_outcome o =
    str_eq o "pass"
    || str_eq o "fail"
    || str_eq o "not_applicable"
    || str_eq o "operator_responsibility"
    || str_eq o "check_error"

IsCounted : Option String → Type 0
unfolding is_outcome outcome_of
IsCounted o = is_outcome (outcome_of o) ≡ true

unfoldable pub is_failure : Finding → Bool
is_failure f = str_eq f.outcome "fail" || str_eq f.outcome "check_error"

-- What a check is found to be: its control, its title, and its outcome.
unfoldable pub finding_of : Live → Check → Finding
unfolding outcome_of
finding_of live k = record {
  control_id = k.control_id;
  title = k.title;
  outcome = outcome_of (k.fn live);
}

-- The controls, in the order of the report.
abbrev pub controls : List String
controls =
    "AC-7" ∷ "AC-8" ∷ "AC-12" ∷ "AC-17" ∷ "AU-6" ∷ "AU-11" ∷ "IA-2(1)" ∷ "IA-5" ∷ "SC-7" ∷ "SC-12"
    ∷ "SI-2/SI-3" ∷ "SI-4/SI-7" ∷ []

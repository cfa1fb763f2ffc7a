-- ===== src/Compliance/Inventory/Laws.antt =====
-- The rows and counts of a scan, and who decides a remediation.
use oss_us_web_design_system.Base.{
  ℕ, ◌≡◌, refl, ap, Bool, true, not, ◌&&◌, ◌||◌, Option, none, some, String, List, [], ◌∷◌, length,
  filter, any, if◌then◌else◌, arith, Bool-cases, inl, inr, Text, str_eq, eq_iff, or_true, is_some,
  AllPass, append-AllPass, update_where-AllPass, ◌==◌,
}
use oss_us_web_design_system.Compliance.Inventory.{
  InventoryItem, Progress, is_stale, RemediationProposal, RemediationDb, propose_remediation,
  decide_remediation,
}

unfoldable pub stale_items : List InventoryItem → ℕ
stale_items items = length (filter (λ i. is_stale i.is_current) items)

unfoldable pub is_unknown : InventoryItem → Bool
is_unknown i = i.is_direct && not (is_some i.latest_stable_version)

-- The variables of the loop count the rows that it has added.
Counted : Progress → Type 0
Counted p =
    (p.vuln_count ≡ length p.findings)
    × (p.stale_count ≡ stale_items p.items)
    × (p.currency_degraded ≡ any is_unknown p.items)

and_last : (a b c : Bool) → (a && b && c) ≡ true → c ≡ true
and_last a b c h = ground arith

and_middle : (a b c : Bool) → (a && b && c) ≡ true → b ≡ true
and_middle a b c h = ground arith

-- A proposal that is applied without a person's decision was verified and is no major upgrade.
unfoldable pub is_justified : RemediationProposal → Bool
is_justified p =
    not (str_eq p.decision "auto_applied")
    || str_eq p.verification_status "verified"
      && (str_eq p.bump_kind "patch" || str_eq p.bump_kind "minor")
      && is_some p.decided_at

pub data RemediationCall : Type 0 where
  propose : Bool → Bool → ℕ → Text → Text → Text → String → Option Text → RemediationCall
  decide : ℕ → RemediationProposal → String → Option ℕ → RemediationCall

unfoldable pub run_remediation : RemediationCall → RemediationDb → RemediationDb
unfolding propose_remediation decide_remediation
run_remediation (propose auto_apply verified now name from to kind reason) db =
    (propose_remediation auto_apply verified now name from to kind reason db).1
run_remediation (decide now proposal decision user_id) db =
    (decide_remediation now proposal decision user_id db).1

unfoldable pub run_remediations : List RemediationCall → RemediationDb → RemediationDb
unfolding run_remediation
run_remediations [] db = db
run_remediations (c ∷ cs) db = run_remediations cs (run_remediation c db)

held-is_justified : (p : RemediationProposal) → p.decision ≡ "held" → is_justified p ≡ true
unfolding is_justified
held-is_justified p e = rw (is_justified, e) refl

applied-is_justified :
    (p : RemediationProposal)
    → p.verification_status ≡ "verified"
    → (str_eq p.bump_kind "patch" || str_eq p.bump_kind "minor") ≡ true
    → is_some p.decided_at ≡ true
    → is_justified p ≡ true
unfolding is_justified
applied-is_justified p a b c =
    rw (is_justified, a, b, c) (or_true (not (str_eq p.decision "auto_applied")))

decided-is_justified :
    (p : RemediationProposal)
    → (str_eq p.decision "approved" || str_eq p.decision "rejected") ≡ true
    → is_justified p ≡ true
unfolding is_justified
decided-is_justified p h = elim (Bool-cases (str_eq p.decision "approved")) [
  | inl e ↦
      let q : p.decision ≡ "approved" = (eq_iff p.decision "approved").0 e in
      rw (is_justified, q) refl
  | inr e ↦
      let f : str_eq p.decision "rejected" ≡ true = ground (arith, e) in
      let q : p.decision ≡ "rejected" = (eq_iff p.decision "rejected").0 f in
      rw (is_justified, q) refl
]

propose_remediation-is_justified :
    (auto_apply verified : Bool) (now : ℕ) (name from to : Text) (kind : String)
    (reason : Option Text) (db : RemediationDb)
    → is_justified (propose_remediation auto_apply verified now name from to kind reason db).0
      ≡ true
unfolding propose_remediation
propose_remediation-is_justified auto_apply verified now name from to kind reason db =
    let p = (propose_remediation auto_apply verified now name from to kind reason db).0 in
    elim (Bool-cases (auto_apply && (str_eq kind "patch" || str_eq kind "minor") && verified)) [
      | inr e ↦ held-is_justified p (ap (λ b. if b then "auto_applied" else "held") e)
      | inl e ↦
          let v : verified ≡ true =
            and_last auto_apply (str_eq kind "patch" || str_eq kind "minor") verified e in
          let k = and_middle auto_apply (str_eq kind "patch" || str_eq kind "minor") verified e in
          applied-is_justified p (ap (λ b. if b then "verified" else "failed") v) k
            (ap (λ b. is_some (if b then some now else none)) e)
    ]

run_remediation-AllPass :
    (c : RemediationCall) (db : RemediationDb)
    → AllPass is_justified db.proposals
    → AllPass is_justified (run_remediation c db).proposals
unfolding run_remediation propose_remediation decide_remediation
run_remediation-AllPass (propose auto_apply verified now name from to kind reason) db h =
    append-AllPass is_justified db.proposals h
      (propose_remediation-is_justified auto_apply verified now name from to kind reason db)
run_remediation-AllPass (decide now proposal decision user_id) db h =
    elim (Bool-cases (str_eq decision "approved" || str_eq decision "rejected")) [
      | inr e ↦ rw (run_remediation, decide_remediation, e) h
      | inl e ↦
          rw (run_remediation, decide_remediation, e)
            (update_where-AllPass is_justified (λ p. p.id == proposal.id) db.proposals h
              (decided-is_justified
                (record proposal {
                  decision = decision;
                  decided_by_user_id = user_id;
                  decided_at = some now;
                })
                e))
    ]

-- Over any calls that propose and decide remediations, every proposal that was applied without a
-- person's decision was verified and is a patch or a minor upgrade.
pub run_remediations-AllPass :
    (cs : List RemediationCall) (db : RemediationDb)
    → AllPass is_justified db.proposals
    → AllPass is_justified (run_remediations cs db).proposals
unfolding run_remediations
run_remediations-AllPass [] db h = h
run_remediations-AllPass (c ∷ cs) db h =
    run_remediations-AllPass cs _ (run_remediation-AllPass c db h)

-- ===== src/Compliance/Inventory/Rows.antt =====
-- The rows of a scan (app/compliance/inventory/service.py), as the report of pip-audit has them.
use oss_us_web_design_system.Base.{
  map, codes, ℕ, suc, ◌≡◌, refl, ap, none, some, List, [], ◌∷◌, ◌++◌, length, Text,
}
use oss_us_web_design_system.Compliance.Inventory.{
  finding_of, Vuln, Dependency, InventoryItem, VulnerabilityFinding, findings_of,
}

-- A stored component and a stored finding as the report has them.
unfoldable pub component_of : InventoryItem → ℕ × Text × Text
component_of i = (i.scan_run_id, i.name, i.installed_version)

unfoldable pub component : ℕ → Dependency → ℕ × Text × Text
component run_id dep = (run_id, dep.name, dep.version)

unfoldable pub advisory_of : VulnerabilityFinding → ℕ × Text × Text × Text
advisory_of f = (f.scan_run_id, f.component_name, f.installed_version, f.advisory_id)

-- The vulnerabilities of a report, in its order.
unfoldable pub advisories_of : ℕ → Dependency → List Vuln → List (ℕ × Text × Text × Text)
advisories_of run_id dep [] = []
advisories_of run_id dep (v ∷ vs) =
    (run_id, dep.name, dep.version, elim v.id [ none ↦ codes "unknown" | some i ↦ i ])
    ∷ advisories_of run_id dep vs

unfoldable pub advisories : ℕ → List Dependency → List (ℕ × Text × Text × Text)
unfolding advisories_of
advisories run_id [] = []
advisories run_id (dep ∷ deps) = advisories_of run_id dep dep.vulns ++ advisories run_id deps

pub findings_of-advisories :
    (run_id : ℕ) (dep : Dependency) (vs : List Vuln)
    → map advisory_of (findings_of run_id dep vs) ≡ advisories_of run_id dep vs
unfolding findings_of finding_of advisory_of advisories_of
findings_of-advisories run_id dep [] = refl
findings_of-advisories run_id dep (v ∷ vs) =
    ap (λ xs. advisory_of (finding_of run_id dep v) ∷ xs) (findings_of-advisories run_id dep vs)

pub map-append :
    {A B : Type 0} (f : A → B) (xs ys : List A) → map f (xs ++ ys) ≡ map f xs ++ map f ys
map-append f [] ys = refl
map-append f (x ∷ xs) ys = ap (λ zs. f x ∷ zs) (map-append f xs ys)

pub length-map : {A B : Type 0} (f : A → B) (xs : List A) → length (map f xs) ≡ length xs
length-map f [] = refl
length-map f (x ∷ xs) = ap suc (length-map f xs)

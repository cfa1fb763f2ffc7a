-- ===== src/Tenancy.antt =====
-- Tenant isolation (app/db.py): the organization bound to a request, the filter that every SELECT on
-- a tenant-scoped table gets, the organization that a new row gets, and the one query of the
-- assistant that unbinds it (`_select_own_org_or_shared`).
pub mod Laws
use oss_us_web_design_system.Base.{
  ℕ, Bool, true, false, ◌&&◌, ◌||◌, Option, none, some, List, [], ◌∷◌, filter, find?, ◌==◌,
  if◌then◌else◌, Action, ok, err, pure, ◌>>=◌, first,
}

module _ {A : Type 0} (org_of : A → ℕ) where
  -- `_filter_tenant_scoped_selects`: the rows that a query sees.
  unfoldable pub visible : Option ℕ → List A → List A
  visible none rows = rows
  visible (some org_id) rows = filter (λ r. org_of r == org_id) rows

  -- `select(model).where(...)` under the bound organization.
  unfoldable pub select_where : Option ℕ → (A → Bool) → List A → List A
  unfolding visible
  select_where current_org p rows = filter p (visible current_org rows)

  -- `scalar_one_or_none` of a query by a unique column.
  unfoldable pub select_one : Option ℕ → (A → Bool) → List A → Option A
  unfolding visible
  select_one current_org p rows = find? p (visible current_org rows)

  -- `session.execute` of such a query: the state is the organization that is bound, which the filter
  -- reads; `failure` is what the database raises, if it does.
  unfoldable pub execute :
      {E : Type 0} → Option E → (A → Bool) → List A → Action (Option ℕ) E (List A)
  unfolding select_where
  execute (some e) p rows current_org = (err e, current_org)
  execute none p rows current_org = (ok (select_where current_org p rows), current_org)

  -- `_select_own_org_or_shared`: the query runs with no organization bound, and the `finally` clause
  -- binds the saved one again, whether the query returns or raises.
  unfoldable pub select_own_org_or_shared :
      {E : Type 0} → (A → Bool) → ℕ → (A → Bool) → Option E → List A → Action (Option ℕ) E (List A)
  unfolding execute
  select_own_org_or_shared is_shared org_id extra failure rows saved_org =
      let (r, _) =
        execute failure (λ x. (org_of x == org_id || is_shared x) && extra x) rows none in
      (r, saved_org)

  -- `_get_own_org_or_shared_one`: the first of its rows.
  unfoldable pub get_own_org_or_shared_one :
      {E : Type 0}
      → (A → Bool)
      → (A → ℕ)
      → ℕ
      → ℕ
      → Option E
      → List A
      → Action (Option ℕ) E (Option A)
  unfolding select_own_org_or_shared
  get_own_org_or_shared_one is_shared id_of org_id resource_id failure rows =
      select_own_org_or_shared is_shared org_id (λ r. id_of r == resource_id) failure rows
      >>= λ found. pure (first found)

-- `_inject_org_on_insert`: an organization that was set before the flush stays.
unfoldable pub inject_org : Option ℕ → Option ℕ → Option ℕ
inject_org none given = given
inject_org (some org_id) (some given) = some given
inject_org (some org_id) none = some org_id

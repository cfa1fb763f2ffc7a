-- ===== src/Mcp/Laws.antt =====
-- Which connection a tool's name reaches.
use oss_us_web_design_system.Base.{
  ℕ, ◌≡◌, ◌≢◌, refl, ap, Bool, true, false, ◌&&◌, some, List, [], ◌∷◌, ◌++◌, Memᴰ, any, filter,
  ◌==◌, arith, Bool-cases, Option-cases, inl, inr, Text, text_eq, text_eq_sound, filter-Memᴰ,
}
use oss_us_web_design_system.Llm.Crypto.{Cipher, CryptoSettings}
use oss_us_web_design_system.Mcp.{
  Connection, ConnectionDb, Client, found, the_one, target, is_enabled_in, split_dot,
  qualified_name, call_connection, invoke_tool,
}

unfoldable pub has_dot : Text → Bool
has_dot name = any (λ c. c == 46) name

split_dot-qualified : (a b : Text) → has_dot a ≡ false → split_dot (a ++ 46 ∷ b) ≡ some (a, b)
unfolding has_dot split_dot
split_dot-qualified [] b h = refl
split_dot-qualified (c ∷ a) b h = elim (Bool-cases (c == 46)) [
  | inl e ↦ absurd (ground (arith, e))
  | inr e ↦ rw (e, split_dot-qualified a b (rw e at h)) refl
]

abbrev Parts : Text × Text → Text × Text → Type 0
Parts p q = some p ≡ some q

-- The part in front of the first dot has none, and the parts make up the text.
split_dot_sound :
    (s a b : Text) → split_dot s ≡ some (a, b) → (s ≡ qualified_name a b) × (has_dot a ≡ false)
unfolding split_dot has_dot qualified_name
split_dot_sound [] a b h = cc
split_dot_sound (c ∷ s) a b h = elim (Bool-cases (c == 46)) [
  | inl e ↦
      let q : Parts ([], s) (a, b) = rw e at h in
      let x : [] ≡ a = cc in
      let y : s ≡ b = cc in let z : c ≡ 46 = ground (arith, e) in rw (← x, ← y, z) (refl, refl)
  | inr e ↦ elim (Option-cases (split_dot s)) [
    | inl f ↦ absurd (ground (arith, e, f))
    | inr ((a', b'), f) ↦
        let (p, d) = split_dot_sound s a' b' f in
        let q : Parts (c ∷ a', b') (a, b) = rw (e, f) at h in
        let x : c ∷ a' ≡ a = cc in
        let y : b' ≡ b = cc in rw (← x, ← y, e, d) (ap (λ t. c ∷ t) p, refl)
  ]
]

the_one_sound :
    (tool tool' : Text) (cs : List Connection) (c : Connection)
    → the_one tool cs ≡ found c tool'
    → (cs ≡ c ∷ []) × (tool ≡ tool')
unfolding the_one
the_one_sound tool tool' [] c h = cc
the_one_sound tool tool' (c' ∷ []) c h =
    let x : c' ≡ c = cc in let y : tool ≡ tool' = cc in (ap (λ z. z ∷ []) x, y)
the_one_sound tool tool' (_ ∷ _ ∷ _) c h = cc

-- What a tool's name reaches is an enabled connection of the caller's organization, and the name is
-- the connection's, which has no dot, a dot, and the tool's.
pub target_sound :
    (org_id : ℕ) (name tool : Text) (db : ConnectionDb) (c : Connection)
    → target org_id name db ≡ found c tool
    → Memᴰ c db.connections
      × (c.organization_id ≡ org_id)
      × (c.enabled ≡ true)
      × (name ≡ qualified_name c.name tool)
      × (has_dot c.name ≡ false)
unfolding target is_enabled_in
target_sound org_id name tool db c h = elim (Option-cases (split_dot name)) [
  | inl e ↦ absurd (ground (arith, e))
  | inr ((a, b), e) ↦
      let p = λ (x : Connection). is_enabled_in org_id x && text_eq x.name a in
      let (q, t) = the_one_sound b tool (filter p db.connections) c (rw (target, e) at h) in
      let (m, k) = filter-Memᴰ p db.connections {x = c} (rw q (Memᴰ.head refl)) in
      let (w, d) = split_dot_sound name a b e in
      let n : text_eq c.name a ≡ true = ground arith in
      let z : c.name ≡ a = text_eq_sound c.name a n in
      (m, ground arith, ground arith, rw (z, ← t) w, rw z d)
]

-- A connection whose name has a dot is never reached, whatever the name that is asked for.
target_dotted :
    (org_id : ℕ) (name tool : Text) (db : ConnectionDb) (c : Connection)
    → has_dot c.name ≡ true
    → target org_id name db ≢ found c tool
target_dotted org_id name tool db c h t =
    let (m, o, e, n, d) = target_sound org_id name tool db c t in absurd (ground (arith, h, d))

module _ (cipher : Cipher) (s : CryptoSettings) (client : Client) where
  -- A tool that is listed for the model under the name of a connection without a dot is called on
  -- that connection, with its own name, when no other enabled connection of the organization has
  -- that name.
  pub invoke_tool-qualified_name :
      (org_id : ℕ) (c : Connection) (tool arguments : Text) (db : ConnectionDb)
      → has_dot c.name ≡ false
      → filter (λ x. is_enabled_in org_id x && text_eq x.name c.name) db.connections ≡ c ∷ []
      → invoke_tool cipher s client org_id (qualified_name c.name tool) arguments db
        ≡ call_connection cipher s client c tool arguments
  unfolding invoke_tool target the_one qualified_name
  invoke_tool-qualified_name org_id c tool arguments db d u =
      rw (invoke_tool, target, split_dot-qualified c.name tool d, u) refl

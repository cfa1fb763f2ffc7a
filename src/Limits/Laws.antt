-- ===== src/Limits/Laws.antt =====
-- How many requests a limiter lets through.
use oss_us_web_design_system.Base.{
  ℕ, suc, ◌-◌, ◌≡◌, ◌≢◌, refl, min, max, Bool, true, false, not, ◌&&◌, some, List, [], ◌∷◌, ◌==◌,
  ltb, if◌then◌else◌, arith, is_some, Bool-cases, Option-cases, inl, inr, Text, text_eq,
  text_eq_sound, text_eq_refl,
}
use oss_us_web_design_system.Limits.{
  Redis, Verdict, call_next, limited, Request, RateSettings, is_exempt, rate_key, judge,
  count_request, hit, dispatch,
}

text-distinct : (a b : Text) → text_eq a b ≡ false → b ≢ a
text-distinct a b t q =
    let u = text_eq_refl a in
    let v : text_eq a a ≡ false = rw q at t in absurd (ground (arith, u, v))

unfoldable pub is_passed : Verdict → Bool
is_passed call_next = true
is_passed (limited _) = false

module _ (redis : Redis) where
  -- Redis answers every command.
  unfoldable pub IsUp : Type 0
  IsUp =
      ((k : Text) (s : redis.Store) → is_some (redis.incr k s).0 ≡ true)
      × ((k : Text) (w : ℕ) (s : redis.Store) → (redis.expire k w s).0 ≡ true)

  count_request-reply :
      (up : IsUp) (key : Text) (window : ℕ) (s : redis.Store)
      → let (reply, s') = count_request redis key window s in
        (reply ≡ some (suc (redis.count key s))) × (redis.count key s' ≡ suc (redis.count key s))
  unfolding IsUp count_request
  count_request-reply up key window s = elim (Option-cases (redis.incr key s).0) [
    | inl e ↦ absurd (let u = up.0 key s in ground (arith, e))
    | inr (n, e) ↦
        let (a, b) = redis.incr_reply key s {n = n} e in
        elim (Bool-cases (n == 1)) [
          | inl f ↦
              let x = up.1 key window (redis.incr key s).1 in
              let y = redis.expire_count key key window (redis.incr key s).1 in
              rw (count_request, e, f, x, a, y, b) (refl, a)
          | inr f ↦ rw (count_request, e, f, a, b) (refl, a)
        ]
  ]

  count_request-other :
      (j key : Text) (window : ℕ) (s : redis.Store)
      → j ≢ key
      → redis.count j (count_request redis key window s).1 ≡ redis.count j s
  unfolding count_request
  count_request-other j key window s d =
      let o = redis.incr_other j key s d in
      elim (Option-cases (redis.incr key s).0) [
        | inl e ↦ rw (count_request, e) o
        | inr (n, e) ↦
            let y = redis.expire_count j key window (redis.incr key s).1 in
            elim (Bool-cases (n == 1)) [
              | inr f ↦ rw (count_request, e, f) o
              | inl f ↦ elim (Bool-cases (redis.expire key window (redis.incr key s).1).0) [
                | inl g ↦ rw (count_request, e, f, g, y) o
                | inr g ↦ rw (count_request, e, f, g, y) o
              ]
            ]
      ]

  hit-counted :
      (up : IsUp) (limit : ℕ) (key : Text) (window : ℕ) (s : redis.Store)
      → let (v, s') = hit redis limit key window s in
        (is_passed v ≡ not (ltb limit (suc (redis.count key s))))
        × (redis.count key s' ≡ suc (redis.count key s))
  unfolding hit judge is_passed
  hit-counted up limit key window s =
      let (a, b) = count_request-reply up key window s in
      elim (Bool-cases (ltb limit (suc (redis.count key s)))) [
        | inl e ↦ rw (hit, a, judge, e) (refl, b)
        | inr e ↦ rw (hit, a, judge, e) (refl, b)
      ]

  hit-other :
      (limit : ℕ) (j key : Text) (window : ℕ) (s : redis.Store)
      → j ≢ key
      → redis.count j (hit redis limit key window s).1 ≡ redis.count j s
  unfolding hit judge
  hit-other limit j key window s d =
      let o = count_request-other j key window s d in
      elim (Option-cases (count_request redis key window s).0) [
        | inl e ↦ rw (hit, e) o
        | inr (n, e) ↦ elim (Bool-cases (ltb limit n)) [
          | inl f ↦ rw (hit, e, judge, f) o
          | inr f ↦ rw (hit, e, judge, f) o
        ]
      ]

  module _ (settings : RateSettings) (key : Text) where
    -- A request that the counter of the key counts.
    unfoldable pub is_counted : ℕ × Request → Bool
    is_counted (now, request) =
        not (is_exempt request) && text_eq (rate_key settings now request) key

    -- How many of the requests, in the order in which they arrive, are counted by the key.
    unfoldable pub asked : List (ℕ × Request) → ℕ
    asked [] = 0
    asked (r ∷ rs) = let rest = asked rs in if is_counted r then suc rest else rest

    -- How many of those the middleware lets through.
    unfoldable pub passed : List (ℕ × Request) → redis.Store → ℕ
    passed [] s = 0
    passed ((now, request) ∷ rs) s =
        let (v, s') = dispatch redis settings now request s in
        let rest = passed rs s' in
        if is_counted (now, request) && is_passed v then suc rest else rest

    dispatch-counted :
        (up : IsUp) (now : ℕ) (request : Request) (s : redis.Store)
        → is_counted (now, request) ≡ true
        → let (v, s') = dispatch redis settings now request s in
          (is_passed v ≡ not (ltb settings.rate_limit_requests (suc (redis.count key s))))
          × (redis.count key s' ≡ suc (redis.count key s))
    unfolding is_counted dispatch
    dispatch-counted up now request s c =
        let x : is_exempt request ≡ false = ground arith in
        let t : text_eq (rate_key settings now request) key ≡ true = ground arith in
        let q = text_eq_sound (rate_key settings now request) key t in
        rw (dispatch, x, q)
          (hit-counted up settings.rate_limit_requests key
            (max 1 settings.rate_limit_window_seconds) s)

    dispatch-other :
        (now : ℕ) (request : Request) (s : redis.Store)
        → is_counted (now, request) ≡ false
        → redis.count key (dispatch redis settings now request s).1 ≡ redis.count key s
    unfolding is_counted dispatch
    dispatch-other now request s c = elim (Bool-cases (is_exempt request)) [
      | inl e ↦ rw (dispatch, e) refl
      | inr e ↦
          let t : text_eq (rate_key settings now request) key ≡ false = ground (arith, e) in
          let d = text-distinct (rate_key settings now request) key t in
          rw (dispatch, e)
            (hit-other settings.rate_limit_requests key (rate_key settings now request)
              (max 1 settings.rate_limit_window_seconds) s d)
    ]

    -- However requests of many clients and windows follow each other, while Redis answers, the
    -- requests of one counter that are let through are as many as ask, up to what its limit has left.
    pub passed-dispatch :
        (up : IsUp) (rs : List (ℕ × Request)) (s : redis.Store)
        → passed rs s ≡ min (asked rs) (settings.rate_limit_requests - redis.count key s)
    unfolding passed asked
    passed-dispatch up [] s = omega arith
    passed-dispatch up ((now, request) ∷ rs) s =
        let s' = (dispatch redis settings now request s).1 in
        let rest = passed-dispatch up rs s' in
        elim (Bool-cases (is_counted (now, request))) [
          | inr e ↦ let o = dispatch-other now request s e in rw e (rw o at rest)
          | inl e ↦
              let (v, c) = dispatch-counted up now request s e in
              let r = rw c at rest in
              elim (Bool-cases (ltb settings.rate_limit_requests (suc (redis.count key s)))) [
                | inl f ↦ rw (e, v, f, r) (ground arith)
                | inr f ↦ rw (e, v, f, r) (ground arith)
              ]
        ]

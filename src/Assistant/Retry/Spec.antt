-- ===== src/Assistant/Retry/Spec.antt =====
-- What the three loops promise: the first attempt that is decisive decides, and of the failures
-- the last one is reported.
use oss_us_web_design_system.Base.{[], ◌∷◌}
use oss_us_web_design_system.Assistant.Retry.{FailureType, LoopEnd, returned, propagated, exhausted}

-- What an attempt means to a loop.
pub data Verdict (R E : Type 0) : Type 0 where
  success : R → Verdict R E
  escape : E → Verdict R E
  terminal transient : FailureType → Verdict R E

-- Three attempts: a success, an escape or a terminal failure ends at once.
unfoldable pub decide : {R E : Type 0} → Verdict R E → Verdict R E → Verdict R E → LoopEnd R E
decide (success r) _ _ = returned r 1 []
decide (escape e) _ _ = propagated e 1 []
decide (terminal f) _ _ = exhausted f 1 []
decide (transient _) (success r) _ = returned r 2 (1000 ∷ [])
decide (transient _) (escape e) _ = propagated e 2 (1000 ∷ [])
decide (transient _) (terminal f) _ = exhausted f 2 (1000 ∷ [])
decide (transient _) (transient _) (success r) = returned r 3 (1000 ∷ 3000 ∷ [])
decide (transient _) (transient _) (escape e) = propagated e 3 (1000 ∷ 3000 ∷ [])
decide (transient _) (transient _) (terminal f) = exhausted f 3 (1000 ∷ 3000 ∷ [])
decide (transient _) (transient _) (transient f) = exhausted f 3 (1000 ∷ 3000 ∷ [])

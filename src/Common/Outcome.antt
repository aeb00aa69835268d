-- ===== src/Common/Outcome.antt =====
-- A Go result `(value, error)` of which exactly one part is set.
pub data Result (E A : Type 0) : Type 0 where
  ok : A → Result E A
  err : E → Result E A

-- ===== src/Result.antt =====
-- packages/domain/src/result.ts: what a fallible operation returns.
pub data Result (T E : Type 0) : Type 0 where
  ok : T → Result T E
  err : E → Result T E

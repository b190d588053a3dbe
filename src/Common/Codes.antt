-- ===== src/Common/Codes.antt =====
-- The `int` results 0 and -1.
pub data Status : Type 0 where
  ok error : Status

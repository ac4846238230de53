-- ===== src/Base/Rules.antt =====
-- Rule sets for the tactics.
use native.Mathlib.Omega.{arith}
use enetcpp.Base.Tests.{ltb→lt, lt→ltb, leb→le}

pub ruleset tests = (arith, ltb→lt, lt→ltb, leb→le)

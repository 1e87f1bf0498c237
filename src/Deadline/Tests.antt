-- ===== src/Deadline/Tests.antt =====
-- Instances of the theorems on deadlines (coreai/deadline.py).
use core_ai_protocol_suite.Prelude.{◌+◌, ◌≤◌, ◌≡◌, refl, some, arith}
use core_ai_protocol_suite.Deadline.{Deadline, clamp}
use core_ai_protocol_suite.Deadline.Budget.{clamp_fits}

abbrev until_1120 : Deadline
until_1120 = record { end = some 1120 }

clamp_1100 : clamp until_1120 (some 60) 1100 ≡ some 20
unfolding clamp
clamp_1100 = refl

clamp_fits_example : 1100 + 20 ≤ 1120
clamp_fits_example = clamp_fits until_1120 (some 60) 1100 1120 20 refl (omega arith) clamp_1100

-- ===== src/Scheduler/Refused.antt =====
-- pkg/scheduler/scheduler.go: updates that are refused.
use spectral_cloud.Prelude.{String, Bool, ◌==◌, ◌||◌}
use spectral_cloud.Scheduler.Record.{Schedule}

abbrev pub is_mine : {P : Type 0} → String → Schedule P → Bool
is_mine tenant s = tenant == "" || s.tenant == tenant

-- ===== src/Tests/Retry.antt =====
-- A commit that meets one conflict.
use datacrystal.Base.{ℕ, ◌==◌, nat_eq, if◌then◌else◌, arith}
use datacrystal.Committing.{Attempt, conflicted, committed, committing, Ends, committing-Ends}

abbrev second_try : ℕ → Attempt
second_try n = if n == 0 then conflicted else committed

committing-Ends_example : Ends second_try 3 0 (committing second_try 3 0 4)
committing-Ends_example = committing-Ends second_try 3 0 4 (omega arith) (omega arith)

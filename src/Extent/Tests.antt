-- ===== src/Extent/Tests.antt =====
-- Runs of the extent service, and the theorems about it at concrete inputs.
use simple_distributed_files.Prelude.{List, Option, some, Bytes, refl, ◌≡◌, [], ◌∷◌, none}
use simple_distributed_files.Extent.Server.{Times, extent_server_new, stored, no_attr}
use simple_distributed_files.Extent.Client.{get, put, flush, fetch}
use simple_distributed_files.Extent.Server
use simple_distributed_files.Extent.Server.{ok}
use simple_distributed_files.Extent.Sharing.{
  Shared, Step, grants, puts, hands, gets, run_steps, holds, last_written, IsShared, text,
}
use simple_distributed_files.Extent.Consistency.{run_steps-last_written}

abbrev clock : Times
clock = record { a = 9; c = 9; m = 9 }

-- Two clients and nothing in their caches.
abbrev shared : Shared
shared = record { caches = λ c. []; server = extent_server_new clock; holder = λ j. none }

shared-IsShared : IsShared shared
shared-IsShared = record {
  coherent = λ c j e h clean. absurd (cc h);
  owned = λ c id e h. absurd (cc h);
}

-- The first client writes a file, and the second reads it once it has the lock.
abbrev session : List Step
session = grants 1 2 ∷ puts 1 2 (105 ∷ []) 9 clock ∷ hands 1 2 clock 7 ∷ gets 7 2 9 9 ∷ []

abbrev shared_of : Option (Shared × List Bytes) → Shared
shared_of none = shared
shared_of (some (s, texts)) = s

run_steps-last_written_example :
    IsShared (shared_of (run_steps session shared))
    × ((105 ∷ []) ∷ [] ≡ last_written session (λ j. text j shared))
unfolding run_steps holds get put flush Server.put Server.get stored fetch
run_steps-last_written_example =
    run_steps-last_written session shared (shared_of (run_steps session shared))
      (λ j. text j shared) ((105 ∷ []) ∷ []) shared-IsShared (λ j. refl) refl

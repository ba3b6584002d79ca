-- ===== src/Handle/Tests.antt =====
-- The handles of handle.cc at concrete addresses.
use simple_distributed_files.Prelude.{ℕ, ◌≡◌, List, [], ◌∷◌, some, Bytes, ◌⊎◌, codes}
use simple_distributed_files.Handle.{Hinfo}
use simple_distributed_files.Handle.History.{
  Use, takes, deletes, drops, binds, Held, held_new, use_all,
}
use simple_distributed_files.Handle.Counted.{handles_safe}

abbrev addr : Bytes
addr = codes "127.0.0.1:5000"

-- Two handles of one address; it is deleted while they are there, and taken anew afterwards.
abbrev uses : List (Use ℕ)
uses =
    takes addr ∷ takes addr ∷ binds (some 3) 0 ∷ deletes addr ∷ drops 0 ∷ drops 0 ∷ takes addr ∷ []

handles_safe_example :
    (s : Held ℕ) × (use_all uses held_new ≡ some s)
    × ((p : ℕ)
        → (s.live p ≡ 0)
          ⊎ ((h : Hinfo ℕ) × (s.mgr.store p ≡ some h)
              × (h.refcnt ≡ s.live p)
              × (s.mgr.hmap h.m ≡ some p)))
handles_safe_example = handles_safe ℕ uses

-- ===== src/Rpc/Received/Invariant.antt =====
-- `update_xid_rep` of rpc/rpc.cc: what the window of a client stands for, and that each update
-- keeps it.
use simple_distributed_files.Prelude.{
  ℕ, suc, ◌≤◌, ◌<◌, ◌≡◌, ◌≢◌, refl, inl, inr, ◌⊎◌, false, List, [], ◌∷◌, arith, ltb, leb, All,
  All-Has, Has, Bool-cases,
}
use native.Mathlib.Decide.{dec_lt}
use simple_distributed_files.Rpc.Client.{Window, insert_xid, update_xid_rep}
use simple_distributed_files.Rpc.Compress.{
  IsXid, IsAscending, IsAscending-insert, Has-insert, insert-Has, Compressed, compress-Compressed,
}

All-insert : (P : ℕ → Type 0) (x : ℕ) (xs : List ℕ) → P x → All P xs → All P (insert_xid x xs)
unfolding insert_xid
All-insert P x [] h a = (h, tt)
All-insert P x (y ∷ ys) h a = elim (Bool-cases (ltb x y)) [
  | inl below ↦ rw (below, insert_xid) (h, (a.0, a.1))
  | inr above ↦ rw (above, insert_xid) (a.0, All-insert P x ys h a.1)
]

-- What the window stands for: everything up to its front, and what is in its rest, has come, and
-- nothing else.
pub record IsWindow (got : List ℕ) (w : Window) : Type 0 where
  pub ascending : IsAscending w.front w.rest
  pub gap : All (λ b. b ≢ suc w.front) w.rest
  pub below : (j : ℕ) → 0 < j → j ≤ w.front → Has j got
  pub kept : (j : ℕ) → Has j got → (j ≤ w.front) ⊎ Has j w.rest
  pub from : (j : ℕ) → Has j w.rest → Has j got
  pub fits : IsXid w.front
  pub xids : All IsXid w.rest

All-of : (P : ℕ → Type 0) (xs : List ℕ) → ((j : ℕ) → Has j xs → P j) → All P xs
All-of P [] h = tt
All-of P (x ∷ xs) h = (h x (inl refl), All-of P xs (λ j k. h j (inr k)))

pub Compressed-IsWindow :
    (x : ℕ) (got : List ℕ) (w v : Window)
    → IsXid x
    → IsWindow got w
    → Compressed w.front [] (insert_xid x w.rest) v
    → IsWindow (x ∷ got) v
Compressed-IsWindow x got w v fits i c = record {
  ascending = c.ascending;
  gap = c.gap;
  below = λ j h k. elim (dec_lt w.front j) [
    | yes above ↦ came j (Has-insert x j w.rest (c.filled j above k))
    | no under ↦ inr (i.below j h (omega (arith, under)))
  ];
  kept = λ j h. elim h [
    | inl same ↦ c.kept j (inr (insert-Has x j w.rest (inl same)))
    | inr k ↦ elim (i.kept j k) [
      | inl old ↦ inl (omega (arith, old, c.grows))
      | inr held ↦ c.kept j (inr (insert-Has x j w.rest (inr held)))
    ]
  ];
  from = λ j h. elim (c.from j h) [ inl k ↦ absurd k | inr k ↦ came j (Has-insert x j w.rest k) ];
  fits = c.fits;
  xids = All-of IsXid v.rest (λ j h. elim (c.from j h) [
    | inl k ↦ absurd k
    | inr k ↦ All-Has IsXid j (insert_xid x w.rest) (All-insert IsXid x w.rest fits i.xids) k
  ]);
}
  where
    came : (j : ℕ) → (j ≡ x) ⊎ Has j w.rest → Has j (x ∷ got)
    came j (inl same) = inl same
    came j (inr held) = inr (i.from j held)

update-Compressed :
    (x : ℕ) (got : List ℕ) (w : Window)
    → IsXid x
    → IsWindow got w
    → leb x w.front ≡ false
    → Compressed w.front [] (insert_xid x w.rest) (update_xid_rep x w)
unfolding update_xid_rep
update-Compressed x got w fits i new =
    rw (new, update_xid_rep)
      (compress-Compressed w.front w.front [] (insert_xid x w.rest) i.fits
        (All-insert IsXid x w.rest fits i.xids) tt tt tt (omega arith)
        (IsAscending-insert w.front x w.rest (ground (arith, new)) i.ascending))

pub update-IsWindow :
    (x : ℕ) (got : List ℕ) (w : Window)
    → IsXid x
    → IsWindow got w
    → IsWindow (x ∷ got) (update_xid_rep x w)
unfolding update_xid_rep
update-IsWindow x got w fits i = elim (Bool-cases (leb x w.front)) [
  | inl old ↦
      rw (old, update_xid_rep)
        record {
          ascending = i.ascending;
          gap = i.gap;
          below = λ j h k. inr (i.below j h k);
          kept = λ j h. elim h [ inl same ↦ inl (ground (arith, old, same)) | inr k ↦ i.kept j k ];
          from = λ j h. inr (i.from j h);
          fits = i.fits;
          xids = i.xids;
        }
  | inr new ↦ Compressed-IsWindow x got w _ fits i (update-Compressed x got w fits i new)
]

pub update-grows :
    (x : ℕ) (got : List ℕ) (w : Window)
    → IsXid x
    → IsWindow got w
    → w.front ≤ (update_xid_rep x w).front
unfolding update_xid_rep
update-grows x got w fits i = elim (Bool-cases (leb x w.front)) [
  | inl old ↦ ground (arith, old)
  | inr new ↦ (update-Compressed x got w fits i new).grows
]

-- ===== src/Rpc/Compress.antt =====
-- The compression of a client's window of replies: the loop of `update_xid_rep`, under rpc/, keeps
-- the numbers after the front in order and the front's successor out of them.
use simple_distributed_files.Prelude.{
  ℕ, suc, ◌+◌, ◌^◌, ◌≤◌, ◌<◌, ◌≡◌, ◌≢◌, sym, subst, inl, inr, ◌⊎◌, false, List, [], ◌∷◌, ◌++◌,
  arith, ltb, ◌==◌, All, All-append, Has, Bool-cases, ==_iff,
}
use native.Mathlib.Decide.{dec_lt}
use simple_distributed_files.Rpc.Client.{Window, insert_xid, pop_front, compress}

-- The last number is never reached.
abbrev pub IsXid : ℕ → Type 0
IsXid x = x + 1 < 2 ^ 32

-- From `low` on, in ascending order.
abbrev pub IsAscending : ℕ → List ℕ → Type 0
IsAscending low [] = Unit
IsAscending low (x ∷ xs) = (low ≤ x) × IsAscending x xs

pub IsAscending-insert :
    (low x : ℕ) (xs : List ℕ) → low ≤ x → IsAscending low xs → IsAscending low (insert_xid x xs)
unfolding insert_xid
IsAscending-insert low x [] h a = (h, tt)
IsAscending-insert low x (y ∷ ys) h a = elim (Bool-cases (ltb x y)) [
  | inl below ↦ rw (below, insert_xid) (h, (ground (arith, below), a.1))
  | inr above ↦ rw (above, insert_xid) (a.0, IsAscending-insert y x ys (ground (arith, above)) a.1)
]

pub Has-insert : (x j : ℕ) (xs : List ℕ) → Has j (insert_xid x xs) → (j ≡ x) ⊎ Has j xs
unfolding insert_xid
Has-insert x j [] h = h
Has-insert x j (y ∷ ys) h = elim (Bool-cases (ltb x y)) [
  | inl below ↦ rw (below, insert_xid) at h
  | inr above ↦ elim ((rw (above, insert_xid) at h)) [
    | inl e ↦ inr (inl e)
    | inr k ↦ elim (Has-insert x j ys k) [ inl e ↦ inl e | inr m ↦ inr (inr m) ]
  ]
]

pub insert-Has : (x j : ℕ) (xs : List ℕ) → (j ≡ x) ⊎ Has j xs → Has j (insert_xid x xs)
unfolding insert_xid
insert-Has x j [] h = h
insert-Has x j (y ∷ ys) h = elim (Bool-cases (ltb x y)) [
  | inl below ↦ rw (below, insert_xid) h
  | inr above ↦
      rw (above, insert_xid)
        (elim h [
          | inl e ↦ inr (insert-Has x j ys (inl e))
          | inr k ↦ elim k [ inl e ↦ inl e | inr m ↦ inr (insert-Has x j ys (inr m)) ]
        ])
]

IsAscending-append :
    (low high : ℕ) (xs : List ℕ)
    → IsAscending low xs
    → All (λ x. x ≤ high) xs
    → low ≤ high
    → IsAscending low (xs ++ high ∷ [])
IsAscending-append low high [] a h le = (le, tt)
IsAscending-append low high (x ∷ xs) a h le = (a.0, IsAscending-append x high xs a.1 h.1 h.0)

All-le : (low high : ℕ) (xs : List ℕ) → low ≤ high → All (λ x. x ≤ low) xs → All (λ x. x ≤ high) xs
All-le low high [] le h = tt
All-le low high (x ∷ xs) le h = (omega (arith, h.0), All-le low high xs le h.1)

squeeze : (front it x : ℕ) → it ≡ suc front → front ≤ x → x ≢ suc front → x ≤ it → x ≡ front
squeeze front it x e a n h = ground (arith, e, a, n, h)

-- Between the front and the next number there is nothing but the front.
squeezed :
    (front it : ℕ) (behind : List ℕ)
    → it ≡ suc front
    → IsAscending front behind
    → All (λ b. b ≢ suc front) behind
    → All (λ b. b ≤ it) behind
    → All (λ b. b ≡ front) behind
squeezed front it [] e a n h = tt
squeezed front it (x ∷ behind) e a n h =
    let here : x ≡ front = squeeze front it x e a.0 n.0 h.0 in
    (here, squeezed front it behind e (subst (λ y. IsAscending y behind) here a.1) n.1 h.1)

pop_front_next :
    (it front : ℕ) (behind : List ℕ)
    → it ≡ suc front
    → it < 2 ^ 32
    → All (λ b. b ≡ front) behind
    → pop_front it front behind ≡ record { front = it; rest = [] }
unfolding pop_front
pop_front_next it front [] e fits h = ground (arith, e)
pop_front_next it front (x ∷ behind) e fits h =
    let rest : pop_front it x behind ≡ record { front = it; rest = [] } =
      subst (λ y. pop_front it y behind ≡ record { front = it; rest = [] }) (sym h.0)
        (pop_front_next it front behind e fits h.1) in
    ground (arith, e, rest)

pop_front_stay :
    (it front : ℕ) (behind : List ℕ)
    → it ≢ suc front
    → IsXid front
    → pop_front it front behind ≡ record { front = front; rest = behind ++ it ∷ [] }
unfolding pop_front
pop_front_stay it front [] e fits = ground (arith, e)
pop_front_stay it front (x ∷ behind) e fits = ground (arith, e)

-- What the compression makes of a front, the numbers behind and those ahead.
pub record Compressed (front : ℕ) (behind ahead : List ℕ) (w : Window) : Type 0 where
  pub ascending : IsAscending w.front w.rest
  pub gap : All (λ b. b ≢ suc w.front) w.rest
  pub grows : front ≤ w.front
  pub filled : (j : ℕ) → front < j → j ≤ w.front → Has j ahead
  pub kept : (j : ℕ) → Has j behind ⊎ Has j ahead → (j ≤ w.front) ⊎ Has j w.rest
  pub from : (j : ℕ) → Has j w.rest → Has j behind ⊎ Has j ahead
  pub fits : IsXid w.front

Has-le : (j n : ℕ) (xs : List ℕ) → All (λ x. x ≤ n) xs → Has j xs → j ≤ n
Has-le j n [] h k = absurd k
Has-le j n (x ∷ xs) h (inl e) = omega (arith, h.0)
Has-le j n (x ∷ xs) h (inr k) = Has-le j n xs h.1 k

Has-snoc : (j it : ℕ) (xs : List ℕ) → Has j (xs ++ it ∷ []) → Has j xs ⊎ (j ≡ it)
Has-snoc j it [] (inl e) = inr e
Has-snoc j it [] (inr h) = absurd h
Has-snoc j it (x ∷ xs) (inl e) = inl (inl e)
Has-snoc j it (x ∷ xs) (inr h) = elim (Has-snoc j it xs h) [ inl k ↦ inl (inr k) | inr e ↦ inr e ]

snoc-Has : (j it : ℕ) (xs : List ℕ) → Has j xs ⊎ (j ≡ it) → Has j (xs ++ it ∷ [])
snoc-Has j it [] (inl h) = absurd h
snoc-Has j it [] (inr e) = inl e
snoc-Has j it (x ∷ xs) (inl (inl e)) = inl e
snoc-Has j it (x ∷ xs) (inl (inr h)) = inr (snoc-Has j it xs (inl h))
snoc-Has j it (x ∷ xs) (inr e) = inr (snoc-Has j it xs (inr e))

Compressed-next :
    (front it : ℕ) (behind ahead : List ℕ) (w : Window)
    → it ≡ suc front
    → IsXid front
    → All (λ b. b ≤ it) behind
    → Compressed it [] ahead w
    → Compressed front behind (it ∷ ahead) w
Compressed-next front it behind ahead w e fits below c = record {
  ascending = c.ascending;
  gap = c.gap;
  grows = omega (arith, e, c.grows);
  filled = λ j h k. elim (dec_lt it j) [
    | yes p ↦ inr (c.filled j p k)
    | no p ↦ inl (omega (arith, e, h, p))
  ];
  kept = λ j h. elim h [
    | inl k ↦ inl (omega (arith, Has-le j it behind below k, c.grows))
    | inr k ↦ elim k [
      | inl same ↦ inl (omega (arith, same, c.grows))
      | inr later ↦ c.kept j (inr later)
    ]
  ];
  from = λ j h. elim (c.from j h) [ inl k ↦ absurd k | inr k ↦ inr (inr k) ];
  fits = c.fits;
}

Compressed-stay :
    (front it : ℕ) (behind ahead : List ℕ) (w : Window)
    → Compressed front (behind ++ it ∷ []) ahead w
    → Compressed front behind (it ∷ ahead) w
Compressed-stay front it behind ahead w c = record {
  ascending = c.ascending;
  gap = c.gap;
  grows = c.grows;
  filled = λ j h k. inr (c.filled j h k);
  kept = λ j h. elim h [
    | inl k ↦ c.kept j (inl (snoc-Has j it behind (inl k)))
    | inr k ↦ elim k [
      | inl same ↦ c.kept j (inl (snoc-Has j it behind (inr same)))
      | inr later ↦ c.kept j (inr later)
    ]
  ];
  from = λ j h. elim (c.from j h) [
    | inl k ↦ elim (Has-snoc j it behind k) [ inl b ↦ inl b | inr same ↦ inr (inl same) ]
    | inr k ↦ inr (inr k)
  ];
  fits = c.fits;
}

next_not : (it front : ℕ) → (it == suc front) ≡ false → it ≢ suc front
next_not it front other q = ground (arith, other, q)

pub compress-Compressed :
    (front low : ℕ) (behind ahead : List ℕ)
    → IsXid front
    → All IsXid ahead
    → IsAscending front behind
    → All (λ b. b ≢ suc front) behind
    → All (λ b. b ≤ low) behind
    → front ≤ low
    → IsAscending low ahead
    → Compressed front behind ahead (compress (record { front = front; rest = behind }) ahead)
unfolding compress
compress-Compressed front low behind [] fits xids asc gap below le ahead = record {
  ascending = asc;
  gap = gap;
  grows = omega arith;
  filled = λ j h k. absurd (omega (arith, h, k));
  kept = λ j h. elim h [ inl k ↦ inr k | inr k ↦ absurd k ];
  from = λ j h. inl h;
  fits = fits;
}
compress-Compressed front low behind (it ∷ ahead) fits xids asc gap below le asc' =
    elim (Bool-cases (it == suc front)) [
      | inl next ↦
          let e : it ≡ suc front = (==_iff it (suc front)).0 next in
          let p : pop_front it front behind ≡ record { front = it; rest = [] } =
            pop_front_next it front behind e (omega (arith, xids.0))
              (squeezed front it behind e asc gap (All-le low it behind asc'.0 below)) in
          let c : Compressed it [] ahead (compress (record { front = it; rest = [] }) ahead) =
            compress-Compressed it it [] ahead xids.0 xids.1 tt tt tt (omega arith) asc'.1 in
          subst (λ x. Compressed front behind (it ∷ ahead) (compress x ahead)) (sym p)
            (Compressed-next front it behind ahead _ e fits (All-le low it behind asc'.0 below) c)
      | inr other ↦
          let e : it ≢ suc front = next_not it front other in
          let p : pop_front it front behind ≡ record { front = front; rest = behind ++ it ∷ [] } =
            pop_front_stay it front behind e fits in
          let c : Compressed front (behind ++ it ∷ []) ahead
              (compress (record { front = front; rest = behind ++ it ∷ [] }) ahead) =
            compress-Compressed front it (behind ++ it ∷ []) ahead fits xids.1
              (IsAscending-append front it behind asc (All-le low it behind asc'.0 below)
                (omega (arith, asc'.0, le)))
              (All-append _ behind (it ∷ []) gap (e, tt))
              (All-append _ behind (it ∷ []) (All-le low it behind asc'.0 below) (omega arith, tt))
              (omega (arith, asc'.0, le)) asc'.1 in
          subst (λ x. Compressed front behind (it ∷ ahead) (compress x ahead)) (sym p)
            (Compressed-stay front it behind ahead _ c)
    ]

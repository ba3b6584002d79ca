-- ===== src/Paxos/Proposal.antt =====
-- `prop_t` of paxos_protocol.h, and its order in paxos.cc: first by number, then by node name.
use simple_distributed_files.Prelude.{
  ℕ, ◌≡◌, Bool, true, false, not, ◌&&◌, ◌||◌, arith, Bytes, ltb, ◌==◌, str_lt, str_lt_irrefl,
  str_lt_trans, str_lt_total,
}

pub record PropT : Type 0 where
  pub n : ℕ
  pub m : Bytes

-- `a > b`
unfoldable pub gt : PropT → PropT → Bool
gt a b = ltb b.n a.n || (a.n == b.n && str_lt b.m a.m)

-- `a >= b`
unfoldable pub ge : PropT → PropT → Bool
ge a b = ltb b.n a.n || (a.n == b.n && not (str_lt a.m b.m))

pub gt_irrefl : (p : PropT) → gt p p ≡ false
unfolding gt
gt_irrefl p = ground (arith, str_lt_irrefl p.m)

-- The order is transitive.
pub gt_trans : (p q r : PropT) → gt p q ≡ true → gt q r ≡ true → gt p r ≡ true
unfolding gt
gt_trans p q r h k = ground (arith, str_lt_trans r.m q.m p.m)

-- `>=` is the negation of `<`.
pub ge_lem : (p q : PropT) → ge p q ≡ not (gt q p)
unfolding gt ge
ge_lem p q = ground arith

-- Two proposals of which neither is greater are one.
pub gt_total : (p q : PropT) → gt p q ≡ false → gt q p ≡ false → p ≡ q
unfolding gt
gt_total p q h k = ground (arith, str_lt_total p.m q.m)

pub gt-ge_trans : (p q r : PropT) → gt p q ≡ true → ge q r ≡ true → gt p r ≡ true
gt-ge_trans p q r h k = ground (arith, ge_lem q r, gt_trans p q r, gt_total r q, gt_trans p q r)

pub ge-gt_trans : (p q r : PropT) → ge p q ≡ true → gt q r ≡ true → gt p r ≡ true
ge-gt_trans p q r h k = ground (arith, ge_lem p q, gt_trans p q r, gt_total q p)

pub ge_trans : (p q r : PropT) → ge p q ≡ true → ge q r ≡ true → ge p r ≡ true
ge_trans p q r h k = ground (
  arith,
  ge_lem p q,
  ge_lem q r,
  ge_lem p r,
  gt_trans r p q,
  gt_total r q,
  gt_total p q,
  gt_irrefl r,
)

pub ge_refl : (p : PropT) → ge p p ≡ true
ge_refl p = ground (arith, ge_lem p p, gt_irrefl p)

pub gt→ge : (p q : PropT) → gt p q ≡ true → ge p q ≡ true
gt→ge p q h = ground (arith, ge_lem p q, gt_trans p q p, gt_irrefl p)

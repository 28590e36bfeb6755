-- ===== src/Smalloc/Carve.antt =====
-- `carve` on a valid heap: how `bestfit` of libs/src/libc/smalloc.c cuts the block that it chose.
use cibyl.Base.{
  ℕ, ◌+◌, ◌%◌, ◌≤◌, ◌<◌, ◌≡◌, refl, inl, inr, true, Option, some, leb, Bool-cases, sum_of, arith,
}
use cibyl.Smalloc.{
  Node, Chain, Heap, overhead, min_node, max_int, word, align, payload, remainder, carve,
}
use cibyl.Smalloc.Nodes.{Holds, Vacant, All-Holds, sum-without, without}
use cibyl.Smalloc.Insert.{Fits, IsChain, removed, removed-IsChain, insert_available-Gains}
use cibyl.Smalloc.Tiling.{covers, IsValid, covers-Additive, covers_cut, Vacant-of_uncovered}
use cibyl.Smalloc.Touching.{IsCoalesced, without-IsCoalesced}
use cibyl.Smalloc.Coalesce.{insert_available-IsCoalesced}

module _ {start end : ℕ} {h : Heap} (v : IsValid start end h) (size : ℕ) (b : Node)
    (hb : Holds b h.available.nodes) (fit : size ≤ b.rsize) where
  pub block-Fits : Fits b
  block-Fits = All-Holds Fits b h.available.nodes v.avail.fits hb

  rest_sum :
      (a : ℕ)
      → sum_of (covers a) h.available.nodes
        ≡ covers a b + sum_of (covers a) (without b h.available.nodes)
  rest_sum a = sum-without (covers a) b max_int h.available.nodes v.avail.desc hb

  rest_Vacant :
      (a : ℕ)
      → b.addr ≤ a
      → a < b.addr + overhead + b.rsize
      → Vacant a (without b h.available.nodes)
  rest_Vacant a lo hi =
      Vacant-of_uncovered a (without b h.available.nodes) (ground (arith, v.tiles a, rest_sum a))

  abbrev cut : ℕ → Node
  cut aligned = record b { rsize = aligned }

  -- What `carve` leaves of the other free blocks, and what it hands out.
  pub record Carved (aligned : ℕ) (out : Option (Node × Chain)) : Type 0 where
    pub n : Node
    pub m : Chain
    pub result : out ≡ some (n, m)
    pub valid : IsChain m
    pub same : n.addr ≡ b.addr
    pub room : size ≤ n.rsize
    pub le : n.rsize ≤ b.rsize
    pub coalesced : IsCoalesced h.available.nodes → IsCoalesced m.nodes
    pub sums :
        (a : ℕ) → sum_of (covers a) m.nodes + covers a n ≡ sum_of (covers a) h.available.nodes

  -- None of the sums of `bestfit` wraps.
  cut_room :
      leb ((align size + overhead + min_node) % word) b.rsize ≡ true
      → (size ≤ align size) × (align size + overhead + min_node ≤ b.rsize)
  cut_room large = let fits = block-Fits in ground arith

  pub carve-Carved : Carved (align size) (carve (align size) b (removed b h.available))
  unfolding carve
  carve-Carved = elim (Bool-cases (leb ((align size + overhead + min_node) % word) b.rsize)) [
    | inr whole ↦ rw whole (record {
      n = b;
      m = removed b h.available;
      result = refl;
      valid = removed-IsChain b h.available v.avail hb;
      same = refl;
      room = fit;
      le = omega arith;
      coalesced = without-IsCoalesced b h.available v.avail hb;
      sums = λ a. omega (arith, rest_sum a);
    })
    | inl large ↦
        let (up, room) = cut_room large in
        let fits = block-Fits in
        let g =
          insert_available-Gains (remainder (align size) b) (removed b h.available)
            (removed-IsChain b h.available v.avail hb) (omega arith)
            (rest_Vacant (payload b + align size) (omega arith) (omega arith)) in
        rw (large, g.result)
          (record {
            n = cut (align size);
            m = g.chain;
            result = refl;
            valid = g.valid;
            same = refl;
            room = up;
            le = omega arith;
            coalesced = λ k.
                insert_available-IsCoalesced (remainder (align size) b) (removed b h.available)
                  (removed-IsChain b h.available v.avail hb) (omega arith)
                  (without-IsCoalesced b h.available v.avail hb k)
                  (λ a. ground (arith, v.tiles a, rest_sum a))
                  (λ a lo hi. ground (arith, v.tiles a, rest_sum a)) g.chain g.result;
            sums = λ a. omega (
              arith,
              rest_sum a,
              g.sums (covers a) (covers-Additive a),
              covers_cut a (align size) b (omega arith),
            );
          })
  ]

-- ===== src/Smalloc/Coalesce.antt =====
-- `insert(AVAILABLE, n)` of libs/src/libc/smalloc.c, and the free blocks that touch the new one.
use cibyl.Base.{
  ◌≤◌, ◌<◌, ◌≡◌, refl, ap, subst, ◌≢◌, ◌⊎◌, inl, inr, true, none, some, List, [], ◌∷◌, Bool-cases,
  ◌==◌, Option-cases, arith,
}
use cibyl.Smalloc.{
  Node, Chain, max_int, adjacent, absorb, above, from, last?, put, link, merge_above, insert_apart,
  insert_into, insert_available,
}
use cibyl.Smalloc.Nodes.{Holds, Vacant, without, All-Holds}
use cibyl.Smalloc.Edits.{last?-above, from-Holds, Holds-insert_old, Holds-put}
use cibyl.Smalloc.Insert.{
  Fits, IsChain, removed, delete-eq, removed-IsChain, link-IsChain, grown-IsChain,
}
use cibyl.Smalloc.Tiling.{covers-le-sum, Vacant-of_uncovered}
use cibyl.Smalloc.Members.{
  Holds-unique, without-Holds, put-Holds, insert-Holds, last?-le, last?-none, from-le, from-none,
}
use cibyl.Smalloc.Touching.{end_of, IsCoalesced, IsDisjoint, IsApart, disjoint_lem}

-- A list that holds `x` and nodes of `cs`, and no node that touches `x`.
record Settled (x : Node) (cs out : List Node) : Type 0 where
  low : (m : Node) → Holds m cs → end_of m ≢ x.addr
  members : (m : Node) → Holds m out → (m ≡ x) ⊎ (Holds m cs × (end_of x ≢ m.addr))

Settled-IsCoalesced :
    (x : Node) (cs out : List Node) → Settled x cs out → IsCoalesced cs → IsCoalesced out
Settled-IsCoalesced x cs out s k a b ha hb e = elim (s.members a ha) [
  | inl is_x ↦ elim (s.members b hb) [
    | inl g ↦ omega (arith, ap Node.addr is_x, ap Node.rsize is_x, ap Node.addr g)
    | inr g ↦ g.1 (omega (arith, ap Node.addr is_x, ap Node.rsize is_x))
  ]
  | inr old ↦ elim (s.members b hb) [
    | inl g ↦ s.low a old.0 (omega (arith, ap Node.addr g))
    | inr g ↦ k a b old.0 g.0 e
  ]
]

-- The merge with the block above: `x` is in the list `l`, the other nodes of which are in `cs`.
module _ (x p : Node) (cs : List Node) (l m : Chain) where
  merge_above-Settled :
      IsChain l
      → IsCoalesced cs
      → Fits x
      → ((y : Node) → Holds y l.nodes → (y ≡ x) ⊎ Holds y cs)
      → ((y : Node) → Holds y cs → end_of y ≢ x.addr)
      → ((y : Node) → Holds y cs → end_of x ≡ y.addr → p.addr ≡ y.addr)
      → (adjacent x p ≡ true → Holds p cs × Holds p l.nodes × Fits p)
      → merge_above x p l ≡ some m
      → IsCoalesced m.nodes
  unfolding merge_above
  merge_above-Settled v k fit old low near hp e = elim (Bool-cases (adjacent x p)) [
    | inr apart ↦
        let same : l ≡ m = cc (rw apart at e) in
        let stays : Settled x cs l.nodes = record {
          low = low;
          members = λ y h. elim (old y h) [
            | inl g ↦ inl g
            | inr i ↦ inr (i, λ g. let at_p = near y i g in ground arith)
          ];
        } in
        subst (λ (c : Chain). IsCoalesced c.nodes) same (Settled-IsCoalesced x cs l.nodes stays k)
    | inl joined ↦
        let (hc, hl, fp) = hp joined in
        let touch : end_of x ≡ p.addr = ground arith in
        let r = removed-IsChain p l v hl in
        let same : record (removed p l) { nodes = put (absorb x p) (without p l.nodes) } ≡ m =
          cc (rw (joined, delete-eq p l v hl) at e) in
        let grows : Settled (absorb x p) cs (put (absorb x p) (without p l.nodes)) = record {
          low = low;
          members = λ y h. elim (put-Holds y (absorb x p) max_int (without p l.nodes) r.desc h) [
            | inl g ↦ inl g
            | inr (i, ne) ↦
                let (j, off) = without-Holds y p max_int l.nodes v.desc hl i in
                elim (old y j) [
                  | inl g ↦ absurd (ne (ap Node.addr g))
                  | inr q ↦ inr (q, λ g. k p y hc q (omega arith))
                ]
          ];
        } in
        subst (λ (c : Chain). IsCoalesced c.nodes) same
          (Settled-IsCoalesced (absorb x p) cs _ grows k)
  ]

module _ (n : Node) (l : Chain) (v : IsChain l) (fit : Fits n) (k : IsCoalesced l.nodes)
    (one : IsDisjoint l.nodes) (apart : IsApart n l.nodes) where
  free : Vacant n.addr l.nodes
  free = Vacant-of_uncovered n.addr l.nodes (apart n.addr (omega arith) (omega arith))

  -- A node that does not begin below `n` begins behind it.
  behind : (y : Node) → Holds y l.nodes → n.addr ≤ y.addr → end_of n ≤ y.addr
  behind y h le = ground (arith, apart y.addr, covers-le-sum y.addr y l.nodes h)

  near :
      (p : Node)
      → last? (above n l.nodes) ≡ some p
      → (y : Node) → Holds y l.nodes
      → end_of n ≡ y.addr
      → p.addr ≡ y.addr
  near p e y h touch =
      let (hp, up) = last?-above n p l.nodes e in
      omega
        (arith, behind p hp (omega arith), last?-le n y p max_int l.nodes v.desc h (omega arith) e)

  top_near : last? (above n l.nodes) ≡ none → (y : Node) → Holds y l.nodes → end_of n ≢ y.addr
  top_near e y h touch = last?-none n y max_int l.nodes v.desc h (omega arith) e

  -- The node where the walk stopped does not touch `n`: then no node below does.
  not_below :
      (c : Node) (rest : List Node)
      → from n l.nodes ≡ c ∷ rest
      → end_of c ≢ n.addr
      → (y : Node) → Holds y l.nodes
      → end_of y ≢ n.addr
  not_below c rest e off y h touch =
      let (hc, le) = from-Holds n c rest l.nodes e in
      let under = from-le n y c rest max_int l.nodes v.desc h (omega arith) e in
      elim (Bool-cases (y.addr == c.addr)) [
        | inl same ↦
            let g = Holds-unique y c max_int l.nodes v.desc h hc (ground arith) in
            off (omega (arith, ap Node.addr g, ap Node.rsize g))
        | inr other ↦
            let lt : y.addr < c.addr = ground arith in
            omega (arith, disjoint_lem y c max_int l.nodes v.desc one h hc lt, behind c hc)
      ]

  insert_apart-IsCoalesced :
      (m : Chain)
      → ((y : Node) → Holds y l.nodes → end_of y ≢ n.addr)
      → insert_apart n l ≡ some m
      → IsCoalesced m.nodes
  unfolding insert_apart link
  insert_apart-IsCoalesced m low e = elim (Option-cases (last? (above n l.nodes))) [
    | inl top ↦
        let same : link n l ≡ m = cc (rw (top, insert_apart) at e) in
        let alone : Settled n l.nodes (link n l).nodes = record {
          low = low;
          members = λ y h. elim (insert-Holds n y l.nodes h) [
            | inl g ↦ inl g
            | inr i ↦ inr (i, top_near top y i)
          ];
        } in
        subst (λ (c : Chain). IsCoalesced c.nodes) same (Settled-IsCoalesced n l.nodes _ alone k)
    | inr (p, under) ↦
        let (hp, up) = last?-above n p l.nodes under in
        merge_above-Settled n p l.nodes (link n l) m (link-IsChain n l v fit free) k fit
          (λ y h. insert-Holds n y l.nodes h) low (near p under)
          (λ _. (hp, Holds-insert_old n p l.nodes hp, All-Holds Fits p l.nodes v.fits hp))
          (rw (under, insert_apart) at e)
  ]

  module _ (c : Node) (rest : List Node) (m : Chain) (at : from n l.nodes ≡ c ∷ rest)
      (touch : end_of c ≡ n.addr) where
    insert_into-IsCoalesced : insert_into c n l ≡ some m → IsCoalesced m.nodes
    unfolding insert_into
    insert_into-IsCoalesced e =
        let (hc, le) = from-Holds n c rest l.nodes at in
        let x = absorb c n in
        let grown = record l { nodes = put x l.nodes } in
        let w = grown-IsChain n l v fit c hc le touch in
        let old : (y : Node) → Holds y grown.nodes → (y ≡ x) ⊎ Holds y l.nodes = λ y h.
          elim (put-Holds y x max_int l.nodes v.desc h) [ inl g ↦ inl g | inr (i, _) ↦ inr i ] in
        let low : (y : Node) → Holds y l.nodes → end_of y ≢ x.addr = λ y h. k y c h hc in
        elim (Option-cases (last? (above n l.nodes))) [
          | inl top ↦
              merge_above-Settled x x l.nodes grown m w k (omega arith) old low
                (λ y h g. absurd (top_near top y h (omega arith))) (λ j. absurd (ground arith))
                (rw (top, insert_into) at e)
          | inr (p, under) ↦
              let (hp, up) = last?-above n p l.nodes under in
              merge_above-Settled x p l.nodes grown m w k (omega arith) old low
                (λ y h g. near p under y h (omega arith))
                (λ _.
                  (hp, Holds-put p x l.nodes (omega arith) hp, All-Holds Fits p l.nodes v.fits hp))
                (rw (under, insert_into) at e)
        ]

  insert_at :
      (m : Chain) (at : List Node)
      → from n l.nodes ≡ at
      → insert_available n l ≡ some m
      → IsCoalesced m.nodes
  unfolding insert_available
  insert_at m [] at e =
      insert_apart-IsCoalesced m (λ y h g. absurd (omega (arith, from-none n y l.nodes h at)))
        (rw (insert_available, at) at e)
  insert_at m (c ∷ rest) at e =
      let (hc, le) = from-Holds n c rest l.nodes at in
      let fc = All-Holds Fits c l.nodes v.fits hc in
      elim (Bool-cases (adjacent c n)) [
        | inl joined ↦
            insert_into-IsCoalesced c rest m at (ground arith)
              (rw (insert_available, at, joined) at e)
        | inr off ↦
            insert_apart-IsCoalesced m (not_below c rest at (ground arith))
              (rw (insert_available, at, off) at e)
      ]

  -- Into a list where no two blocks touch, a block is put so that no two touch.
  pub insert_available-IsCoalesced :
      (m : Chain) → insert_available n l ≡ some m → IsCoalesced m.nodes
  insert_available-IsCoalesced m e = insert_at m (from n l.nodes) refl e

-- ===== src/Smalloc/Insert.antt =====
-- `delete` and `insert` of libs/src/libc/smalloc.c on a well-formed list: they do not fail, keep it
-- well-formed, and account for every node, merged or not.
use cibyl.Base.{
  ℕ, ◌+◌, ◌-◌, ◌%◌, ◌≤◌, ◌≡◌, refl, inl, inr, true, Option, some, List, [], ◌∷◌, Bool-cases,
  if◌then◌else◌, Option-cases, length, All, sum_of, arith,
}
use cibyl.Smalloc.{
  Node, Chain, overhead, max_int, word, adjacent, absorb, above, from, last?, put, delete, link,
  merge_above, insert_apart, insert_into, insert_available,
}
use cibyl.Smalloc.Nodes.{
  Desc, Holds, Vacant, without, All-Holds, All-without, All-put, All-insert, Desc-length,
  unlink-Holds, sum-without, length-without, Desc-without, Holds-without,
}
use cibyl.Smalloc.Edits.{
  sum-put, length-put, Desc-put, Holds-put, Holds-put_self, sum-insert, length-insert, Desc-insert,
  Holds-insert, Holds-insert_old, last?-above, from-Holds,
}

-- The block ends inside the signed address range.
abbrev pub Fits : Node → Type 0
Fits n = n.addr + overhead + n.rsize ≤ max_int

pub record IsChain (l : Chain) : Type 0 where
  pub desc : Desc max_int l.nodes
  pub fits : All Fits l.nodes
  pub counted : l.len ≡ length l.nodes

-- A measure for which a merged block counts as its two parts.
abbrev pub Additive : (Node → ℕ) → Type 0
Additive f =
    (a b : Node) → a.addr + overhead + a.rsize ≡ b.addr → Fits b → f (absorb a b) ≡ f a + f b

-- The run succeeds with a well-formed list, which holds `extra` besides what `l` held.
pub record Gains (extra : (Node → ℕ) → ℕ) (l : Chain) (out : Option Chain) : Type 0 where
  pub chain : Chain
  pub result : out ≡ some chain
  pub valid : IsChain chain
  pub sums : (f : Node → ℕ) → Additive f → sum_of f chain.nodes ≡ extra f + sum_of f l.nodes

Gains_trans :
    (extra : (Node → ℕ) → ℕ) (l m : Chain) {out : Option Chain}
    → ((f : Node → ℕ) → Additive f → sum_of f m.nodes ≡ extra f + sum_of f l.nodes)
    → Gains (λ f. 0) m out
    → Gains extra l out
Gains_trans extra l m grow g = record {
  chain = g.chain;
  result = g.result;
  valid = g.valid;
  sums = λ f add. omega (arith, grow f add, g.sums f add);
}

abbrev pub removed : Node → Chain → Chain
removed n l = record { nodes = without n l.nodes; len = (l.len + word - 1) % word }

pub delete-eq :
    (n : Node) (l : Chain) → IsChain l → Holds n l.nodes → delete n l ≡ some (removed n l)
unfolding delete
delete-eq n l v h = rw (unlink-Holds n max_int l.nodes v.desc h)

pub removed-IsChain : (n : Node) (l : Chain) → IsChain l → Holds n l.nodes → IsChain (removed n l)
removed-IsChain n l v h = record {
  desc = Desc-without n max_int l.nodes v.desc;
  fits = All-without Fits n l.nodes v.fits;
  counted = omega (
    arith,
    v.counted,
    length-without n max_int l.nodes v.desc h,
    Desc-length max_int l.nodes v.desc,
  );
}

pub link-IsChain :
    (n : Node) (l : Chain) → IsChain l → Fits n → Vacant n.addr l.nodes → IsChain (link n l)
unfolding link
link-IsChain n l v fit free = record {
  desc = Desc-insert n max_int l.nodes (omega arith) free v.desc;
  fits = All-insert Fits n l.nodes fit v.fits;
  counted = omega (arith, v.counted, length-insert n l.nodes, Desc-length max_int l.nodes v.desc);
}

module _ (n p : Node) (l : Chain) (v : IsChain l) (hn : Holds n l.nodes) where
  joined_addr : adjacent n p ≡ true → n.addr + overhead + n.rsize ≡ p.addr
  joined_addr e = let fit = All-Holds Fits n l.nodes v.fits hn in ground arith

  abbrev merged : Chain
  merged = record (removed p l) { nodes = put (absorb n p) (without p l.nodes) }

  module _ (e : n.addr + overhead + n.rsize ≡ p.addr) (hp : Holds p l.nodes) where
    Holds-rest : Holds n (without p l.nodes)
    Holds-rest = Holds-without n p max_int l.nodes v.desc hp hn (omega arith)

    merged-IsChain : IsChain merged
    merged-IsChain =
        let r = removed-IsChain p l v hp in
        record {
          desc = Desc-put (absorb n p) max_int (without p l.nodes) r.desc;
          fits =
              All-put Fits (absorb n p) (without p l.nodes)
                (omega (arith, All-Holds Fits p l.nodes v.fits hp)) r.fits;
          counted = omega (arith, r.counted, length-put (absorb n p) (without p l.nodes));
        }

    merged_sums : (f : Node → ℕ) → Additive f → sum_of f merged.nodes ≡ sum_of f l.nodes
    merged_sums f add = omega (
      arith,
      add n p e (All-Holds Fits p l.nodes v.fits hp),
      sum-without f p max_int l.nodes v.desc hp,
      sum-put f (absorb n p) n max_int (without p l.nodes) refl
          (Desc-without p max_int l.nodes v.desc) Holds-rest,
    )

  pub merge_above-Gains :
      (adjacent n p ≡ true → Holds p l.nodes) → Gains (λ f. 0) l (merge_above n p l)
  unfolding merge_above
  merge_above-Gains hp = elim (Bool-cases (adjacent n p)) [
    | inr apart ↦
        rw apart (record { chain = l; result = refl; valid = v; sums = λ f add. omega arith })
    | inl joined ↦
        rw (joined, delete-eq p l v (hp joined))
          (record {
            chain = merged;
            result = refl;
            valid = merged-IsChain (joined_addr joined) (hp joined);
            sums = λ f add. omega (arith, merged_sums (joined_addr joined) (hp joined) f add);
          })
  ]

module _ (n : Node) (l : Chain) (v : IsChain l) (fit : Fits n) where
  module _ (free : Vacant n.addr l.nodes) where
    link-Gains : Gains (λ f. f n) l (some (link n l))
    unfolding link
    link-Gains = record {
      chain = link n l;
      result = refl;
      valid = link-IsChain n l v fit free;
      sums = λ f add. sum-insert n f l.nodes;
    }

    insert_apart-Gains : Gains (λ f. f n) l (insert_apart n l)
    unfolding insert_apart link-Gains
    insert_apart-Gains = elim (Option-cases (last? (above n l.nodes))) [
      | inl top ↦ rw (top, insert_apart) link-Gains
      | inr (p, under) ↦
          rw (under, insert_apart)
            (Gains_trans (λ f. f n) l (link n l) link-Gains.sums
              (unfold link in
                merge_above-Gains n p (link n l) (link-IsChain n l v fit free)
                  (Holds-insert n l.nodes)
                  (λ _. Holds-insert_old n p l.nodes (last?-above n p l.nodes under).0)))
    ]

  module _ (c : Node) (hc : Holds c l.nodes) (le : c.addr ≤ n.addr)
      (e : c.addr + overhead + c.rsize ≡ n.addr) where
    abbrev grown : Chain
    grown = record l { nodes = put (absorb c n) l.nodes }

    pub grown-IsChain : IsChain grown
    grown-IsChain = record {
      desc = Desc-put (absorb c n) max_int l.nodes v.desc;
      fits = All-put Fits (absorb c n) l.nodes (omega arith) v.fits;
      counted = omega (arith, v.counted, length-put (absorb c n) l.nodes);
    }

    grown_sums : (f : Node → ℕ) → Additive f → sum_of f grown.nodes ≡ f n + sum_of f l.nodes
    grown_sums f add =
        omega (arith, add c n e fit, sum-put f (absorb c n) c max_int l.nodes refl v.desc hc)

    Holds-grown : Holds (absorb c n) grown.nodes
    Holds-grown = Holds-put_self (absorb c n) c max_int l.nodes refl v.desc hc

    insert_into-Gains : Gains (λ f. f n) l (insert_into c n l)
    unfolding insert_into
    insert_into-Gains = elim (Option-cases (last? (above n l.nodes))) [
      | inl top ↦
          rw (top, insert_into)
            (Gains_trans (λ f. f n) l grown grown_sums
              (merge_above-Gains (absorb c n) (absorb c n) grown grown-IsChain Holds-grown
                (λ _. Holds-grown)))
      | inr (p, under) ↦
          rw (under, insert_into)
            (let (hp, up) = last?-above n p l.nodes under in
              Gains_trans (λ f. f n) l grown grown_sums
                (merge_above-Gains (absorb c n) p grown grown-IsChain Holds-grown
                  (λ _. Holds-put p (absorb c n) l.nodes (omega arith) hp)))
    ]

  -- `insert(AVAILABLE, n)` of a block that overlaps none of the list: it succeeds, and the list
  -- holds the block besides what it held, merged with its neighbours or not.
  pub insert_available-Gains : Vacant n.addr l.nodes → Gains (λ f. f n) l (insert_available n l)
  unfolding insert_available
  insert_available-Gains free = by_stop (from n l.nodes) refl
    where
      by_stop :
          (stop : List Node)
          → from n l.nodes ≡ stop
          → Gains
              (λ f. f n)
              l
              (elim stop [
                | [] ↦ insert_apart n l
                | c ∷ rest ↦ if adjacent c n then insert_into c n l else insert_apart n l
              ])
      by_stop [] e = insert_apart-Gains free
      by_stop (c ∷ rest) e = elim (Bool-cases (adjacent c n)) [
        | inr apart ↦ rw apart (insert_apart-Gains free)
        | inl joined ↦ rw joined (
            let (hc, le) = from-Holds n c rest l.nodes e in
            let fits = All-Holds Fits c l.nodes v.fits hc in
            insert_into-Gains c hc le (ground arith))
      ]

-- ===== src/Smalloc/Touching.antt =====
-- When blocks of a list of libs/src/libc/smalloc.c overlap or touch.
use cibyl.Base.{ℕ, ◌+◌, ◌≤◌, ◌<◌, ◌≡◌, ◌≢◌, List, sum_of, arith}
use cibyl.Smalloc.{Node, Chain, overhead, max_int}
use cibyl.Smalloc.Nodes.{Desc, Holds, without, sum-without, Holds-without}
use cibyl.Smalloc.Insert.{IsChain}
use cibyl.Smalloc.Tiling.{covers, covers-le-sum}
use cibyl.Smalloc.Members.{without-Holds}

abbrev pub end_of : Node → ℕ
end_of n = n.addr + overhead + n.rsize

-- No block ends where another one begins.
abbrev pub IsCoalesced : List Node → Type 0
IsCoalesced cs = (a b : Node) → Holds a cs → Holds b cs → end_of a ≢ b.addr

-- The bytes of the list belong to one node each.
abbrev pub IsDisjoint : List Node → Type 0
IsDisjoint cs = (a : ℕ) → sum_of (covers a) cs ≤ 1

-- No byte of `n` belongs to a node of the list.
abbrev pub IsApart : Node → List Node → Type 0
IsApart n cs = (a : ℕ) → n.addr ≤ a → a < end_of n → sum_of (covers a) cs ≡ 0

pub disjoint_lem :
    (m n : Node) (b : ℕ) (cs : List Node)
    → Desc b cs
    → IsDisjoint cs
    → Holds m cs
    → Holds n cs
    → m.addr < n.addr
    → end_of m ≤ n.addr
disjoint_lem m n b cs d one hm hn lt = ground (
  arith,
  one n.addr,
  sum-without (covers n.addr) n b cs d hn,
  covers-le-sum n.addr m (without n cs) (Holds-without m n b cs d hn hm (omega arith)),
)

pub without-IsCoalesced :
    (n : Node) (l : Chain)
    → IsChain l
    → Holds n l.nodes
    → IsCoalesced l.nodes
    → IsCoalesced (without n l.nodes)
without-IsCoalesced n l v hn k a b ha hb =
    k a b (without-Holds a n max_int l.nodes v.desc hn ha).0
      (without-Holds b n max_int l.nodes v.desc hn hb).0

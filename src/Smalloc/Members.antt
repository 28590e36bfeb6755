-- ===== src/Smalloc/Members.antt =====
-- What is in the lists that `insert` and `delete` of libs/src/libc/smalloc.c leave, and which nodes
-- lie next to the place where the walk of `insert` stops.
use cibyl.Base.{
  ℕ, ◌≤◌, ◌<◌, ◌≡◌, refl, sym, ap, ◌∙◌, ◌≢◌, ◌⊎◌, inl, inr, true, false, none, some, List, [], ◌∷◌,
  ◌++◌, ltb, ◌==◌, Bool-cases, arith,
}
use cibyl.Smalloc.{Node, payload, above, from, last?, put}
use cibyl.Smalloc.Nodes.{Desc, Holds, without, Desc-Holds}

-- Two nodes of a list at the same address are one.
pub Holds-unique :
    (m n : Node) (b : ℕ) (cs : List Node)
    → Desc b cs
    → Holds m cs
    → Holds n cs
    → m.addr ≡ n.addr
    → m ≡ n
Holds-unique m n b [] d h k e = absurd h
Holds-unique m n b (c ∷ cs) d (inl g) (inl f) e = sym g ∙ f
Holds-unique m n b (c ∷ cs) d (inl g) (inr k) e =
    absurd (omega (arith, ap Node.addr g, Desc-Holds n c.addr cs d.1 k))
Holds-unique m n b (c ∷ cs) d (inr h) (inl f) e =
    absurd (omega (arith, ap Node.addr f, Desc-Holds m c.addr cs d.1 h))
Holds-unique m n b (c ∷ cs) d (inr h) (inr k) e = Holds-unique m n c.addr cs d.1 h k e

pub without-Holds :
    (m n : Node) (b : ℕ) (cs : List Node)
    → Desc b cs
    → Holds n cs
    → Holds m (without n cs)
    → Holds m cs × (m.addr ≢ n.addr)
unfolding without
without-Holds m n b [] d k h = absurd h
without-Holds m n b (c ∷ cs) d (inl e) h =
    let stop : ltb (payload n) (payload c) ≡ false = ground (arith, ap Node.addr e) in
    let r : Holds m cs = rw stop at h in
    (inr r, omega (arith, ap Node.addr e, Desc-Holds m c.addr cs d.1 r))
without-Holds m n b (c ∷ cs) d (inr k) h =
    let lt = Desc-Holds n c.addr cs d.1 k in
    let up : ltb (payload n) (payload c) ≡ true = ground arith in
    let r : (c ≡ m) ⊎ Holds m (without n cs) = rw up at h in
    elim r [
      | inl g ↦ (inl g, omega (arith, ap Node.addr g))
      | inr i ↦ let ih = without-Holds m n c.addr cs d.1 k i in (inr ih.0, ih.1)
    ]

pub put-Holds :
    (m n : Node) (b : ℕ) (cs : List Node)
    → Desc b cs
    → Holds m (put n cs)
    → (m ≡ n) ⊎ (Holds m cs × (m.addr ≢ n.addr))
unfolding put
put-Holds m n b [] d h = absurd h
put-Holds m n b (c ∷ cs) d h = elim (Bool-cases (c.addr == n.addr)) [
  | inl here ↦
      let r : (n ≡ m) ⊎ Holds m cs = rw here at h in
      elim r [
        | inl g ↦ inl (sym g)
        | inr i ↦ let lt = Desc-Holds m c.addr cs d.1 i in inr (inr i, ground arith)
      ]
  | inr on ↦
      let r : (c ≡ m) ⊎ Holds m (put n cs) = rw on at h in
      elim r [
        | inl g ↦ inr (inl g, ground (arith, ap Node.addr g))
        | inr i ↦ elim (put-Holds m n c.addr cs d.1 i) [
          | inl e ↦ inl e
          | inr k ↦ inr (inr k.0, k.1)
        ]
      ]
]

last?-least :
    (m p : Node) (b : ℕ) (cs : List Node)
    → Desc b cs
    → Holds m cs
    → last? cs ≡ some p
    → p.addr ≤ m.addr
unfolding last?
last?-least m p b [] d h e = absurd h
last?-least m p b (c ∷ []) d (inl g) e =
    let f : c ≡ p = cc in omega (arith, ap Node.addr f, ap Node.addr g)
last?-least m p b (c ∷ []) d (inr h) e = absurd h
last?-least m p b (c ∷ x ∷ cs) d (inl g) e =
    let ih = last?-least x p c.addr (x ∷ cs) d.1 (inl refl) e in omega (arith, ap Node.addr g)
last?-least m p b (c ∷ x ∷ cs) d (inr h) e = last?-least m p c.addr (x ∷ cs) d.1 h e

last?-Holds_some : (m : Node) (cs : List Node) → Holds m cs → last? cs ≢ none
unfolding last?
last?-Holds_some m [] h e = absurd h
last?-Holds_some m (c ∷ []) h e = cc
last?-Holds_some m (c ∷ x ∷ cs) h e = last?-Holds_some x (x ∷ cs) (inl refl) e

module _ (n : Node) where
  pub insert-Holds :
      (m : Node) (cs : List Node) → Holds m (above n cs ++ (n ∷ from n cs)) → (m ≡ n) ⊎ Holds m cs
  unfolding above from
  insert-Holds m [] (inl e) = inl (sym e)
  insert-Holds m [] (inr h) = absurd h
  insert-Holds m (c ∷ cs) h = elim (Bool-cases (ltb (payload n) (payload c))) [
    | inl up ↦
        let r : (c ≡ m) ⊎ Holds m (above n cs ++ (n ∷ from n cs)) = rw up at h in
        elim r [
          | inl g ↦ inr (inl g)
          | inr i ↦ elim (insert-Holds m cs i) [ inl e ↦ inl e | inr k ↦ inr (inr k) ]
        ]
    | inr stop ↦
        let r : (n ≡ m) ⊎ ((c ≡ m) ⊎ Holds m cs) = rw stop at h in
        elim r [ inl g ↦ inl (sym g) | inr i ↦ inr i ]
  ]

  Holds-above :
      (m : Node) (b : ℕ) (cs : List Node)
      → Desc b cs
      → Holds m cs
      → n.addr < m.addr
      → Holds m (above n cs)
  unfolding above
  Holds-above m b [] d h lt = absurd h
  Holds-above m b (c ∷ cs) d (inl g) lt =
      let up : ltb (payload n) (payload c) ≡ true = ground (arith, ap Node.addr g) in rw up (inl g)
  Holds-above m b (c ∷ cs) d (inr h) lt =
      let below = Desc-Holds m c.addr cs d.1 h in
      let up : ltb (payload n) (payload c) ≡ true = ground arith in
      rw up (inr (Holds-above m c.addr cs d.1 h lt))

  Desc-above : (b : ℕ) (cs : List Node) → Desc b cs → Desc b (above n cs)
  unfolding above
  Desc-above b [] d = tt
  Desc-above b (c ∷ cs) d = elim (Bool-cases (ltb (payload n) (payload c))) [
    | inl up ↦ rw up (d.0, Desc-above c.addr cs d.1)
    | inr stop ↦ rw stop tt
  ]

  -- No node lies between `n` and the node behind which the walk stopped.
  pub last?-le :
      (m p : Node) (b : ℕ) (cs : List Node)
      → Desc b cs
      → Holds m cs
      → n.addr < m.addr
      → last? (above n cs) ≡ some p
      → p.addr ≤ m.addr
  last?-le m p b cs d h lt =
      last?-least m p b (above n cs) (Desc-above b cs d) (Holds-above m b cs d h lt)

  pub last?-none :
      (m : Node) (b : ℕ) (cs : List Node)
      → Desc b cs
      → Holds m cs
      → n.addr < m.addr
      → last? (above n cs) ≢ none
  last?-none m b cs d h lt = last?-Holds_some m (above n cs) (Holds-above m b cs d h lt)

  -- No node lies between the node at which the walk stopped and `n`.
  pub from-le :
      (m c : Node) (rest : List Node) (b : ℕ) (cs : List Node)
      → Desc b cs
      → Holds m cs
      → m.addr ≤ n.addr
      → from n cs ≡ c ∷ rest
      → m.addr ≤ c.addr
  unfolding from
  from-le m c rest b [] d h le e = absurd h
  from-le m c rest b (x ∷ xs) d h le e = elim (Bool-cases (ltb (payload n) (payload x))) [
    | inl up ↦ elim h [
      | inl g ↦ absurd (ground (arith, ap Node.addr g))
      | inr i ↦ from-le m c rest x.addr xs d.1 i le (rw up at e)
    ]
    | inr stop ↦
        let f : x ≡ c = cc (rw stop at e) in
        elim h [
          | inl g ↦ omega (arith, ap Node.addr f, ap Node.addr g)
          | inr i ↦ omega (arith, ap Node.addr f, Desc-Holds m x.addr xs d.1 i)
        ]
  ]

  pub from-none : (m : Node) (cs : List Node) → Holds m cs → from n cs ≡ [] → n.addr < m.addr
  unfolding from
  from-none m [] h e = absurd h
  from-none m (x ∷ xs) h e = elim (Bool-cases (ltb (payload n) (payload x))) [
    | inl up ↦ elim h [
      | inl g ↦ ground (arith, ap Node.addr g)
      | inr i ↦ from-none m xs i (rw up at e)
    ]
    | inr stop ↦ absurd (cc (rw stop at e))
  ]

-- ===== src/Smalloc/Edits.antt =====
-- Writing to a linked node, linking a new one, and where the walk of `insert` in
-- libs/src/libc/smalloc.c stops.
use cibyl.Base.{
  ℕ, suc, ◌+◌, ◌≤◌, ◌<◌, ◌≡◌, refl, ap, subst, ◌≢◌, ◌⊎◌, inl, inr, true, false, some, List, [], ◌∷◌,
  ◌++◌, ltb, ◌==◌, Bool-cases, length, sum_of, arith,
}
use cibyl.Smalloc.{Node, payload, above, from, last?, put}
use cibyl.Smalloc.Nodes.{Desc, Holds, Vacant, Desc-Holds}

pub sum-put :
    (f : Node → ℕ) (n c : Node) (b : ℕ) (cs : List Node)
    → c.addr ≡ n.addr
    → Desc b cs
    → Holds c cs
    → sum_of f (put n cs) + f c ≡ sum_of f cs + f n
unfolding put
sum-put f n c b [] e d h = absurd h
sum-put f n c b (x ∷ xs) e d (inl g) = ground (arith, ap Node.addr g, ap f g)
sum-put f n c b (x ∷ xs) e d (inr h) =
    ground (arith, Desc-Holds c x.addr xs d.1 h, sum-put f n c x.addr xs e d.1 h)

pub length-put : (n : Node) (cs : List Node) → length (put n cs) ≡ length cs
unfolding put
length-put n [] = refl
length-put n (x ∷ xs) = ground (arith, length-put n xs)

pub Desc-put : (n : Node) (b : ℕ) (cs : List Node) → Desc b cs → Desc b (put n cs)
unfolding put
Desc-put n b [] d = tt
Desc-put n b (x ∷ xs) d = elim (Bool-cases (x.addr == n.addr)) [
  | inl here ↦
      let e : x.addr ≡ n.addr = ground arith in rw here (omega arith, subst (λ a. Desc a xs) e d.1)
  | inr on ↦ rw on (d.0, Desc-put n x.addr xs d.1)
]

pub Holds-put : (m n : Node) (cs : List Node) → m.addr ≢ n.addr → Holds m cs → Holds m (put n cs)
unfolding put
Holds-put m n [] ne h = absurd h
Holds-put m n (x ∷ xs) ne (inl g) =
    let on : (x.addr == n.addr) ≡ false = ground (arith, ap Node.addr g) in rw on (inl g)
Holds-put m n (x ∷ xs) ne (inr h) = elim (Bool-cases (x.addr == n.addr)) [
  | inl here ↦ rw here (inr h)
  | inr on ↦ rw on (inr (Holds-put m n xs ne h))
]

pub Holds-put_self :
    (n c : Node) (b : ℕ) (cs : List Node)
    → c.addr ≡ n.addr
    → Desc b cs
    → Holds c cs
    → Holds n (put n cs)
unfolding put
Holds-put_self n c b [] e d h = absurd h
Holds-put_self n c b (x ∷ xs) e d (inl g) =
    let here : (x.addr == n.addr) ≡ true = ground (arith, ap Node.addr g) in rw here (inl refl)
Holds-put_self n c b (x ∷ xs) e d (inr h) =
    let on : (x.addr == n.addr) ≡ false = ground (arith, Desc-Holds c x.addr xs d.1 h) in
    rw on (inr (Holds-put_self n c x.addr xs e d.1 h))

last?-Holds : (p : Node) (cs : List Node) → last? cs ≡ some p → Holds p cs
unfolding last?
last?-Holds p [] e = cc
last?-Holds p (c ∷ []) e = inl (cc)
last?-Holds p (c ∷ d ∷ cs) e = inr (last?-Holds p (d ∷ cs) e)

module _ (n : Node) where
  pub sum-insert :
      (f : Node → ℕ) (cs : List Node) → sum_of f (above n cs ++ (n ∷ from n cs)) ≡ f n + sum_of f cs
  unfolding above from
  sum-insert f [] = omega arith
  sum-insert f (c ∷ cs) = ground (arith, sum-insert f cs)

  pub length-insert : (cs : List Node) → length (above n cs ++ (n ∷ from n cs)) ≡ suc (length cs)
  unfolding above from
  length-insert [] = refl
  length-insert (c ∷ cs) = ground (arith, length-insert cs)

  pub Desc-insert :
      (b : ℕ) (cs : List Node)
      → n.addr < b
      → Vacant n.addr cs
      → Desc b cs
      → Desc b (above n cs ++ (n ∷ from n cs))
  unfolding above from
  Desc-insert b [] lt v d = (lt, tt)
  Desc-insert b (c ∷ cs) lt v d = elim (Bool-cases (ltb (payload n) (payload c))) [
    | inl up ↦ rw up (d.0, Desc-insert c.addr cs (ground arith) v.1 d.1)
    | inr stop ↦ let le : c.addr ≤ n.addr = ground arith in rw stop (lt, (omega arith, d.1))
  ]

  pub Holds-insert : (cs : List Node) → Holds n (above n cs ++ (n ∷ from n cs))
  unfolding above from
  Holds-insert [] = inl refl
  Holds-insert (c ∷ cs) = elim (Bool-cases (ltb (payload n) (payload c))) [
    | inl up ↦ rw up (inr (Holds-insert cs))
    | inr stop ↦ rw stop (inl refl)
  ]

  pub Holds-insert_old :
      (m : Node) (cs : List Node) → Holds m cs → Holds m (above n cs ++ (n ∷ from n cs))
  unfolding above from
  Holds-insert_old m [] h = absurd h
  Holds-insert_old m (c ∷ cs) h = elim (Bool-cases (ltb (payload n) (payload c))) [
    | inr stop ↦ rw stop (inr h)
    | inl up ↦ elim h [ inl g ↦ rw up (inl g) | inr k ↦ rw up (inr (Holds-insert_old m cs k)) ]
  ]

  above-Holds : (p : Node) (cs : List Node) → Holds p (above n cs) → Holds p cs × (n.addr < p.addr)
  unfolding above
  above-Holds p [] h = absurd h
  above-Holds p (c ∷ cs) h = elim (Bool-cases (ltb (payload n) (payload c))) [
    | inr stop ↦ absurd (rw stop at h)
    | inl up ↦
        let k : (c ≡ p) ⊎ Holds p (above n cs) = rw up at h in
        elim k [
          | inl g ↦ (inl g, ground (arith, ap Node.addr g))
          | inr r ↦ let ih = above-Holds p cs r in (inr ih.0, ih.1)
        ]
  ]

  -- The node behind which the walk stopped is in the list, and lies above.
  pub last?-above :
      (p : Node) (cs : List Node) → last? (above n cs) ≡ some p → Holds p cs × (n.addr < p.addr)
  last?-above p cs e = above-Holds p cs (last?-Holds p (above n cs) e)

  -- The node at which the walk stopped is in the list, and does not lie above.
  pub from-Holds :
      (c : Node) (rest cs : List Node) → from n cs ≡ c ∷ rest → Holds c cs × (c.addr ≤ n.addr)
  unfolding from
  from-Holds c rest [] e = cc
  from-Holds c rest (x ∷ xs) e = elim (Bool-cases (ltb (payload n) (payload x))) [
    | inl up ↦ let ih = from-Holds c rest xs (rw up at e) in (inr ih.0, ih.1)
    | inr stop ↦ let g : x ≡ c = cc (rw stop at e) in (inl g, ground (arith, ap Node.addr g))
  ]

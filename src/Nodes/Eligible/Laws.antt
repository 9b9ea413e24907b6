-- ===== src/Nodes/Eligible/Laws.antt =====
-- The node chosen for a new server can host it, and no other such node is less loaded.
use mathlib.Core.Logic.Or
use mathlib.Core.List.{Mem, Mem-prop, mem-cons, mem-cons_self, mem-cons_of_mem, not-mem-nil}
use mathlib.Core.Bool.{Bool-set}
use elysia_panel.Prelude.{
  ◌<◌, ◌≤◌, ◌^◌, ◌⊎◌, All-select as All-kept, Bool, true, false, ◌≡◌, refl, sym, subst, inl, inr,
  List, [], ◌∷◌, select, All, arith, Bool-cases, if◌then◌else◌,
}
use elysia_panel.Prelude.Int.{pos, pos_part, neg_part}
use elysia_panel.Prelude.Each.{All-weaken}
use elysia_panel.World.Schema.{Node, NodeStatus}
use elysia_panel.World.State.{World}
use elysia_panel.World.Action.{Result, ok, err, bad_request}
use elysia_panel.Nodes.Eligible.{
  Doubles, Requirements, is_online, is_candidate, fits, before, insert_node, sort_nodes,
  find_eligible_node,
}

-- The memory of a node is positive, as the validation of its creation demands, and the numbers that
-- its load is made of fit the database's 32-bit column.
abbrev pub HasLoad : Node → Type 0
HasLoad n =
    (0 < n.memory_mb)
    × (n.memory_mb < 2 ^ 31)
    × (pos_part n.memory_allocated_mb < 2 ^ 31)
    × (neg_part n.memory_allocated_mb ≤ 2 ^ 31)

-- The comparator is consistent on such nodes, where no quotient is NaN or infinite: there, the sign
-- of a difference of two doubles tells which is less, and `before` is a strict weak order.
pub record IsConsistent (d : Doubles) : Type 0 where
  pub asymmetric : (a b : Node) → HasLoad a → HasLoad b → before d a b ≡ true → before d b a ≡ false
  pub negatively_transitive :
      (a b c : Node)
      → HasLoad a
      → HasLoad b
      → HasLoad c
      → before d a b ≡ false
      → before d b c ≡ false
      → before d a c ≡ false

-- There is room on the node for what is asked for: with it, what is allocated stays within the
-- whole, raised by the percentage of overallocation, for the processor, the memory and the disk.
abbrev pub HasRoom : Doubles → Requirements → Node → Type 0
HasRoom d r n =
    (d.le (d.add (d.of_ℤ n.cpu_allocated_pct) (d.of_ℤ (pos r.cpu_pct))) (
        d.mul (d.mul (d.of_ℤ (pos n.cpu_cores)) (d.of_ℤ (pos 100)))
          (d.add (d.of_ℤ (pos 1)) (d.div (d.of_ℤ (pos n.overallocate_cpu_pct)) (d.of_ℤ (pos 100)))))
      ≡ true)
    × (d.le (d.add (d.of_ℤ n.memory_allocated_mb) (d.of_ℤ (pos r.memory_mb))) (
          d.mul (d.of_ℤ (pos n.memory_mb)) (
            d.add (d.of_ℤ (pos 1))
              (d.div (d.of_ℤ (pos n.overallocate_mem_pct)) (d.of_ℤ (pos 100)))))
        ≡ true)
    × (d.le (d.add (d.of_ℤ n.disk_allocated_mb) (d.of_ℤ (pos r.disk_mb))) (
          d.mul (d.of_ℤ (pos n.disk_mb)) (
            d.add (d.of_ℤ (pos 1))
              (d.div (d.of_ℤ (pos n.overallocate_disk_pct)) (d.of_ℤ (pos 100)))))
        ≡ true)

-- An online node outside maintenance with room.
abbrev pub IsEligible : Doubles → Requirements → Node → Type 0
IsEligible d r n = (n.status ≡ NodeStatus.online) × (n.maintenance_mode ≡ false) × HasRoom d r n

-- The part of a node's memory that is allocated.
abbrev pub used_share : (d : Doubles) → Node → d.Num
used_share d n = d.div (d.of_ℤ n.memory_allocated_mb) (d.of_ℤ (pos n.memory_mb))

is_online_only : (s : NodeStatus) → is_online s ≡ true → s ≡ NodeStatus.online
unfolding is_online
is_online_only NodeStatus.online h = refl
is_online_only NodeStatus.offline h = absurd (cc)
is_online_only NodeStatus.maintenance h = absurd (cc)
is_online_only NodeStatus.degraded h = absurd (cc)

online_is : (s : NodeStatus) → s ≡ NodeStatus.online → is_online s ≡ true
unfolding is_online
online_is s h = rw h refl

tests-IsEligible :
    (d : Doubles) (r : Requirements) (n : Node)
    → is_candidate n ≡ true
    → fits d r n ≡ true
    → IsEligible d r n
unfolding fits
tests-IsEligible d r n c f = (
  is_online_only n.status (ground arith),
  ground arith,
  (ground arith, ground arith, ground arith),
)

IsEligible-tests :
    (d : Doubles) (r : Requirements) (n : Node)
    → IsEligible d r n
    → (is_candidate n ≡ true) × (fits d r n ≡ true)
unfolding fits
IsEligible-tests d r n (online, working, (cpu, memory, disk)) =
    (ground (arith, online_is n.status online, working), ground (arith, cpu, memory, disk))

module _ (d : Doubles) where
  insert_not_empty : (x : Node) (sorted : List Node) → insert_node d x sorted ≡ [] → ⊥
  unfolding insert_node
  insert_not_empty x [] e = cc
  insert_not_empty x (y ∷ ys) e = ground arith

  sort_empty : (xs : List Node) → sort_nodes d xs ≡ [] → xs ≡ []
  unfolding sort_nodes
  sort_empty [] e = refl
  sort_empty (x ∷ xs) e = absurd (insert_not_empty x (sort_nodes d xs) e)

module _ (d : Doubles) (c : IsConsistent d) where
  -- Nothing in the list goes strictly before the node.
  abbrev IsLeast : Node → List Node → Type 0
  IsLeast n = All (λ m. before d m n ≡ false)

  -- A node of the list with a load, which nothing in the list goes before.
  abbrev IsFirst : Node → List Node → Type 0
  IsFirst n xs = IsLeast n xs × Mem n xs × HasLoad n

  irreflexive : (a : Node) → HasLoad a → before d a a ≡ false
  irreflexive a h = ground (arith, c.asymmetric a a h h)

  IsLeast-trans :
      (a b : Node) (xs : List Node)
      → HasLoad a
      → HasLoad b
      → All HasLoad xs
      → before d b a ≡ false
      → IsLeast b xs
      → IsLeast a xs
  IsLeast-trans a b [] ha hb hs h l = tt
  IsLeast-trans a b (x ∷ xs) ha hb hs h l =
      (c.negatively_transitive x b a hs.0 hb ha l.0 h, IsLeast-trans a b xs ha hb hs.1 h l.1)

  -- The head of the sorted list, by the head of the sorted tail.
  insert_head :
      (x n : Node) (sorted rest xs : List Node)
      → HasLoad x
      → All HasLoad xs
      → insert_node d x sorted ≡ n ∷ rest
      → ((y : Node) (ys : List Node) → sorted ≡ y ∷ ys → IsFirst y xs)
      → (sorted ≡ [] → xs ≡ [])
      → IsFirst n (x ∷ xs)
  unfolding insert_node
  insert_head x n [] rest xs hx hs e step empty =
      let same_node : x ≡ n = ground arith in
      subst (λ k. IsFirst k (x ∷ xs)) same_node
        ((irreflexive x hx, subst (λ l. IsLeast x l) (sym (empty refl)) tt), mem-cons_self, hx)
  insert_head x n (y ∷ ys) rest xs hx hs e step empty =
      let (least, member, hy) = step y ys refl in
      elim (Bool-cases (before d y x)) [
        | inl first ↦
            let same_node : y ≡ n = ground arith in
            subst (λ k. IsFirst k (x ∷ xs)) same_node
              ((c.asymmetric y x hy hx first, least), mem-cons.1 (Or.inr member), hy)
        | inr later ↦
            let same_node : x ≡ n = ground arith in
            subst (λ k. IsFirst k (x ∷ xs)) same_node
              ((irreflexive x hx, IsLeast-trans x y xs hx hy hs later least), mem-cons_self, hx)
      ]

  sort_head :
      (xs : List Node) (n : Node) (rest : List Node)
      → All HasLoad xs
      → sort_nodes d xs ≡ n ∷ rest
      → IsFirst n xs
  unfolding sort_nodes
  sort_head [] n rest hs e = absurd (cc)
  sort_head (x ∷ xs) n rest hs e =
      insert_head x n (sort_nodes d xs) rest xs hs.0 hs.1 e (λ y ys h. sort_head xs y ys hs.1 h)
        (sort_empty d xs)

  -- A test that every selected node passes is passed, behind the selection's test, by every node.
  All-select :
      (p q : Node → Bool) (n : Node) (xs : List Node)
      → IsLeast n (select q (select p xs))
      → All (λ m. (p m ≡ true) → (q m ≡ true) → before d m n ≡ false) xs
  All-select p q n [] l = tt
  All-select p q n (x ∷ xs) l = elim (Bool-cases (p x)) [
    | inr out ↦ (
      (λ a _. absurd (ground arith)),
      All-select p q n xs
          (subst (λ t. IsLeast n (select q (if t then x ∷ select p xs else select p xs))) out l),
    )
    | inl inside ↦ elim (Bool-cases (q x)) [
      | inr out ↦ ((λ _ a. absurd (ground arith)), All-select p q n xs (rw (inside, out) at l))
      | inl chosen ↦
          let l' : IsLeast n (x ∷ select q (select p xs)) = rw (inside, chosen) at l in
          ((λ _ _. l'.0), All-select p q n xs l'.1)
    ]
  ]

mem-select : (p : Node → Bool) (n : Node) (xs : List Node) → Mem n (select p xs) → Mem n xs
mem-select p n [] m = m
mem-select p n (x ∷ xs) m = elim (Bool-cases (p x)) [
  | inl inside ↦
      let m' : Mem n (x ∷ select p xs) = rw inside at m in
      Or.elim Mem-prop (mem-cons.0 m') (λ e. mem-cons.1 (Or.inl e))
        (λ r. mem-cons_of_mem x (mem-select p n xs r))
  | inr out ↦ mem-cons_of_mem x (mem-select p n xs (rw out at m))
]

select_passes : (p : Node → Bool) (n : Node) (xs : List Node) → Mem n (select p xs) → p n ≡ true
select_passes p n [] m = absurd (not-mem-nil m)
select_passes p n (x ∷ xs) m = elim (Bool-cases (p x)) [
  | inl inside ↦
      let m' : Mem n (x ∷ select p xs) = rw inside at m in
      Or.elim (Bool-set _ _) (mem-cons.0 m') (λ e. rw e inside) (select_passes p n xs)
  | inr out ↦ select_passes p n xs (rw out at m)
]

nothing_selected :
    (p q : Node → Bool) (xs : List Node)
    → select q (select p xs) ≡ []
    → All (λ m. (p m ≡ true) → q m ≡ false) xs
nothing_selected p q [] e = tt
nothing_selected p q (x ∷ xs) e = ground (arith, nothing_selected p q xs)

module _ (d : Doubles) (r : Requirements) (w : World) where
  -- The sorted list of eligible nodes.
  abbrev eligible : List Node
  eligible = sort_nodes d (select (fits d r) (select is_candidate w.nodes))

  outcome_of :
      (l : List Node)
      → eligible ≡ l
      → ((n : Node) × (rest : List Node) × (eligible ≡ n ∷ rest)
          × (find_eligible_node d r w ≡ (ok n, w)))
        ⊎ ((eligible ≡ [])
            × (find_eligible_node d r w
                ≡ (err (bad_request "Aucun node disponible avec suffisamment de capacité"), w)))
  unfolding find_eligible_node
  outcome_of [] e = inr (e, ground arith)
  outcome_of (n ∷ rest) e = inl (n, rest, e, ground arith)

  pub find_eligible_node-state : (find_eligible_node d r w).1 ≡ w
  unfolding find_eligible_node
  find_eligible_node-state = ground arith

  -- A node that was chosen is a stored one that is eligible, and no other eligible node has less of
  -- its memory allocated; the request is refused only if no node is eligible.
  abbrev pub IsChoice : Result Node × World → Type 0
  IsChoice outcome =
      ((n : Node) × (outcome ≡ (ok n, w))
        × Mem n w.nodes
        × IsEligible d r n
        × All
            (λ m.
              IsEligible d r m → d.is_negative (d.sub (used_share d m) (used_share d n)) ≡ false)
            w.nodes)
      ⊎ ((outcome ≡ (err (bad_request "Aucun node disponible avec suffisamment de capacité"), w))
          × All (λ m. ¬ IsEligible d r m) w.nodes)

  -- The choice of a node gives an online node outside maintenance that has room for the request in
  -- processor, memory and disk, and than which no other such node has a smaller part of its memory
  -- allocated. It is refused only if there is no such node, and nothing is written in either case.
  -- Every stored node has a positive memory and numbers of a 32-bit column, and the comparison of
  -- loads is consistent on such nodes.
  pub find_eligible_node_outcome :
      IsConsistent d → All HasLoad w.nodes → IsChoice (find_eligible_node d r w)
  unfolding before
  find_eligible_node_outcome c loads = elim (outcome_of eligible refl) [
    | inl (n, rest, e, chosen) ↦
        let candidates : List Node = select is_candidate w.nodes in
        let (least, m, _) =
          sort_head d c (select (fits d r) candidates) n rest
            (All-kept HasLoad (fits d r) candidates (All-kept HasLoad is_candidate w.nodes loads))
            e in
        let m' : Mem n candidates = mem-select (fits d r) n candidates m in
        inl (
          n,
          chosen,
          mem-select is_candidate n w.nodes m',
          tests-IsEligible d r n (select_passes is_candidate n w.nodes m')
              (select_passes (fits d r) n candidates m),
          All-weaken _ _ w.nodes
              (λ x h eligible_too.
                let (candidate, room) = IsEligible-tests d r x eligible_too in h candidate room)
              (All-select d c is_candidate (fits d r) n w.nodes least),
        )
    | inr (e, refusal) ↦ inr (
      refusal,
      All-weaken _ _ w.nodes
          (λ x h eligible_too.
            let (candidate, room) = IsEligible-tests d r x eligible_too in
            absurd (ground (arith, h candidate)))
          (nothing_selected is_candidate (fits d r) w.nodes (sort_empty d _ e)),
    )
  ]

-- ===== src/Ring/Replicas.antt =====
-- The replicas that a client writes to, and the successors that the primary node keeps in step.
use hydfs.Prelude.{
  ℕ, zero, suc, ◌+◌, ◌-◌, ◌%◌, ◌<◌, ◌≤◌, ◌≡◌, ◌≢◌, refl, sym, ap, ◌∙◌, Option, none, some, List, [],
  ◌∷◌, ◌++◌, true, length, get_elem?, ltb, Bool-cases, some_eq, inl, inr, arith, if◌then◌else◌, All,
  lt→ltb,
}
use hydfs.Member.{Member, member_id, is_alive}
use hydfs.Membership.Identity.{HasUniqueIds}
use hydfs.Ring.{
  alive_at, get_ring_successor_idx, successor_loop, target_loop, when_alive, get_successors,
  find_target_nodes, primary_index, get_node_index,
}
use hydfs.Ring.Indices.{get_node_index-at, alive_at-lt, alive_at-get, get_elem?_alive}

abbrev pub Extends : List Member → List Member → Type 0
Extends whole part = (extra : List Member) × (whole ≡ part ++ extra)

when_alive-Extends :
    (o : Option Member) (whole part : List Member)
    → Extends whole part
    → Extends (when_alive o whole) (when_alive o part)
when_alive-Extends none whole part (extra, e) = (extra, e)
when_alive-Extends (some m) whole part (extra, e) = elim (Bool-cases (is_alive m)) [
  | inl a ↦ rw a (extra, ap (◌∷◌ m) e)
  | inr d ↦ rw d (extra, e)
]

successor_step :
    (members : List Member) (p n rounds i count : ℕ)
    → count < n - 1
    → successor_loop members p n (suc rounds) i count
      ≡ when_alive (get_elem? members ((p + i) % length members)) (
          successor_loop members p n rounds
            (suc i)
            (if alive_at members ((p + i) % length members) then suc count else count))
unfolding successor_loop
successor_step members p n rounds i count l = rw (lt→ltb count (n - 1) l) refl

module _ (members : List Member) (p n : ℕ) where
  -- the successors begin with the targets behind the primary
  loop-Extends :
      (k rounds i count : ℕ)
      → k ≤ rounds
      → count + k ≤ n - 1
      → Extends (successor_loop members p n rounds i count) (target_loop members p k i)
  unfolding target_loop
  loop-Extends zero rounds i count l b = (successor_loop members p n rounds i count, refl)
  loop-Extends (suc k) zero i count l b = absurd (omega arith)
  loop-Extends (suc k) (suc rounds) i count l b =
      rw (successor_step members p n rounds i count (omega arith)) (
        when_alive-Extends (get_elem? members ((p + i) % length members)) _ _ (
          loop-Extends k rounds (suc i)
            (if alive_at members ((p + i) % length members) then suc count else count) (omega arith)
            (ground arith)))

  loop-all_alive :
      (k rounds i count : ℕ)
      → ((j : ℕ) → j < length members → alive_at members j ≡ true)
      → 0 < length members
      → k ≤ rounds
      → count + k ≡ n - 1
      → successor_loop members p n rounds i count ≡ target_loop members p k i
  unfolding target_loop
  loop-all_alive zero zero i count a z l b = stop
    where
      stop : successor_loop members p n zero i count ≡ []
      stop = unfold successor_loop in refl
  loop-all_alive zero (suc rounds) i count a z l b = stop
    where
      stop : successor_loop members p n (suc rounds) i count ≡ []
      stop = unfold successor_loop in ground arith
  loop-all_alive (suc k) zero i count a z l b = absurd (omega arith)
  loop-all_alive (suc k) (suc rounds) i count a z l b =
      rw (successor_step members p n rounds i count (omega arith)) (
        rw (a ((p + i) % length members) (grind arith)) (
          ap (when_alive (get_elem? members ((p + i) % length members)))
            (loop-all_alive k rounds (suc i) (suc count) a z (omega arith) (omega arith))))

  loop-length :
      (rounds i count : ℕ) → length (successor_loop members p n rounds i count) ≤ n - 1 - count
  unfolding successor_loop
  loop-length zero i count = omega arith
  loop-length (suc rounds) i count =
      ground (arith, loop-length rounds (suc i) (suc count), loop-length rounds (suc i) count)

-- a position that is 1 to n - 1 steps away is another one
step_away : (p i n : ℕ) → p < n → 0 < i → i < n → (p + i) % n ≢ p
step_away p i n b pos l = grind arith

module _ (members : List Member) (p : ℕ) (u : HasUniqueIds members) {m : Member}
    (g : get_elem? members p ≡ some m) (bound : p < length members) where
  abbrev IsSuccessor : Member → Type 0
  IsSuccessor x = (is_alive x ≡ true) × (member_id x ≢ member_id m)

  other_member :
      (i : ℕ) {x : Member}
      → 0 < i
      → i < length members
      → get_elem? members ((p + i) % length members) ≡ some x
      → member_id x ≢ member_id m
  other_member i {x} pos l e same = step_away p i (length members) bound pos l (
      some_eq (
        sym (get_node_index-at members ((p + i) % length members) u e)
        ∙ ap (get_node_index members) same
        ∙ get_node_index-at members p u g))

  when_alive-IsSuccessor :
      (o : Option Member) (rest : List Member)
      → ((x : Member) → o ≡ some x → member_id x ≢ member_id m)
      → All IsSuccessor rest
      → All IsSuccessor (when_alive o rest)
  when_alive-IsSuccessor none rest d h = h
  when_alive-IsSuccessor (some x) rest d h = elim (Bool-cases (is_alive x)) [
    | inl a ↦ rw a ((a, d x refl), h)
    | inr dead ↦ rw dead h
  ]

  loop-IsSuccessor :
      (n rounds i count : ℕ)
      → 0 < i
      → i + rounds ≤ length members
      → All IsSuccessor (successor_loop members p n rounds i count)
  unfolding successor_loop get_ring_successor_idx
  loop-IsSuccessor n zero i count pos l = tt
  loop-IsSuccessor n (suc rounds) i count pos l = elim (Bool-cases (ltb count (n - 1))) [
    | inl e ↦ rw e (
        when_alive-IsSuccessor _ _ (λ x q. other_member i {x = x} pos (omega arith) q)
          (loop-IsSuccessor n rounds (suc i) _ (omega arith) (omega arith)))
    | inr e ↦ rw e tt
  ]

-- The successors of a node are alive, are other nodes, and are at most one fewer than the
-- replication factor. The list has no repeated IDs.
pub get_successors_lem :
    (members : List Member) (n p : ℕ) {m : Member}
    → HasUniqueIds members
    → get_elem? members p ≡ some m
    → p < length members
    → All
        (λ x. (is_alive x ≡ true) × (member_id x ≢ member_id m))
        (get_successors members (member_id m) n)
      × (length (get_successors members (member_id m) n) ≤ n - 1)
unfolding get_successors
get_successors_lem members n p u g b = rw (get_node_index-at members p u g) (
  loop-IsSuccessor members p u g b n (length members - 1) 1 0 (omega arith) (omega arith),
  omega (arith, loop-length members p n (length members - 1) 1 0),
)

-- The targets of a write are the first nodes of the list that starts with the primary node and goes
-- on with the successors to which that node pushes the file: no client writes to a node that the
-- primary does not keep in step. It holds where there is an alive primary node, for at most as many
-- replicas as there are members, in a list without repeated IDs.
pub find_target_nodes-Extends :
    (members : List Member) (h k p : ℕ) {m : Member}
    → HasUniqueIds members
    → k < length members
    → primary_index members h ≡ some p
    → get_elem? members p ≡ some m
    → is_alive m ≡ true
    → Extends
        (m ∷ get_successors members (member_id m) (suc k))
        (find_target_nodes members h (suc k))
unfolding find_target_nodes get_successors target_loop
find_target_nodes-Extends members h k p {m} u b e g a =
    let l : p < length members = alive_at-lt members p (alive_at-get members p g a) in
    let at_p : (p + 0) % length members ≡ p = grind arith in
    rw (e, get_node_index-at members p u g)
      (rw at_p (
        rw g (
          rw a (
            head_Extends m _ _ (
              loop-Extends members p (suc k) k (length members - 1) 1 0 (omega arith)
                (omega arith))))))
  where
    head_Extends :
        (x : Member) (whole part : List Member)
        → Extends whole part
        → Extends (x ∷ whole) (x ∷ part)
    head_Extends x whole part (extra, q) = (extra, ap (◌∷◌ x) q)

length-target_loop :
    (members : List Member) (p k i : ℕ)
    → ((j : ℕ) → j < length members → alive_at members j ≡ true)
    → 0 < length members
    → length (target_loop members p k i) ≡ k
unfolding target_loop
length-target_loop members p zero i a z = refl
length-target_loop members p (suc k) i a z =
    let (x, e, live) =
      get_elem?_alive members ((p + i) % length members)
        (a ((p + i) % length members) (grind arith)) in
    rw e (rw live (ap suc (length-target_loop members p k (suc i) a z)))

-- Where every member is alive, a write goes to the primary node and to all of its successors, and
-- to as many nodes as the replication factor says, if there are that many members.
pub find_target_nodes_all_alive :
    (members : List Member) (h k p : ℕ) {m : Member}
    → HasUniqueIds members
    → k < length members
    → ((j : ℕ) → j < length members → alive_at members j ≡ true)
    → primary_index members h ≡ some p
    → get_elem? members p ≡ some m
    → p < length members
    → (find_target_nodes members h (suc k) ≡ m ∷ get_successors members (member_id m) (suc k))
      × (length (find_target_nodes members h (suc k)) ≡ suc k)
unfolding find_target_nodes get_successors
find_target_nodes_all_alive members h k p {m} u b a e g l = (
  rw (e, get_node_index-at members p u g)
      (first
        ∙ ap (◌∷◌ m) (
            sym (
              loop-all_alive members p (suc k) k (length members - 1) 1 0 a (omega arith)
                (omega arith) (omega arith)))),
  rw e (length-target_loop members p (suc k) 0 a (omega arith)),
)
  where
    at_p : (p + 0) % length members ≡ p
    at_p = grind arith

    live : is_alive m ≡ true
    live = ground (arith, a p)

    first : target_loop members p (suc k) 0 ≡ m ∷ target_loop members p k 1
    first = unfold target_loop in rw at_p (rw g (rw live refl))

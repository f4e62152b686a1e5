-- ===== src/Ring/Primary.antt =====
-- `findTargetNodes` and `GetPrimaryKeyRange` agree on who is the primary node of a hash.
use native.Mathlib.Decide.{dec_lt}
use mathlib.Core.List.{head?}
use hydfs.Prelude.{
  ◌%◌, ℕ, zero, suc, ◌+◌, ◌<◌, ◌≤◌, ◌≡◌, refl, sym, ap, subst, ◌∙◌, ◌↔◌, Option, none, some, List,
  [], ◌∷◌, Bool, true, false, ◌&&◌, length, get_elem?, leb, some_eq, inl, inr, ◌⊎◌, arith,
}
use hydfs.Member.{Member, member_id, is_alive}
use hydfs.Membership.Identity.{HasUniqueIds}
use hydfs.Ring.{
  alive_at, hash_at, alive_predecessor, is_hash_in_range, primary_index, find_index,
  get_primary_key_range, find_target_nodes, get_node_index, target_loop,
}
use hydfs.Ring.Indices.{
  IsRing, hash_at_mono, alive_at-lt, alive_at-get, get_elem?_alive, Finds, find_index-Finds,
  test_at, get_node_index-at,
}
use hydfs.Ring.Predecessor.{Precedes, alive_predecessor-Walks}

-- The primary position of a hash: the first alive one whose hash is not below it, or the first
-- alive one of all if every alive hash is below it.
abbrev pub IsPrimary : List Member → ℕ → ℕ → Type 0
IsPrimary members h p =
    (alive_at members p ≡ true)
    × (((h ≤ hash_at members p)
          × ((i : ℕ) → i < p → alive_at members i ≡ true → hash_at members i < h))
        ⊎ (((i : ℕ) → alive_at members i ≡ true → hash_at members i < h)
            × ((i : ℕ) → i < p → alive_at members i ≡ false)))

reaches : List Member → ℕ → ℕ → Bool
reaches members h i = test_at (λ m. is_alive m && leb h m.hash) members i

reaches_lem :
    (members : List Member) (h i : ℕ)
    → reaches members h i ≡ (alive_at members i && leb h (hash_at members i))
unfolding reaches
reaches_lem [] h i = refl
reaches_lem (m ∷ members) h zero = refl
reaches_lem (m ∷ members) h (suc i) = reaches_lem members h i

below_of :
    (members : List Member) (h i : ℕ)
    → reaches members h i ≡ false
    → alive_at members i ≡ true
    → hash_at members i < h
below_of members h i d a = ground (arith, reaches_lem members h i)

IsPrimary-first :
    (members : List Member) (h p : ℕ)
    → reaches members h p ≡ true
    → ((i : ℕ) → i < p → reaches members h i ≡ false)
    → IsPrimary members h p
IsPrimary-first members h p t f = (
  ground (arith, reaches_lem members h p),
  inl (ground (arith, reaches_lem members h p), (λ i l a. below_of members h i (f i l) a)),
)

-- what the two searches of `findTargetNodes` find
abbrev Primes : List Member → ℕ → Option ℕ → Type 0
Primes members h none = (i : ℕ) → alive_at members i ≡ false
Primes members h (some p) = IsPrimary members h p

primary_index-Primes : (members : List Member) (h : ℕ) → Primes members h (primary_index members h)
unfolding primary_index reaches
primary_index-Primes members h =
    by_first (find_index (λ m. is_alive m && leb h m.hash) members) refl
      (find_index is_alive members) refl
  where
    by_first :
        (o : Option ℕ)
        → find_index (λ m. is_alive m && leb h m.hash) members ≡ o
        → (o' : Option ℕ) → find_index is_alive members ≡ o'
        → Primes members h (primary_index members h)
    by_first (some p) e o' e' =
        let f =
          subst (Finds (λ m. is_alive m && leb h m.hash) members) e
            (find_index-Finds (λ m. is_alive m && leb h m.hash) members) in
        rw (e, primary_index) (IsPrimary-first members h p f.0 f.1)
    by_first none e (some p) e' =
        let f =
          subst (Finds (λ m. is_alive m && leb h m.hash) members) e
            (find_index-Finds (λ m. is_alive m && leb h m.hash) members) in
        let g = subst (Finds is_alive members) e' (find_index-Finds is_alive members) in
        rw (e, primary_index) (rw e' (g.0, inr ((λ i a. below_of members h i (f i) a), g.1)))
    by_first none e none e' =
        let g = subst (Finds is_alive members) e' (find_index-Finds is_alive members) in
        rw (e, primary_index) (rw e' g)

IsPrimary-before :
    (members : List Member) (h p p' : ℕ)
    → IsRing members
    → IsPrimary members h p
    → IsPrimary members h p'
    → ¬ (p < p')
IsPrimary-before members h p p' r (a, inl (reach, below)) (a', inl (reach', below')) l =
    omega (arith, below' p l a)
IsPrimary-before members h p p' r (a, inl (reach, below)) (a', inr (below', dead')) l =
    omega (arith, below' p a)
IsPrimary-before members h p p' r (a, inr (below, dead)) (a', inl (reach', below')) l =
    omega (arith, below p' a')
IsPrimary-before members h p p' r (a, inr (below, dead)) (a', inr (below', dead')) l =
    cc (sym a ∙ dead' p l)

IsPrimary-unique :
    (members : List Member) (h p p' : ℕ)
    → IsRing members
    → IsPrimary members h p
    → IsPrimary members h p'
    → p ≡ p'
IsPrimary-unique members h p p' r x y =
    omega (arith, IsPrimary-before members h p p' r x y, IsPrimary-before members h p' p r y x)

pub primary_index-eq :
    (members : List Member) (h p : ℕ)
    → IsRing members
    → IsPrimary members h p
    → primary_index members h ≡ some p
primary_index-eq members h p r x = go (primary_index members h) refl
  where
    go : (o : Option ℕ) → primary_index members h ≡ o → primary_index members h ≡ some p
    go none e = cc (sym x.0 ∙ subst (Primes members h) e (primary_index-Primes members h) p)
    go (some p') e =
        e
        ∙ ap some (
            IsPrimary-unique members h p' p r
              (subst (Primes members h) e (primary_index-Primes members h)) x)

abbrev in_range : List Member → ℕ → ℕ → ℕ → Bool
in_range members h q p = is_hash_in_range h (hash_at members q) (hash_at members p)

pub not_below :
    (members : List Member) (p q : ℕ)
    → IsRing members
    → p ≤ q
    → q < length members
    → hash_at members p ≤ hash_at members q
not_below members p q r l b = elim (dec_lt p q) [
  | yes h ↦ omega (arith, hash_at_mono members p q r h b)
  | no h ↦ let e : p ≡ q = omega arith in rw e (omega arith)
]

primary_in_range :
    (members : List Member) (h p q : ℕ)
    → IsRing members
    → IsPrimary members h p
    → Precedes members p q
    → in_range members h q p ≡ true
unfolding is_hash_in_range
primary_in_range members h p q r (a, inl (reach, below)) (aq, inl (l, dead)) =
    ground (arith, below q l aq, hash_at_mono members q p r l (alive_at-lt members p a))
primary_in_range members h p q r (a, inl (reach, below)) (aq, inr (l, low, high)) =
    ground (arith, not_below members p q r l (alive_at-lt members q aq))
primary_in_range members h p q r (a, inr (below, dead)) (aq, inl (l, between)) =
    cc (sym aq ∙ dead q l)
primary_in_range members h p q r (a, inr (below, dead)) (aq, inr (l, low, high)) =
    ground (arith, below q aq, not_below members p q r l (alive_at-lt members q aq))

range-IsPrimary :
    (members : List Member) (h p q : ℕ)
    → IsRing members
    → alive_at members p ≡ true
    → Precedes members p q
    → in_range members h q p ≡ true
    → IsPrimary members h p
unfolding is_hash_in_range
range-IsPrimary members h p q r a (aq, inl (l, dead)) i =
    (a, inl (ground (arith, hash_at_mono members q p r l (alive_at-lt members p a)), below))
  where
    below : (j : ℕ) → j < p → alive_at members j ≡ true → hash_at members j < h
    below j m live = elim (dec_lt q j) [
      | yes k ↦ cc (sym live ∙ dead j k m)
      | no k ↦ ground (
        arith,
        hash_at_mono members q p r l (alive_at-lt members p a),
        not_below members j q r (omega arith) (alive_at-lt members q aq),
      )
    ]
range-IsPrimary members h p q r a (aq, inr (l, low, high)) i = elim (dec_lt (hash_at members p) h) [
  | no k ↦ (a, inl (omega arith, (λ j m live. cc (sym live ∙ low j m))))
  | yes k ↦ (a, inr (below k, low))
]
  where
    below : hash_at members p < h → (j : ℕ) → alive_at members j ≡ true → hash_at members j < h
    below k j live = elim (dec_lt q j) [
      | yes m ↦ cc (sym live ∙ high j m (alive_at-lt members j live))
      | no m ↦ ground (
        arith,
        not_below members p q r l (alive_at-lt members q aq),
        not_below members j q r (omega arith) (alive_at-lt members q aq),
      )
    ]

range_lem :
    (members : List Member) (p q : ℕ) {m : Member}
    → HasUniqueIds members
    → get_elem? members p ≡ some m
    → alive_predecessor members (length members) p ≡ some q
    → get_primary_key_range members (member_id m) ≡ some (hash_at members q, hash_at members p)
unfolding get_primary_key_range
range_lem members p q u g found = rw (get_node_index-at members p u g) (rw found refl)

head-find_target_nodes :
    (members : List Member) (h rf p : ℕ) {m : Member}
    → primary_index members h ≡ some p
    → get_elem? members p ≡ some m
    → is_alive m ≡ true
    → head? (find_target_nodes members h (suc rf)) ≡ some m
unfolding find_target_nodes target_loop
head-find_target_nodes members h rf p {m} e g a =
    let l : p < length members = alive_at-lt members p (alive_at-get members p g a) in
    let at_p : (p + 0) % length members ≡ p = grind arith in rw e (rw at_p (rw g (rw a refl)))

-- In a ring sorted by distinct hashes and without repeated IDs, every alive node has a primary key
-- range, and a file hash lies in it exactly when a client takes that node for the primary node of
-- the file, for every number of replicas above 0.
pub is_hash_in_range_primary :
    (members : List Member) (h rf p : ℕ) {m : Member}
    → IsRing members
    → HasUniqueIds members
    → get_elem? members p ≡ some m
    → is_alive m ≡ true
    → (start end : ℕ) × (get_primary_key_range members (member_id m) ≡ some (start, end))
      × ((is_hash_in_range h start end ≡ true)
          ↔ (head? (find_target_nodes members h (suc rf)) ≡ some m))
is_hash_in_range_primary members h rf p {m} r u g a =
    let (q, found, before) = alive_predecessor-Walks members p alive_p in
    (
      hash_at members q,
      hash_at members p,
      range_lem members p q u g found,
      (
        (λ i.
            head-find_target_nodes members h rf p
              (primary_index-eq members h p r (range-IsPrimary members h p q r alive_p before i)) g
              a),
        (λ e. primary_in_range members h p q r (primary_of_head e) before),
      ),
    )
  where
    alive_p : alive_at members p ≡ true
    alive_p = alive_at-get members p g a

    by_index :
        (o : Option ℕ)
        → primary_index members h ≡ o
        → head? (find_target_nodes members h (suc rf)) ≡ some m
        → IsPrimary members h p
    by_index none e f =
        cc (sym alive_p ∙ subst (Primes members h) e (primary_index-Primes members h) p)
    by_index (some p') e f =
        let x = subst (Primes members h) e (primary_index-Primes members h) in
        let (m', g', a') = get_elem?_alive members p' x.0 in
        let same : m' ≡ m = some_eq (sym (head-find_target_nodes members h rf p' e g' a') ∙ f) in
        let same_p : p' ≡ p = some_eq (
          sym (get_node_index-at members p' u g')
          ∙ ap (λ n. get_node_index members (member_id n)) same
          ∙ get_node_index-at members p u g) in
        rw same_p at x

    primary_of_head : head? (find_target_nodes members h (suc rf)) ≡ some m → IsPrimary members h p
    primary_of_head f = by_index (primary_index members h) refl f

-- The primary position that `findTargetNodes` finds is an alive one: the first whose hash is not
-- below the hash of the file, or the first of all if every alive hash is below it.
pub primary_index-IsPrimary :
    (members : List Member) (h : ℕ) {p : ℕ}
    → primary_index members h ≡ some p
    → IsPrimary members h p
primary_index-IsPrimary members h e = subst (Primes members h) e (primary_index-Primes members h)

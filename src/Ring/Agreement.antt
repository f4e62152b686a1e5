-- ===== src/Ring/Agreement.antt =====
-- Two nodes that know the same members send a file to the same targets.
use mathlib.Core.Logic.Or
use mathlib.Core.List.{Mem, Perm, mem-cons, not-mem-nil, mem-cons_self}
use mathlib.Core.List.Perm
use native.Mathlib.Bridge.{le_prop}
use hydfs.Prelude.{
  ℕ, zero, suc, ◌+◌, ◌%◌, ◌<◌, ◌≤◌, Text, ◌≡◌, ◌≢◌, refl, sym, ap, ◌∙◌, subst, Option, none, some,
  List, [], ◌∷◌, Bool, All, length, get_elem?, leb, map, if◌then◌else◌, Bool-cases, inl, inr, arith,
  ◌&&◌,
}
use hydfs.Prelude.Decimal.{pos}
use hydfs.Member.{Member, alive, dead, is_alive}
use hydfs.Membership.Order.{IsSorted}
use hydfs.Ring.{find_index, primary_index, target_loop, find_target_nodes, when_alive, targets_from}

-- What placement reads of a member.
pub record Place : Type 0 where
  pub address : Text
  pub hash : ℕ
  pub lives : Bool

abbrev pub place : Member → Place
place m = record { address = m.address; hash = m.hash; lives = is_alive m }

-- No two members have one hash.
abbrev pub HasDistinctHashes : List Member → Type 0
HasDistinctHashes [] = Unit
HasDistinctHashes (m ∷ nodes) = All (λ n. m.hash ≢ n.hash) nodes × HasDistinctHashes nodes

abbrev IsAscending : List Place → Type 0
IsAscending [] = Unit
IsAscending (p ∷ ps) = All (λ q. p.hash < q.hash) ps × IsAscending ps

above :
    (m : Member) (nodes : List Member)
    → All (λ n. m.hash ≤ n.hash) nodes
    → All (λ n. m.hash ≢ n.hash) nodes
    → All (λ q. m.hash < q.hash) (map place nodes)
above m [] s d = tt
above m (n ∷ nodes) s d = (ground (arith, s.0, d.0), above m nodes s.1 d.1)

places-IsAscending :
    (nodes : List Member) → IsSorted nodes → HasDistinctHashes nodes → IsAscending (map place nodes)
places-IsAscending [] s d = tt
places-IsAscending (m ∷ nodes) s d = (above m nodes s.0 d.0, places-IsAscending nodes s.1 d.1)

after_first :
    (a p : Place) (ps : List Place) → All (λ q. p.hash < q.hash) ps → Mem a ps → p.hash < a.hash
after_first a p [] h m = absurd (not-mem-nil m)
after_first a p (q ∷ ps) h m =
    Or.elim le_prop (mem-cons.0 m) (λ e. rw e h.0) (after_first a p ps h.1)

from_first :
    (a p : Place) (ps : List Place)
    → All (λ q. p.hash < q.hash) ps
    → Mem a (p ∷ ps)
    → p.hash ≤ a.hash
from_first a p ps h m =
    Or.elim le_prop (mem-cons.0 m) (λ e. rw e (omega arith))
      (λ n. omega (arith, after_first a p ps h n))

is_first :
    (a p : Place) (ps : List Place)
    → All (λ q. p.hash < q.hash) ps
    → Mem a (p ∷ ps)
    → a.hash ≤ p.hash
    → a ≡ p
is_first a p ps h m low =
    let prop : IsProp (a ≡ p) = hlevel in
    Or.elim prop (mem-cons.0 m) (λ e. e) (λ n. absurd (omega (arith, after_first a p ps h n, low)))

-- Lists in ascending order that hold the same places are the same list.
ascending_unique : (ps qs : List Place) → IsAscending ps → IsAscending qs → Perm ps qs → ps ≡ qs
ascending_unique [] [] a b p = refl
ascending_unique [] (q ∷ qs) a b p = absurd (not-mem-nil ((Perm.mem_iff p).1 mem-cons_self))
ascending_unique (q ∷ ps) [] a b p = absurd (not-mem-nil ((Perm.mem_iff p).0 mem-cons_self))
ascending_unique (x ∷ ps) (y ∷ qs) a b p =
    let x_in = (Perm.mem_iff p).0 (mem-cons_self {a = x} {l = ps}) in
    let y_in = (Perm.mem_iff p).1 (mem-cons_self {a = y} {l = qs}) in
    let same : x ≡ y = is_first x y qs b.0 x_in (from_first y x ps a.0 y_in) in
    let rest =
      ascending_unique ps qs a.1 b.1
        (Perm.cons_inv {a = x} (subst (λ z. Perm (x ∷ ps) (z ∷ qs)) (sym same) p)) in
    ap (λ z. z ∷ ps) same ∙ ap (◌∷◌ y) rest

-- a member with this place
abbrev at_place : Place → Member
at_place p = record {
  address = p.address;
  node_creation_timestamp = pos 0;
  status = if p.lives then alive else dead;
  heartbeat = 0;
  incarnation = 0;
  last_updated = 0;
  hash = p.hash;
}

core : Member → Member
core m = at_place (place m)

hash-core : (m : Member) → (core m).hash ≡ m.hash
unfolding core
hash-core m = refl

address-core : (m : Member) → (core m).address ≡ m.address
unfolding core
address-core m = refl

is_alive-core : (m : Member) → is_alive (core m) ≡ is_alive m
unfolding core
is_alive-core m = elim (Bool-cases (is_alive m)) [ inl e ↦ rw e refl | inr e ↦ rw e refl ]

abbrev core_of : Option Member → Option Member
core_of none = none
core_of (some m) = some (core m)

find_index-core :
    (test : Member → Bool) (l : List Member)
    → ((m : Member) → test (core m) ≡ test m)
    → find_index test (map core l) ≡ find_index test l
unfolding find_index
find_index-core test [] h = refl
find_index-core test (m ∷ l) h = rw (h m, find_index-core test l h) refl

length-core : (l : List Member) → length (map core l) ≡ length l
length-core [] = refl
length-core (m ∷ l) = ap suc (length-core l)

get_elem?-core : (l : List Member) (i : ℕ) → get_elem? (map core l) i ≡ core_of (get_elem? l i)
get_elem?-core [] i = refl
get_elem?-core (m ∷ l) zero = refl
get_elem?-core (m ∷ l) (suc i) = get_elem?-core l i

when_alive-core :
    (o : Option Member) (rest : List Member)
    → when_alive (core_of o) (map core rest) ≡ map core (when_alive o rest)
when_alive-core none rest = refl
when_alive-core (some m) rest = elim (Bool-cases (is_alive m)) [
  | inl e ↦ rw (is_alive-core m, e) refl
  | inr e ↦ rw (is_alive-core m, e) refl
]

target_loop-core :
    (l : List Member) (primary rounds i : ℕ)
    → target_loop (map core l) primary rounds i ≡ map core (target_loop l primary rounds i)
unfolding target_loop
target_loop-core l primary zero i = refl
target_loop-core l primary (suc rounds) i =
    rw
      (
        length-core l,
        get_elem?-core l ((primary + i) % length l),
        target_loop-core l primary rounds (suc i),
      )
      (when_alive-core (get_elem? l ((primary + i) % length l))
        (target_loop l primary rounds (suc i)))

abbrev first_of : Option ℕ → Option ℕ → Option ℕ
first_of a b = elim a [ some i ↦ some i | none ↦ b ]

primary_index-core : (l : List Member) (h : ℕ) → primary_index (map core l) h ≡ primary_index l h
unfolding primary_index
primary_index-core l h =
    let test = λ (m : Member). is_alive m && leb h m.hash in
    ap (λ o. first_of o (find_index is_alive (map core l)))
      (find_index-core test l (λ m. rw (is_alive-core m, hash-core m) refl))
    ∙ ap (first_of (find_index test l)) (find_index-core is_alive l is_alive-core)

find_target_nodes-core :
    (l : List Member) (h rf : ℕ)
    → find_target_nodes (map core l) h rf ≡ map core (find_target_nodes l h rf)
unfolding find_target_nodes
find_target_nodes-core l h rf =
    ap (targets_from (map core l) rf) (primary_index-core l h) ∙ by_primary (primary_index l h)
  where
    by_primary : (o : Option ℕ) → targets_from (map core l) rf o ≡ map core (targets_from l rf o)
    by_primary none = refl
    by_primary (some primary) = target_loop-core l primary rf 0

core_of_place : (l : List Member) → map core l ≡ map at_place (map place l)
unfolding core
core_of_place [] = refl
core_of_place (m ∷ l) = ap (◌∷◌ (core m)) (core_of_place l)

addresses-core : (l : List Member) → map (λ m. m.address) (map core l) ≡ map (λ m. m.address) l
addresses-core [] = refl
addresses-core (m ∷ l) = rw (address-core m, addresses-core l) refl

-- Two sorted lists without repeated hashes that hold the same members, with the same addresses and
-- hashes and the same ones of them alive, whatever else they say of them, give the same targets for
-- every file, in the same order: the nodes agree on who stores it.
pub find_target_nodes_agree :
    (l l' : List Member) (file_hash replication_factor : ℕ)
    → IsSorted l
    → IsSorted l'
    → HasDistinctHashes l
    → HasDistinctHashes l'
    → Perm (map place l) (map place l')
    → map (λ m. m.address) (find_target_nodes l file_hash replication_factor)
      ≡ map (λ m. m.address) (find_target_nodes l' file_hash replication_factor)
find_target_nodes_agree l l' h rf s s' d d' p =
    let same =
      ascending_unique (map place l) (map place l') (places-IsAscending l s d)
        (places-IsAscending l' s' d') p in
    sym (addresses-core (find_target_nodes l h rf))
    ∙ ap (map (λ m. m.address)) (
        sym (find_target_nodes-core l h rf)
        ∙ ap (λ k. find_target_nodes k h rf)
            (core_of_place l ∙ ap (map at_place) same ∙ sym (core_of_place l'))
        ∙ find_target_nodes-core l' h rf)
    ∙ addresses-core (find_target_nodes l' h rf)

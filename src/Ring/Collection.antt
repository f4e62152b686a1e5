-- ===== src/Ring/Collection.antt =====
-- The range that the garbage collector keeps, against the files that a client may store on the node.
use hydfs.Prelude.{
  ℕ, ◌+◌, ◌-◌, ◌%◌, ◌<◌, ◌≤◌, ◌≡◌, ◌≢◌, refl, sym, ◌∙◌, some, List, true, length, get_elem?, inl,
  inr, ◌⊎◌, arith, le→leb,
}
use native.Mathlib.Decide.{dec_lt}
use hydfs.Member.{Member, member_id}
use hydfs.Membership.Identity.{HasUniqueIds}
use hydfs.Ring.{
  alive_at, hash_at, is_hash_in_range, get_all_key_range, primary_index, returns, panics,
}
use hydfs.Ring.Indices.{IsRing, hash_at_mono, get_node_index-at, alive_at-lt}
use hydfs.Ring.Primary.{IsPrimary, not_below, primary_index-IsPrimary}

-- `t` is the position `i` steps after `p`, on a ring of `n`
stepped :
    (p i n : ℕ)
    → p < n
    → i < n
    → ((p + i < n) × ((p + i) % n ≡ p + i)) ⊎ ((n ≤ p + i) × ((p + i) % n ≡ p + i - n))
stepped p i n b l = elim (dec_lt (p + i) n) [
  | yes h ↦ inl (h, grind arith)
  | no h ↦ inr (omega arith, grind arith)
]

-- `rf` steps back
stepped_back :
    (t rf n : ℕ)
    → t < n
    → rf ≤ n
    → ((rf ≤ t) × ((t + n - rf) % n ≡ t - rf)) ⊎ ((t < rf) × ((t + n - rf) % n ≡ t + n - rf))
stepped_back t rf n b l = elim (dec_lt t rf) [
  | yes h ↦ inr (h, grind arith)
  | no h ↦ inl (omega arith, grind arith)
]

module _ (members : List Member) (h rf p : ℕ) (r : IsRing members)
    (a : (j : ℕ) → j < length members → alive_at members j ≡ true) (few : rf ≤ length members) where
  -- what the primary position says of the hashes around it
  below_primary :
      IsPrimary members h p → (b : ℕ) → b < p → b < length members → (hash_at members b < h)
  below_primary (x, inl (reach, below)) b l m = below b l (a b m)
  below_primary (x, inr (below, dead)) b l m = below b (a b m)

  upto_target :
      (t : ℕ)
      → p ≤ t
      → t < length members
      → IsPrimary members h p
      → (h ≤ hash_at members t) ⊎ ((b : ℕ) → b < length members → hash_at members b < h)
  upto_target t l m (x, inl (reach, below)) = inl (omega (arith, not_below members p t r l m))
  upto_target t l m (x, inr (below, dead)) = inr (λ b k. below b (a b k))

  target_in_range :
      (t i : ℕ)
      → IsPrimary members h p
      → i < rf
      → (p + i) % length members ≡ t
      → is_hash_in_range h
          (hash_at members ((t + length members - rf) % length members))
          (hash_at members t)
        ≡ true
  unfolding is_hash_in_range
  target_in_range t i x l e =
      elim (stepped p i (length members) (alive_at-lt members p x.0) (omega arith)) [
        | inl (small, k) ↦ elim (stepped_back t rf (length members) (omega arith) few) [
          | inl (q, f) ↦ rw f (
              ground (
                arith,
                below_primary x (t - rf),
                hash_at_mono members (t - rf) t r,
                not_below members p t r,
                upto_target t (omega arith) (omega arith) x,
                no_wrap x (t - rf) (omega arith),
              ))
          | inr (q, f) ↦ rw f (
              wraps (t + length members - rf) (upto_target t (omega arith) (omega arith) x)
                (omega arith) (omega arith))
        ]
        | inr (large, k) ↦ elim (stepped_back t rf (length members) (omega arith) few) [
          | inl (q, f) ↦ absurd (omega (arith, alive_at-lt members p x.0))
          | inr (q, f) ↦ rw f (
              ground (
                arith,
                alive_at-lt members p x.0,
                below_primary x (t + length members - rf),
                not_below members t (t + length members - rf) r,
              ))
        ]
      ]
    where
      no_wrap : IsPrimary members h p → (b : ℕ) → b < p → h ≤ hash_at members p
      no_wrap (x, inl (reach, below)) b l = reach
      no_wrap (x, inr (below, dead)) b l =
          cc (sym (a b (omega (arith, alive_at-lt members p x))) ∙ dead b l)

      wraps :
          (b : ℕ)
          → (h ≤ hash_at members t) ⊎ ((b : ℕ) → b < length members → hash_at members b < h)
          → t ≤ b
          → b < length members
          → is_hash_in_range h (hash_at members b) (hash_at members t) ≡ true
      wraps b (inl le) k m = ground (arith, not_below members t b r k m)
      wraps b (inr all) k m = ground (arith, not_below members t b r k m, all b m)

-- Where every member is alive and there are at least as many as replicas, the garbage collector of
-- a node keeps every file that a client would write to it, as the primary node or as a replica: the
-- node's key range is determined, and holds the hash. The ring is sorted by distinct hashes and
-- repeats no ID; `t` is the position of the `i`-th target behind the primary one.
pub get_all_key_range_targets :
    (members : List Member) (h rf p i t : ℕ) {m : Member}
    → IsRing members
    → HasUniqueIds members
    → ((j : ℕ) → j < length members → alive_at members j ≡ true)
    → rf ≤ length members
    → primary_index members h ≡ some p
    → i < rf
    → (p + i) % length members ≡ t
    → get_elem? members t ≡ some m
    → (start end : ℕ) × (get_all_key_range members (member_id m) rf ≡ returns (some (start, end)))
      × (is_hash_in_range h start end ≡ true)
get_all_key_range_targets members h rf p i t {m} r u a few e l at_t g = (
  hash_at members ((t + length members - rf) % length members),
  hash_at members t,
  range_at,
  target_in_range members h rf p r a few t i (primary_index-IsPrimary members h e) l at_t,
)
  where
    range_at :
        get_all_key_range members (member_id m) rf
        ≡ returns
            (some (hash_at members ((t + length members - rf) % length members), hash_at members t))
    range_at =
        unfold get_all_key_range in
        rw (get_node_index-at members t u g)
          (rw (le→leb rf (t + length members) (omega arith)) refl)

-- With more replicas than members the garbage collector of a node panics wherever its position and
-- the number of members together fall short of the replicas, by a number that is no multiple of the
-- members: the index of its predecessor is negative. With three replicas that is the first of two
-- members.
pub get_all_key_range_panics :
    (members : List Member) (p rf : ℕ) {m : Member}
    → HasUniqueIds members
    → get_elem? members p ≡ some m
    → p + length members < rf
    → (rf - (p + length members)) % length members ≢ 0
    → get_all_key_range members (member_id m) rf ≡ panics
unfolding get_all_key_range
get_all_key_range_panics members p rf u g short odd =
    rw (get_node_index-at members p u g) (ground arith)

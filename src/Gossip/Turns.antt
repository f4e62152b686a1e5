-- ===== src/Gossip/Turns.antt =====
-- Every candidate has its turn, and the round robin never reads out of range.
use mathlib.Core.List.{Perm, perm_append_comm}
use native.Mathlib.Nat.{mod_self, mod-eq_of_lt, mod-lt}
use hydfs.Prelude.{
  ℕ, zero, suc, ◌+◌, ◌-◌, ◌%◌, ◌<◌, Text, ◌≡◌, refl, sym, ap, subst, ◌∙◌, Option, some, List, [],
  ◌∷◌, ◌++◌, Dict, length, get_elem?, take, drop, take-append-drop, ltb, if◌then◌else◌, arith, none,
  All,
}
use hydfs.Config.{gossip_fanout}
use hydfs.Member.{Member}
use hydfs.Gossip.{
  Selection, candidates, picks, refresh, select_among, select_next_k_nodes, with_pointer, in_front,
}

drop_step :
    (order : List Text) (p : ℕ)
    → p < length order
    → (node : Text) × (get_elem? order p ≡ some node) × (drop p order ≡ node ∷ drop (suc p) order)
drop_step [] p l = absurd (omega arith)
drop_step (n ∷ order) zero l = (n, refl, refl)
drop_step (n ∷ order) (suc p) l = drop_step order p (omega arith)

drop_all : (order : List Text) (p : ℕ) → p ≡ length order → drop p order ≡ []
drop_all [] zero e = refl
drop_all [] (suc p) e = refl
drop_all (n ∷ order) zero e = absurd (omega arith)
drop_all (n ∷ order) (suc p) e = drop_all order p (omega arith)

picks-suc :
    (order : List Text) (k p : ℕ) (node : Text)
    → get_elem? order p ≡ some node
    → picks order (suc k) p ≡ in_front node (picks order k ((p + 1) % length order))
unfolding picks
picks-suc order k p node e = rw (picks, e) refl

prepend : List Text → Option (List Text × ℕ) → Option (List Text × ℕ)
prepend [] r = r
prepend (node ∷ nodes) r = in_front node (prepend nodes r)

prepend-some : (xs ys : List Text) (p : ℕ) → prepend xs (some (ys, p)) ≡ some (xs ++ ys, p)
unfolding prepend
prepend-some [] ys p = refl
prepend-some (x ∷ xs) ys p = rw (prepend-some xs ys p) refl

-- one pick, then the others
picks_step :
    (order : List Text) (k p q : ℕ) (rest : Option (List Text × ℕ))
    → p < length order
    → (p + 1) % length order ≡ q
    → picks order k q ≡ rest
    → (node : Text) × (drop p order ≡ node ∷ drop (suc p) order)
      × (picks order (suc k) p ≡ in_front node rest)
picks_step order k p q rest l next others =
    let (node, found, here) = drop_step order p l in
    (
      node,
      here,
      picks-suc order k p node found
          ∙ ap (λ r. in_front node (picks order k r)) next
          ∙ ap (in_front node) others,
    )

picks_to_end :
    (order : List Text) (k j p : ℕ)
    → p + suc k ≡ length order
    → picks order (suc (k + j)) p ≡ prepend (drop p order) (picks order j 0)
unfolding prepend
picks_to_end order zero j p e =
    let (node, here, both) =
      picks_step order (0 + j) p 0 (picks order j 0) (omega (arith, e))
        (ap (λ n. n % length order) e ∙ mod_self (length order))
        (ap (λ i. picks order i 0) (omega arith)) in
    both
    ∙ sym (
        ap (λ xs. prepend xs (picks order j 0))
          (here ∙ ap (◌∷◌ node) (drop_all order (suc p) (omega (arith, e)))))
picks_to_end order (suc k) j p e =
    let (node, here, both) =
      picks_step order (suc k + j) p (suc p) (prepend (drop (suc p) order) (picks order j 0))
        (omega (arith, e)) (mod-eq_of_lt (omega (arith, e)) ∙ omega arith)
        (ap (λ i. picks order i (suc p)) (omega arith)
          ∙ picks_to_end order k j (suc p) (omega (arith, e))) in
    both ∙ sym (ap (λ xs. prepend xs (picks order j 0)) here)

picks_before_end :
    (order : List Text) (k p : ℕ)
    → p + k < length order
    → picks order k p ≡ some (take k (drop p order), p + k)
unfolding picks
picks_before_end order zero p l = ap (λ q. some ([], q)) (omega arith)
picks_before_end order (suc k) p l =
    let (node, here, both) =
      picks_step order k p (suc p) (some (take k (drop (suc p) order), suc p + k))
        (omega (arith, l)) (mod-eq_of_lt (omega (arith, l)) ∙ omega arith)
        (picks_before_end order k (suc p) (omega (arith, l))) in
    both
    ∙ ap (λ q. some (node ∷ take k (drop (suc p) order), q)) (omega arith)
    ∙ sym (ap (λ xs. some (take (suc k) xs, p + suc k)) here)

picks_all :
    (order : List Text) (k p : ℕ)
    → p + suc k ≡ length order
    → picks order (length order) p ≡ some (drop p order ++ take p order, p)
picks_all order k p e =
    ap (λ i. picks order i p) (omega (arith, e))
    ∙ picks_to_end order k p p e
    ∙ ap (prepend (drop p order)) (
        picks_before_end order p 0 (omega (arith, e))
        ∙ ap (λ q. some (take p order, q)) (omega arith))
    ∙ prepend-some (drop p order) (take p order) p

-- The pointer is an index of the order: what every selection leaves behind.
abbrev pub IsTurn : Selection → Type 0
IsTurn st = st.current_pointer < length st.node_order

kept :
    (shuffle : List Text → List Text) (found : List Text) (st : Selection)
    → length found ≡ st.last_member_count
    → IsTurn st
    → refresh shuffle found st ≡ st
unfolding refresh
kept shuffle found st e turn = ground arith

abbrev then_nodes : List Text → Option (List Text × Selection) → Option (List Text × Selection)
then_nodes nodes none = none
then_nodes nodes (some (more, st)) = some (nodes ++ more, st)

-- One selection after another, each from a snapshot of its own, with the nodes that they take.
unfoldable pub selections :
    (List Text → List Text)
    → ℕ
    → Text
    → List (Dict Member)
    → Selection
    → Option (List Text × Selection)
unfolding select_next_k_nodes
selections shuffle k self [] st = some ([], st)
selections shuffle k self (snapshot ∷ snapshots) st =
    elim (select_next_k_nodes shuffle k self snapshot st) [
      | none ↦ none
      | some (nodes, st') ↦ then_nodes nodes (selections shuffle k self snapshots st')
    ]

-- The snapshot has as many candidates as the last selection found, and at least one.
abbrev pub IsSteady : Text → ℕ → Dict Member → Type 0
IsSteady self n snapshot =
    (0 < length (candidates self snapshot)) × (length (candidates self snapshot) ≡ n)

one_capped : (n : ℕ) → 0 < n → (if ltb n 1 then n else 1) ≡ 1
one_capped n l = ground arith

among_kept :
    (shuffle : List Text → List Text) (found : List Text) (st : Selection)
    → 0 < length found
    → length found ≡ st.last_member_count
    → IsTurn st
    → select_among shuffle 1 found st ≡ with_pointer st (picks st.node_order 1 st.current_pointer)
unfolding select_among
among_kept shuffle [] st pos e turn = absurd (omega arith)
among_kept shuffle (node ∷ nodes) st pos e turn = rw (kept shuffle (node ∷ nodes) st e turn) (
    ap (λ i. with_pointer st (picks st.node_order i st.current_pointer))
      (one_capped (length st.node_order) (omega (arith, turn))))

moved : Selection → Selection
moved st = record st { current_pointer = (st.current_pointer + 1) % length st.node_order }

one_pick :
    (shuffle : List Text → List Text) (self : Text) (snapshot : Dict Member) (st : Selection)
    (node : Text)
    → IsSteady self st.last_member_count snapshot
    → IsTurn st
    → get_elem? st.node_order st.current_pointer ≡ some node
    → select_next_k_nodes shuffle 1 self snapshot st ≡ some (node ∷ [], moved st)
unfolding select_next_k_nodes picks moved
one_pick shuffle self snapshot st node steady turn e =
    among_kept shuffle (candidates self snapshot) st (steady.0) (steady.1) turn
    ∙ ap (with_pointer st) (picks-suc st.node_order 0 st.current_pointer node e)

one_more :
    (st : Selection) (node : Text) (o : Option (List Text × ℕ))
    → then_nodes (node ∷ []) (with_pointer (moved st) o) ≡ with_pointer st (in_front node o)
unfolding moved
one_more st node none = refl
one_more st node (some (nodes, q)) = refl

selections-picks :
    (shuffle : List Text → List Text) (self : Text) (snapshots : List (Dict Member))
    (st : Selection)
    → All (IsSteady self st.last_member_count) snapshots
    → IsTurn st
    → selections shuffle 1 self snapshots st
      ≡ with_pointer st (picks st.node_order (length snapshots) st.current_pointer)
unfolding selections picks moved
selections-picks shuffle self [] st steady turn = refl
selections-picks shuffle self (snapshot ∷ snapshots) st steady turn =
    let (node, found, here) = drop_step st.node_order st.current_pointer turn in
    let next = (st.current_pointer + 1) % length st.node_order in
    rw (selections, one_pick shuffle self snapshot st node (steady.0) turn found)
      (ap (then_nodes (node ∷ [])) (
          selections-picks shuffle self snapshots (moved st) (steady.1)
            (mod-lt (st.current_pointer + 1) (omega (arith, turn))))
        ∙ one_more st node (picks st.node_order (length snapshots) next)
        ∙ ap (with_pointer st)
            (sym (picks-suc st.node_order (length snapshots) st.current_pointer node found)))

-- As long as the number of candidates stays the one of the last selection, whoever they are, as many
-- selections of one node, the fanout of the program, as the order has nodes take the nodes of that
-- order from the pointer on to the end and then from the start up to the pointer, so each of them
-- once, and leave the pointer where it was, if it was an index of the order.
pub select_next_k_nodes-round :
    (shuffle : List Text → List Text) (self : Text) (snapshots : List (Dict Member))
    (st : Selection)
    → length snapshots ≡ length st.node_order
    → All (IsSteady self st.last_member_count) snapshots
    → IsTurn st
    → let nodes = drop st.current_pointer st.node_order ++ take st.current_pointer st.node_order in
      (selections shuffle gossip_fanout self snapshots st ≡ some (nodes, st))
      × Perm nodes st.node_order
select_next_k_nodes-round shuffle self snapshots st e steady turn = (
  selections-picks shuffle self snapshots st steady turn
      ∙ ap (with_pointer st) (
          ap (λ i. picks st.node_order i st.current_pointer) e
          ∙ picks_all st.node_order (length st.node_order - suc st.current_pointer)
              st.current_pointer (omega (arith, turn))),
  subst
      (λ xs.
        Perm (drop st.current_pointer st.node_order ++ take st.current_pointer st.node_order) xs)
      (take-append-drop st.current_pointer st.node_order)
      (perm_append_comm (drop st.current_pointer st.node_order)
        (take st.current_pointer st.node_order)),
)

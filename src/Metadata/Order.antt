-- ===== src/Metadata/Order.antt =====
-- `insertAppend` keeps what it finds, and keeps each client's appends in the order of their
-- timestamps.
use mathlib.Core.List.{Perm}
use mathlib.Core.List.Perm
use hydfs.Prelude.{
  Text, text_eq, text_eq_iff, ◌≡◌, List, [], ◌∷◌, true, false, select, All, arith, if◌then◌else◌,
  Bool-cases, inl, inr,
}
use hydfs.Prelude.Texts.{text_gt, text_gt_irrefl, text_gt_trans}
use hydfs.Metadata.{AppendInfo, insert_append, goes_before}

insert_append-perm : (a : AppendInfo) (l : List AppendInfo) → Perm (insert_append a l) (a ∷ l)
unfolding insert_append
insert_append-perm a [] = Perm.refl (a ∷ [])
insert_append-perm a (b ∷ l) = elim (Bool-cases (goes_before a b)) [
  | inl before ↦ rw before (Perm.refl (a ∷ b ∷ l))
  | inr after ↦ rw after (Perm.trans (Perm.cons b (insert_append-perm a l)) (Perm.swap a b l))
]

-- The appends of one client, in the order in which the file holds them.
abbrev pub client_view : Text → List AppendInfo → List AppendInfo
client_view c = select (λ a. text_eq a.client_id c)

-- A list in which no timestamp is followed by a smaller one.
abbrev pub InTimeOrder : List AppendInfo → Type 0
InTimeOrder [] = Unit
InTimeOrder (a ∷ l) =
    All (λ b. text_gt a.client_timestamp b.client_timestamp ≡ false) l × InTimeOrder l

-- Every client's appends stand in the order of their timestamps.
abbrev pub IsOrdered : List AppendInfo → Type 0
IsOrdered l = (c : Text) → InTimeOrder (client_view c l)

-- insertion by timestamp alone
unfoldable pub insert_by_time : AppendInfo → List AppendInfo → List AppendInfo
insert_by_time a [] = a ∷ []
insert_by_time a (b ∷ l) =
    if text_gt b.client_timestamp a.client_timestamp then a ∷ b ∷ l else b ∷ insert_by_time a l

-- For the view of one client, an insertion is by timestamp among that client's appends alone.
pub client_view-insert_append :
    (c : Text) (a : AppendInfo) (l : List AppendInfo)
    → client_view c (insert_append a l)
      ≡ (if text_eq a.client_id c then insert_by_time a (client_view c l) else client_view c l)
unfolding insert_append insert_by_time
client_view-insert_append c a [] = ground arith
client_view-insert_append c a (b ∷ l) = ground (
  arith,
  text_eq_iff a.client_id c,
  text_eq_iff b.client_id c,
  text_eq_iff b.client_id a.client_id,
  client_view-insert_append c a l,
)

module _ (P : AppendInfo → Type 0) where
  pub insert_by_time-All :
      (a : AppendInfo) (l : List AppendInfo) → P a → All P l → All P (insert_by_time a l)
  unfolding insert_by_time
  insert_by_time-All a [] p h = (p, tt)
  insert_by_time-All a (b ∷ l) p h =
      elim (Bool-cases (text_gt b.client_timestamp a.client_timestamp)) [
        | inl e ↦ rw e (p, h)
        | inr e ↦ rw e (h.0, insert_by_time-All a l p h.1)
      ]

-- if `b` is later than `a`, nothing that follows `b` is earlier than `a`
later_than-All :
    (a b : AppendInfo) (l : List AppendInfo)
    → text_gt b.client_timestamp a.client_timestamp ≡ true
    → All (λ x. text_gt b.client_timestamp x.client_timestamp ≡ false) l
    → All (λ x. text_gt a.client_timestamp x.client_timestamp ≡ false) l
later_than-All a b [] h q = tt
later_than-All a b (x ∷ l) h q = (
  ground (arith, text_gt_trans b.client_timestamp a.client_timestamp x.client_timestamp),
  later_than-All a b l h q.1,
)

insert_by_time-InTimeOrder :
    (a : AppendInfo) (l : List AppendInfo) → InTimeOrder l → InTimeOrder (insert_by_time a l)
unfolding insert_by_time
insert_by_time-InTimeOrder a [] h = (tt, tt)
insert_by_time-InTimeOrder a (b ∷ l) h =
    elim (Bool-cases (text_gt b.client_timestamp a.client_timestamp)) [
      | inl e ↦ rw e (
        (
          ground (
            arith,
            text_gt_trans a.client_timestamp b.client_timestamp a.client_timestamp,
            text_gt_irrefl a.client_timestamp,
          ),
          later_than-All a b l e h.0,
        ),
        h,
      )
      | inr e ↦ rw e (
        insert_by_time-All (λ x. text_gt b.client_timestamp x.client_timestamp ≡ false) a l e h.0,
        insert_by_time-InTimeOrder a l h.1,
      )
    ]

-- Inserting an append adds that append and nothing else, and keeps every client's appends in the
-- order of their timestamps.
pub insert_append-IsOrdered :
    (a : AppendInfo) (l : List AppendInfo)
    → IsOrdered l
    → IsOrdered (insert_append a l) × Perm (insert_append a l) (a ∷ l)
insert_append-IsOrdered a l h = (
  (λ c. rw (client_view-insert_append c a l) (elim (Bool-cases (text_eq a.client_id c)) [
    | inl same ↦ rw same (insert_by_time-InTimeOrder a (client_view c l) (h c))
    | inr other ↦ rw other (h c)
  ])),
  insert_append-perm a l,
)

-- ===== src/Metadata/Arrivals.antt =====
-- The order in which appends reach a replica does not change what a client sees of its own appends.
use mathlib.Core.Logic.{∥∥₁_elim}
use mathlib.Core.List.{Mem, Perm, Permᴰ, mem-cons_self, mem-cons_of_mem}
use mathlib.Core.List.Perm
use hydfs.Prelude.{
  Text, text_eq, text_eq_iff, ◌≡◌, ◌≢◌, refl, sym, ap, ◌∙◌, List, [], ◌∷◌, true, false, Bool, ◌||◌,
  ◌⊎◌, arith, if◌then◌else◌, Bool-cases, inl, inr,
}
use hydfs.Prelude.Texts.{text_gt_irrefl, text_gt_trans, text_gt_total}
use hydfs.Metadata.{AppendInfo, insert_append, add_append, has_append}
use hydfs.Metadata.Order.{client_view, insert_by_time, client_view-insert_append}

-- A replica receives appends one after the other.
unfoldable pub receive_all : List AppendInfo → List AppendInfo → List AppendInfo
unfolding add_append
receive_all acc [] = acc
receive_all acc (a ∷ arrivals) = receive_all (add_append a acc) arrivals

-- What the client promises: an ID names one append, and so do a client and a timestamp.
pub record Identifies (l : List AppendInfo) : Type 0 where
  pub by_id : (a b : AppendInfo) → Mem a l → Mem b l → a.append_id ≡ b.append_id → a ≡ b
  pub by_time :
      (a b : AppendInfo)
      → Mem a l
      → Mem b l
      → a.client_id ≡ b.client_id
      → a.client_timestamp ≡ b.client_timestamp
      → a ≡ b

-- Two replicas that agree: on every client's view, and on the IDs that are present.
pub record Agrees (x y : List AppendInfo) : Type 0 where
  pub views : (c : Text) → client_view c x ≡ client_view c y
  pub present : (id : Text) → has_append id x ≡ has_append id y

has_append-insert_append :
    (id : Text) (a : AppendInfo) (l : List AppendInfo)
    → has_append id (insert_append a l) ≡ (text_eq a.append_id id || has_append id l)
unfolding insert_append
has_append-insert_append id a [] = ground arith
has_append-insert_append id a (b ∷ l) = ground (arith, has_append-insert_append id a l)

insert_by_time_comm :
    (a b : AppendInfo) (l : List AppendInfo)
    → a.client_timestamp ≢ b.client_timestamp
    → insert_by_time a (insert_by_time b l) ≡ insert_by_time b (insert_by_time a l)
unfolding insert_by_time
insert_by_time_comm a b [] h = ground (
  arith,
  text_gt_total a.client_timestamp b.client_timestamp,
  text_gt_trans a.client_timestamp b.client_timestamp a.client_timestamp,
  text_gt_irrefl a.client_timestamp,
)
insert_by_time_comm a b (x ∷ l) h = ground (
  arith,
  text_gt_total a.client_timestamp b.client_timestamp,
  text_gt_trans a.client_timestamp b.client_timestamp a.client_timestamp,
  text_gt_irrefl a.client_timestamp,
  text_gt_trans x.client_timestamp a.client_timestamp b.client_timestamp,
  text_gt_trans x.client_timestamp b.client_timestamp a.client_timestamp,
  insert_by_time_comm a b l h,
)

add_append-Agrees :
    (a : AppendInfo) {x y : List AppendInfo} → Agrees x y → Agrees (add_append a x) (add_append a y)
unfolding add_append
add_append-Agrees a {x} {y} h = elim (Bool-cases (has_append a.append_id x)) [
  | inl old ↦ rw (old, sym (h.present a.append_id) ∙ old) h
  | inr new ↦
      rw (new, sym (h.present a.append_id) ∙ new)
        (record {
          views = λ c.
              rw (client_view-insert_append c a x, client_view-insert_append c a y, h.views c) refl;
          present = λ id.
              rw (has_append-insert_append id a x, has_append-insert_append id a y, h.present id)
                refl;
        })
]

client_view-add_append :
    (c : Text) (a : AppendInfo) (l : List AppendInfo)
    → client_view c (add_append a l) ≡ (
        if has_append a.append_id l
        then client_view c l
        else if text_eq a.client_id c
        then insert_by_time a (client_view c l)
        else client_view c l)
unfolding add_append
client_view-add_append c a l = elim (Bool-cases (has_append a.append_id l)) [
  | inl old ↦ rw old refl
  | inr new ↦ rw new (client_view-insert_append c a l)
]

has_append-add_append :
    (id : Text) (a : AppendInfo) (l : List AppendInfo)
    → has_append id (add_append a l) ≡ (text_eq a.append_id id || has_append id l)
unfolding add_append
has_append-add_append id a l = elim (Bool-cases (has_append a.append_id l)) [
  | inl old ↦ rw old (absorbed (Bool-cases (text_eq a.append_id id)) old)
  | inr new ↦ rw new (has_append-insert_append id a l)
]
  where
    absorbed :
        (text_eq a.append_id id ≡ true) ⊎ (text_eq a.append_id id ≡ false)
        → has_append a.append_id l ≡ true
        → has_append id l ≡ (text_eq a.append_id id || has_append id l)
    absorbed (inl same) old =
        rw same (ap (λ i. has_append i l) (sym ((text_eq_iff a.append_id id).0 same)) ∙ old)
    absorbed (inr other) old = rw other refl

-- The view of one client after two appends that differ in their IDs.
views_commute :
    {a b : AppendInfo}
    → text_eq a.append_id b.append_id ≡ false
    → (a.append_id ≡ b.append_id → a ≡ b)
    → (a.client_id ≡ b.client_id → a.client_timestamp ≡ b.client_timestamp → a ≡ b)
    → (c : Text) (v : List AppendInfo) (in_a in_b : Bool)
    → (if text_eq b.append_id a.append_id || in_a
        then (if in_b then v else if text_eq b.client_id c then insert_by_time b v else v)
        else if text_eq a.client_id c
        then insert_by_time a
            (if in_b then v else if text_eq b.client_id c then insert_by_time b v else v)
        else if in_b
        then v
        else if text_eq b.client_id c
        then insert_by_time b v
        else v)
      ≡ (if text_eq a.append_id b.append_id || in_b
          then (if in_a then v else if text_eq a.client_id c then insert_by_time a v else v)
          else if text_eq b.client_id c
          then insert_by_time b
              (if in_a then v else if text_eq a.client_id c then insert_by_time a v else v)
          else if in_a
          then v
          else if text_eq a.client_id c
          then insert_by_time a v
          else v)
views_commute {a} {b} other by_id by_time c v in_a in_b = ground (
  arith,
  text_eq_iff a.client_id c,
  text_eq_iff b.client_id c,
  text_eq_iff b.append_id a.append_id,
  text_eq_iff a.append_id b.append_id,
  insert_by_time_comm a b v,
  times_differ,
)
  where
    times_differ : a.client_id ≡ b.client_id → a.client_timestamp ≢ b.client_timestamp
    times_differ p e = ground (arith, text_eq_iff a.append_id b.append_id, by_time p e)

-- Two appends that an ID and a timestamp tell apart may arrive in either order.
add_append_comm :
    (a b : AppendInfo) {x y : List AppendInfo}
    → (a.append_id ≡ b.append_id → a ≡ b)
    → (a.client_id ≡ b.client_id → a.client_timestamp ≡ b.client_timestamp → a ≡ b)
    → Agrees x y
    → Agrees (add_append a (add_append b x)) (add_append b (add_append a y))
add_append_comm a b {x} {y} by_id by_time h = elim (Bool-cases (text_eq a.append_id b.append_id)) [
  | inl same ↦
      rw (by_id ((text_eq_iff a.append_id b.append_id).0 same))
        (add_append-Agrees b (add_append-Agrees b h))
  | inr other ↦ record {
    views = λ c.
        rw
          (
            client_view-add_append c a (add_append b x),
            client_view-add_append c b (add_append a y),
            client_view-add_append c b x,
            client_view-add_append c a y,
            has_append-add_append a.append_id b x,
            has_append-add_append b.append_id a y,
            h.views c,
            h.present a.append_id,
            h.present b.append_id,
          )
          (views_commute other by_id by_time c (client_view c y) (has_append a.append_id y)
            (has_append b.append_id y));
    present = λ id.
        rw
          (
            has_append-add_append id a (add_append b x),
            has_append-add_append id b (add_append a y),
            has_append-add_append id b x,
            has_append-add_append id a y,
            h.present id,
          )
          (ground arith);
  }
]

-- Arrivals keep two replicas in agreement, also where they differ in the order of the arrivals.
receive_all-Agrees_same :
    (l : List AppendInfo) {x y : List AppendInfo}
    → Agrees x y
    → Agrees (receive_all x l) (receive_all y l)
unfolding receive_all
receive_all-Agrees_same [] h = h
receive_all-Agrees_same (a ∷ l) h = receive_all-Agrees_same l (add_append-Agrees a h)

sub_Identifies :
    {l m : List AppendInfo} → ((a : AppendInfo) → Mem a m → Mem a l) → Identifies l → Identifies m
sub_Identifies f i = record {
  by_id = λ a b p q. i.by_id a b (f a p) (f b q);
  by_time = λ a b p q. i.by_time a b (f a p) (f b q);
}

Agrees-refl : (x : List AppendInfo) → Agrees x x
Agrees-refl x = record { views = λ c. refl; present = λ id. refl }

Agrees-trans : {x y z : List AppendInfo} → Agrees x y → Agrees y z → Agrees x z
Agrees-trans h k = record {
  views = λ c. h.views c ∙ k.views c;
  present = λ id. h.present id ∙ k.present id;
}

receive_all-Agrees :
    {l m : List AppendInfo} {x y : List AppendInfo}
    → Permᴰ l m
    → Identifies l
    → Agrees x y
    → Agrees (receive_all x l) (receive_all y m)
unfolding receive_all
receive_all-Agrees Permᴰ.nil i h = h
receive_all-Agrees (Permᴰ.cons {a = a} {b = b} e p) i h =
    receive_all-Agrees p (sub_Identifies (λ c. mem-cons_of_mem a) i)
      (rw (← e) (add_append-Agrees a h))
receive_all-Agrees (Permᴰ.swap {a = a} {b = b} {l = l} e f) i h =
    rw (← e, ← f)
      (receive_all-Agrees_same l (
        add_append_comm b a (i.by_id b a (mem-cons_of_mem a mem-cons_self) mem-cons_self)
          (i.by_time b a (mem-cons_of_mem a mem-cons_self) mem-cons_self) h))
receive_all-Agrees {y = y} (Permᴰ.trans {l₁ = l} {l₂ = m} p q) i h =
    Agrees-trans (receive_all-Agrees p i h)
      (receive_all-Agrees q (sub_Identifies (λ a. (Perm.mem_iff ∣ p ∣₁).1) i) (Agrees-refl y))

appends_set : IsSet (List AppendInfo)
appends_set = hlevel

bool_set : IsSet Bool
bool_set = hlevel

-- Two replicas that receive the same appends in different orders, repeats included, hold the same
-- sequence of every client's appends, and the same set of append IDs, if an ID names one append
-- and a client and a timestamp do.
pub receive_all-perm :
    {l m : List AppendInfo}
    → Perm l m
    → Identifies l
    → ((c : Text) → client_view c (receive_all [] l) ≡ client_view c (receive_all [] m))
      × ((id : Text) → has_append id (receive_all [] l) ≡ has_append id (receive_all [] m))
receive_all-perm {l} {m} p i =
    let agree = λ (d : Permᴰ l m). receive_all-Agrees d i (Agrees-refl []) in
    (
      λ c. ∥∥₁_elim p (appends_set _ _) (λ d. (agree d).views c),
      λ id. ∥∥₁_elim p (bool_set _ _) (λ d. (agree d).present id),
    )

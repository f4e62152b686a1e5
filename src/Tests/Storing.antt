-- ===== src/Tests/Storing.antt =====
-- Appends and the metadata at concrete inputs.
use mathlib.Core.List.{Mem}
use mathlib.Core.List.Perm
use mathlib.Core.List.Memᴰ
use mathlib.Core.Logic.{∥∥₁_elim}
use hydfs.Prelude.{Text, ◌≡◌, ◌≢◌, refl, sym, subst, inl, inr, [], ◌∷◌}
use hydfs.Metadata.{AppendInfo, has_append}
use hydfs.Metadata.Order.{client_view}
use hydfs.Metadata.Arrivals.{Identifies, receive_all, receive_all-perm}
use hydfs.Tests.Data.{early, late}

module _ (P : AppendInfo → Type 0) (prop : (a : AppendInfo) → IsProp (P a)) (e : P early)
    (l : P late) where
  one_of : (a : AppendInfo) → Mem a (early ∷ late ∷ []) → P a
  one_of a h = ∥∥₁_elim h (prop a) (λ d. elim (Memᴰ.cases_cons d) [
    | inl p ↦ subst P (sym p) e
    | inr d' ↦ elim (Memᴰ.cases_cons d') [
      | inl p ↦ subst P (sym p) l
      | inr d'' ↦ absurd (Memᴰ.not-nil d'')
    ]
  ])

distinct :
    (key : AppendInfo → Text)
    → key early ≢ key late
    → (a b : AppendInfo) → Mem a (early ∷ late ∷ [])
    → Mem b (early ∷ late ∷ [])
    → key a ≡ key b
    → a ≡ b
distinct key n a b p q =
    one_of (λ x. key x ≡ key b → x ≡ b) (λ x. hlevel)
      (one_of (λ y. key early ≡ key y → early ≡ y) (λ y. hlevel) (λ k. refl) (λ k. absurd (n k)) b
        q)
      (one_of (λ y. key late ≡ key y → late ≡ y) (λ y. hlevel) (λ k. absurd (n (sym k))) (λ k. refl)
        b q)
      a p

both_Identifies : Identifies (early ∷ late ∷ [])
both_Identifies = record {
  by_id = distinct (λ a. a.append_id) (λ k. cc);
  by_time = λ a b p q same. distinct (λ a. a.client_timestamp) (λ k. cc) a b p q;
}

receive_all-perm_example :
    ((c : Text)
      → client_view c (receive_all [] (early ∷ late ∷ []))
        ≡ client_view c (receive_all [] (late ∷ early ∷ [])))
    × ((id : Text)
        → has_append id (receive_all [] (early ∷ late ∷ []))
          ≡ has_append id (receive_all [] (late ∷ early ∷ [])))
receive_all-perm_example = receive_all-perm (Perm.swap late early []) both_Identifies

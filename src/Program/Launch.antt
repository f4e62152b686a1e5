-- ===== src/Program/Launch.antt =====
-- Which node a name starts.
use hydfs.Prelude.{
  ℕ, Text, codes, text_eq, text_eq_iff, ◌≡◌, refl, ap, ◌∙◌, subst, none, some, List, [], ◌∷◌, ◌++◌,
  true, false, Dict, lookup, insert, if◌then◌else◌, Bool-cases, inl, inr, All,
}
use hydfs.Prelude.Decimal.{ℤ}
use hydfs.Config.{Config, node_map, address_to_vm_name, reverse_map}
use hydfs.Server.{Server, new_server, vm_name_of}
use hydfs.Console.{Console, initialize_logger}
use hydfs.Program.{starts, main, node_address}

-- what holds of every entry holds of the one that is found
lookup-All :
    {V : Type 0} (P : Text → V → Type 0) (k : Text) (m : Dict V) {v : V}
    → All (λ e. P (e.0) (e.1)) m
    → lookup k m ≡ some v
    → P k v
unfolding lookup
lookup-All P k [] h e = absurd (nothing e)
  where
    nothing : {V : Type 0} {v : V} → none ≡ some v → ⊥
    nothing q = cc
lookup-All P k ((j, w) ∷ m) {v} h e = elim (Bool-cases (text_eq j k)) [
  | inl s ↦ subst (λ x. P x v) ((text_eq_iff j k).0 s) (subst (P j) (found s e) h.0)
  | inr s ↦ lookup-All P k m h.1 (other s e)
]
  where
    found : text_eq j k ≡ true → (if text_eq j k then some w else lookup k m) ≡ some v → w ≡ v
    found s q = cc

    other :
        text_eq j k ≡ false
        → (if text_eq j k then some w else lookup k m) ≡ some v
        → lookup k m ≡ some v
    other s q = cc

-- every name is found again under its address
names_back : All (λ e. lookup (e.1) address_to_vm_name ≡ some (e.0)) node_map
unfolding address_to_vm_name reverse_map lookup insert text_eq
names_back = (refl, (refl, (refl, (refl, (refl, (refl, (refl, (refl, (refl, (refl, tt))))))))))

-- Started with a name of the node map, and with a log, the program runs a node at the address of
-- that name, which keeps its files in the directory of that name, and which is the introducer
-- exactly if that address is the introducer's.
pub main_starts :
    (hash_of : Text → ℕ) (seconds : ℤ) (now : ℕ) (entries : List Text) (config : Config)
    (node_name : Text) (args : List Text) (console : Console) {address : Text}
    → lookup node_name node_map ≡ some address
    → (s : Server) × (after : Console) × (main hash_of seconds now true
          (some entries)
          config
          (node_name ∷ args)
          console
        ≡ starts s after)
      × (s.addr ≡ address)
      × (s.file_directory ≡ codes "../hydfs/" ++ node_name)
      × (s.is_introducer ≡ text_eq address config.introducer_addr)
unfolding main initialize_logger new_server
main_starts hash_of seconds now entries config node_name args console {address} e =
    let found = node_address (lookup node_name node_map) in
    let q : found ≡ address = ap node_address e in
    (
      new_server hash_of seconds now found config.introducer_addr
          (text_eq found config.introducer_addr),
      _,
      refl,
      q,
      ap (λ a. codes "../hydfs/" ++ vm_name_of (lookup a address_to_vm_name)) q
          ∙ ap (λ o. codes "../hydfs/" ++ vm_name_of o)
              (lookup-All (λ k a. lookup a address_to_vm_name ≡ some k) node_name node_map
                names_back e),
      ap (λ a. text_eq a config.introducer_addr) q,
    )

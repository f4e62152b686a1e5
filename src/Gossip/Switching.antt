-- ===== src/Gossip/Switching.antt =====
-- cli.go, `handleSwitch`: a node changes its own protocol and tells every other node that it knows.
use hydfs.Prelude.{
  Text, text_eq, text_eq_iff, text_eq_sym, ◌≡◌, refl, ap, ◌∙◌, Option, none, some, [], ◌∷◌, Bool,
  true, false, ◌&&◌, ◌||◌, not, any, Dict, lookup, insert, lookup-insert, if◌then◌else◌, arith,
  Bool-cases, inl, inr,
}
use hydfs.Config.{Config, ProtocolType, SuspicionType, handle_switch, switch_protocol}
use hydfs.Member.{Member}
use hydfs.Membership.{snapshot}
use hydfs.Rpc.{protocol_switch_request}
use hydfs.Rpc.Dispatch.{Process}
use hydfs.Gossip.Rounds.{Group}

-- what the `ProtocolSwitch` request does to a process
abbrev pub switched : ProtocolType → SuspicionType → Process → Process
unfolding protocol_switch_request
switched protocol suspicion p = record p {
  config = protocol_switch_request protocol suspicion p.config;
}

module _ (reaches : Text → Bool) (own : Text) (protocol : ProtocolType)
    (suspicion : SuspicionType) where
  -- What the request changes at the process; the bytes that both sides count are in Rpc.Client.
  unfoldable pub tell_at : Text → Option Process → Group → Group
  unfolding insert protocol_switch_request
  tell_at address none group = group
  tell_at address (some p) group = insert address (switched protocol suspicion p) group

  -- the round of the loop for one member, with `CallProtocolSwitch`
  unfoldable pub tell : Text → Group → Group
  unfolding tell_at lookup text_eq
  tell address group =
      if not (text_eq address own) && reaches address
      then tell_at address (lookup address group) group
      else group

  -- One goroutine for each member; what they do does not depend on their order.
  unfoldable pub broadcast : Dict Member → Group → Group
  unfolding tell
  broadcast [] group = group
  broadcast ((node_id, m) ∷ members) group = broadcast members (tell m.address group)

-- `handleSwitch` at the process `p`; `none` is a word that is refused.
unfoldable pub switch_command : (Text → Bool) → Text → Text → Process → Group → Option Group
unfolding handle_switch broadcast snapshot insert
switch_command reaches protocol_str suspicion_str p group =
    elim (handle_switch protocol_str suspicion_str p.config) [
      | none ↦ none
      | some c ↦ some (
          broadcast reaches p.server.addr c.protocol c.suspicion (snapshot p.server.members)
            (insert p.server.addr (record p { config = c }) group))
    ]

-- Does a node with this address stand among the members?
abbrev pub is_told : Text → Dict Member → Bool
is_told a = any (λ e. text_eq (e.1.address) a)

module _ (reaches : Text → Bool) (own : Text) (protocol : ProtocolType)
    (suspicion : SuspicionType) where
  abbrev after_telling : Bool → Process → Process
  after_telling told q = if told then switched protocol suspicion q else q

  lookup-tell_at :
      (t a : Text) (o : Option Process) (group : Group) {q : Process}
      → lookup t group ≡ o
      → lookup a group ≡ some q
      → lookup a (tell_at reaches own protocol suspicion t o group)
        ≡ some (after_telling (text_eq t a) q)
  unfolding tell_at
  lookup-tell_at t a none group e f = ground (arith, text_eq_iff t a)
  lookup-tell_at t a (some p) group e f =
      lookup-insert t a (switched protocol suspicion p) group ∙ ground (arith, text_eq_iff t a)

  lookup-tell :
      (t a : Text) (group : Group) {q : Process}
      → lookup a group ≡ some q
      → lookup a (tell reaches own protocol suspicion t group)
        ≡ some (after_telling (text_eq t a && (not (text_eq a own) && reaches a)) q)
  unfolding tell
  lookup-tell t a group {q} f = elim (Bool-cases (not (text_eq t own) && reaches t)) [
    | inl g ↦ rw g (
        lookup-tell_at t a (lookup t group) group refl f
        ∙ ap (λ b. some (after_telling b q)) (same g))
    | inr g ↦ rw g (f ∙ ap (λ b. some (after_telling b q)) (other g))
  ]
    where
      same :
          (not (text_eq t own) && reaches t) ≡ true
          → text_eq t a ≡ (text_eq t a && (not (text_eq a own) && reaches a))
      same g = ground (arith, text_eq_iff t a)

      other :
          (not (text_eq t own) && reaches t) ≡ false
          → false ≡ (text_eq t a && (not (text_eq a own) && reaches a))
      other g = ground (arith, text_eq_iff t a)

  again :
      (b d : Bool) (q : Process) → after_telling d (after_telling b q) ≡ after_telling (b || d) q
  unfolding protocol_switch_request switch_protocol
  again b d q = ground arith

  lookup-broadcast :
      (members : Dict Member) (a : Text) (group : Group) {q : Process}
      → lookup a group ≡ some q
      → lookup a (broadcast reaches own protocol suspicion members group)
        ≡ some (after_telling (is_told a members && (not (text_eq a own) && reaches a)) q)
  unfolding broadcast
  lookup-broadcast [] a group f = f
  lookup-broadcast ((id, m) ∷ members) a group {q} f =
      let g = not (text_eq a own) && reaches a in
      lookup-broadcast members a (tell reaches own protocol suspicion m.address group)
        (lookup-tell m.address a group f)
      ∙ ap some (again (text_eq m.address a && g) (is_told a members && g) q)
      ∙ ap (λ b. some (after_telling b q)) (both (text_eq m.address a) (is_told a members) g)
    where
      both : (x y g : Bool) → ((x && g) || (y && g)) ≡ ((if x then true else y) && g)
      both x y g = ground arith

changed :
    (reaches : Text → Bool) (p : Process) (group : Group) (a : Text) (c : Config) {q : Process}
    → lookup a group ≡ some q
    → lookup a (
        broadcast reaches p.server.addr c.protocol c.suspicion
          (snapshot p.server.members)
          (insert p.server.addr (record p { config = c }) group))
      ≡ some (
          if text_eq p.server.addr a
          then record p { config = c }
          else if is_told a (snapshot p.server.members) && reaches a
          then switched c.protocol c.suspicion q
          else q)
changed reaches p group a c {q} f =
    let own = p.server.addr in
    let stored = lookup-insert own a (record p { config = c }) group in
    elim (Bool-cases (text_eq own a)) [
      | inl s ↦
          lookup-broadcast reaches own c.protocol c.suspicion (snapshot p.server.members) a _
            {q = record p { config = c }} (stored ∙ rw s refl)
          ∙ rw (text_eq_sym a own, s) (ground arith)
      | inr s ↦
          lookup-broadcast reaches own c.protocol c.suspicion (snapshot p.server.members) a _
            {q = q} (stored ∙ rw s f)
          ∙ rw (text_eq_sym a own, s) refl
    ]

-- A `switch` command with known words leaves the protocol, the suspicion mode and the fanout that it
-- names at the process itself and at every process whose address stands among its members, however
-- often, and is reached, and leaves every other process as it was.
pub switch_command_lem :
    (reaches : Text → Bool) (protocol_str suspicion_str : Text) (p : Process) (group : Group)
    (a : Text) {c : Config} {q : Process}
    → handle_switch protocol_str suspicion_str p.config ≡ some c
    → lookup a group ≡ some q
    → (group' : Group) × (switch_command reaches protocol_str suspicion_str p group ≡ some group')
      × (lookup a group'
          ≡ some (
              if text_eq p.server.addr a
              then record p { config = c }
              else if is_told a (snapshot p.server.members) && reaches a
              then switched c.protocol c.suspicion q
              else q))
unfolding switch_command
switch_command_lem reaches ps ss p group a {c} {q} e f = (
  broadcast reaches p.server.addr c.protocol c.suspicion (snapshot p.server.members)
      (insert p.server.addr (record p { config = c }) group),
  rw (switch_command, e) refl,
  changed reaches p group a c f,
)

-- ===== src/Rpc/Joining.antt =====
-- A node that joins, and its introducer, know each other and the members that the introducer knew.
use hydfs.Prelude.{
  ℕ, Text, text_eq, text_eq_refl, text_eq_sym, ◌≡◌, refl, ap, ◌∙◌, some, true, false,
}
use hydfs.Config.{Config}
use hydfs.Member.{member_id}
use hydfs.Membership.{add_or_update}
use hydfs.Membership.Identity.{find_member, HasUniqueIds, add_or_update_lem}
use hydfs.Server.{Server, server_id, self_member}
use hydfs.Merge.{merge_membership}
use hydfs.Merge.Told.{told_by, IsMode}
use hydfs.Merge.Reports.{find_member-merge_membership}
use hydfs.Rpc.{accepted, join_request, notify_introducer}

-- the configuration of a node that joined
abbrev pub adopted : Config → Config → Config
adopted theirs own = record own { protocol = theirs.protocol; suspicion = theirs.suspicion }

-- If a node with a list without repeated IDs joins at an introducer whose list has none either and
-- whose suspicion mode is known, then the introducer knows the node under its ID, with the hash of
-- its address, and every other member as before; and the node succeeds, has the introducer's
-- protocol and suspicion mode, its own fanout, and is told of every other member what the
-- introducer's list then holds of it.
pub notify_introducer-join_request :
    (theirs own : Config) (hash_of : Text → ℕ) (now later : ℕ) (introducer s : Server) (id : Text)
    → introducer.is_introducer ≡ true
    → IsMode theirs.suspicion
    → HasUniqueIds introducer.members
    → HasUniqueIds s.members
    → text_eq id (server_id s) ≡ false
    → let (introducer', resp) = join_request theirs hash_of now (self_member now s) introducer in
      (find_member (server_id s) introducer'.members
        ≡ some (accepted hash_of now (self_member now s)))
      × (find_member id introducer'.members ≡ find_member id introducer.members)
      × ((s' : Server) × (notify_introducer later (some resp) own s ≡ some (adopted theirs own, s'))
          × (find_member id s'.members
              ≡ told_by
                  (adopted theirs own)
                  later
                  (server_id introducer)
                  (find_member id introducer.members)
                  (find_member id s.members)))
unfolding join_request notify_introducer server_id member_id
notify_introducer-join_request theirs own hash_of now later introducer s id is mode u v other =
    let m = accepted hash_of now (self_member now s) in
    let (new, u', sorted) = add_or_update_lem (server_id s) m introducer.members u in
    let (old, _, _) = add_or_update_lem id m introducer.members u in
    let told =
      find_member-merge_membership (adopted theirs own) later (add_or_update m introducer.members)
        (server_id introducer) s id mode v u' other in
    let apart = text_eq_sym (server_id s) id ∙ other in
    rw is (
      new ∙ rw (text_eq_refl (server_id s)) refl,
      old ∙ rw apart refl,
      (
        merge_membership (adopted theirs own) later (add_or_update m introducer.members)
            (server_id introducer) s,
        refl,
        told
            ∙ ap
                (λ x.
                  told_by (adopted theirs own) later (server_id introducer) x
                    (find_member id s.members))
                (old ∙ rw apart refl),
      ),
    )

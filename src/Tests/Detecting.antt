-- ===== src/Tests/Detecting.antt =====
-- Failure detection at concrete inputs.
use hydfs.Prelude.{codes, ◌≡◌, refl, none, arith, text_eq, ◌⊎◌, if◌then◌else◌, true}
use hydfs.Config.{initial_config}
use hydfs.Member.{member_id}
use hydfs.Membership.{sort_nodes}
use hydfs.Membership.Identity.{HasUniqueIds, find_member}
use hydfs.Membership.Order.{IsSorted}
use hydfs.Detection.{inspect, mark_suspect_if_needed}
use hydfs.Detection.OnePass.{outcome, mark_suspect_if_needed-outcome}
use hydfs.Detection.Transitions.{
  Allowed, pass, mark_suspect_if_needed-Allowed, silent_member_forgotten,
}
use hydfs.Tests.Data.{suspecting, second_one, server, short_timeouts, ring_unique, ring-IsSorted}

mark_suspect_if_needed-Allowed_example :
    let after = (mark_suspect_if_needed suspecting 3 short_timeouts server).0.members in
    Allowed suspecting.suspicion short_timeouts 3 second_one (find_member (codes "b-7") after)
    × HasUniqueIds after
    × IsSorted after
unfolding member_id text_eq
mark_suspect_if_needed-Allowed_example =
    mark_suspect_if_needed-Allowed suspecting 3 short_timeouts server (codes "b-7") {m = second_one}
      ring_unique ring-IsSorted refl

mark_suspect_if_needed-outcome_example :
    let r = mark_suspect_if_needed initial_config 3 short_timeouts server in
    let after = outcome (inspect initial_config server.addr 3 short_timeouts) server.members in
    (r.0.members ≡ (if r.1 then sort_nodes after else server.members))
    × ((r.1 ≡ true) ⊎ (after ≡ server.members))
mark_suspect_if_needed-outcome_example =
    mark_suspect_if_needed-outcome initial_config 3 short_timeouts server ring_unique

silent_member_forgotten_example :
    find_member
      (codes "b-7")
      (pass suspecting short_timeouts 20
        (pass suspecting short_timeouts 8 (pass suspecting short_timeouts 3 server))).members
    ≡ none
unfolding member_id text_eq
silent_member_forgotten_example =
    silent_member_forgotten suspecting short_timeouts server (codes "b-7") {m = second_one} 3 8 20
      ring_unique refl refl refl refl (omega arith) (omega arith) (omega arith)

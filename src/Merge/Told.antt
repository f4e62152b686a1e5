-- ===== src/Merge/Told.antt =====
-- What a report makes of the member that it is about, as a function of that member alone.
use hydfs.Prelude.{
  ℕ, Text, ◌≡◌, refl, Option, none, some, Bool, true, false, ◌&&◌, Dict, lookup, if◌then◌else◌, ◌⊎◌,
  arith,
}
use hydfs.Config.{Config, SuspicionType, suspect, no_suspect, other_suspicion}
use hydfs.Member.{Member, dead, status_eq, member_id, zero_member}
use hydfs.Server.{Server}
use hydfs.Merge.{
  touch, is_gossip, is_final, resolve, by_snapshot, merge_one, handle_suspicion_merge,
  handle_no_suspicion_merge, live_suspicion_merge, same_incarnation, same_status, prefer_status,
}

-- the member that the rules of the mode choose
abbrev pub chosen : SuspicionType → Config → ℕ → Text → Member → Member → Member
chosen suspect c now sender l r =
    if is_final r.status then r else live_suspicion_merge c.protocol now sender l r
chosen no_suspect c now sender l r = handle_no_suspicion_merge c now sender l r
chosen (other_suspicion t) c now sender l r = zero_member

pub resolve-chosen :
    (t : SuspicionType) (c : Config) (now : ℕ) (sender : Text) (l r : Member) (s : Server)
    → (resolve t c now sender l r s).0 ≡ chosen t c now sender l r
unfolding resolve handle_suspicion_merge
resolve-chosen suspect c now sender l r s = ground arith
resolve-chosen no_suspect c now sender l r s = refl
resolve-chosen (other_suspicion t) c now sender l r s = refl

abbrev pub known_told : Config → ℕ → Text → Member → Option Member → Option Member
known_told c now sender r none = if status_eq r.status dead then none else some (touch now r)
known_told c now sender r (some l) = some (chosen c.suspicion c now sender l r)

-- What is found under the ID of a report, from what was found before: an unknown member joins
-- unless it is reported dead, and a known one is decided by the rules of the mode.
abbrev pub told : Config → ℕ → Text → Member → Option Member → Option Member
told c now sender r before =
    if is_gossip c.protocol && status_eq r.status dead
    then before
    else known_told c now sender r before

-- what the message holds of an ID, told once
abbrev pub told_by : Config → ℕ → Text → Option Member → Option Member → Option Member
told_by c now sender none before = before
told_by c now sender (some r) before = told c now sender r before

pub merge_one_lem :
    (c : Config) (now : ℕ) (sender : Text) (snap : Dict Member) (r : Member) (s : Server)
    → merge_one c now sender snap r s ≡ (
        if is_gossip c.protocol && status_eq r.status dead
        then s
        else by_snapshot (lookup (member_id r) snap) c now sender r s)
unfolding merge_one
merge_one_lem c now sender snap r s = refl

pub if_same {ℓ} : {A : Type ℓ} (b : Bool) (x : A) → x ≡ (if b then x else x)
if_same true x = refl
if_same false x = refl

abbrev pub IsMode : SuspicionType → Type 0
IsMode t = (t ≡ suspect) ⊎ (t ≡ no_suspect)

pub chosen-id :
    (c : Config) (now : ℕ) (sender : Text) (l r : Member)
    → IsMode c.suspicion
    → member_id l ≡ member_id r
    → member_id (chosen c.suspicion c now sender l r) ≡ member_id r
unfolding handle_no_suspicion_merge live_suspicion_merge same_incarnation same_status prefer_status
    member_id
chosen-id c now sender l r mode e = ground arith

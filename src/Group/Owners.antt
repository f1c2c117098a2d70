-- ===== src/Group/Owners.antt =====
-- A group has one owner at most, and only groups that exist have members: that this holds of what
-- is stored, and which writes keep it.
pub mod Kept
pub mod Joins
pub mod Changes
pub mod Members
pub mod Create
pub mod Transfer
pub mod Run
use root_open_im_server.Base.{
  ℕ, String, Bool, true, false, not, ◌&&◌, List, [], ◌∷◌, Option, none, some, str_eq, eq_iff, ◌==◌,
  if◌then◌else◌, all, ◌≡◌, refl, arith, inl, inr, Option-cases, Bool-cases,
}
use root_open_im_server.Base.Int.{ℤ}
use root_open_im_server.Common.Constants.{group_owner}
use root_open_im_server.Group.Tables.{
  GroupModel, GroupMemberModel, GroupRequestModel, GroupChange, MemberChange, View, find_member,
  or_else, or_old, has_role, put_members, put_requests, change_group, change_member, set_member,
  drop_members, drop_request, handle_request,
}

abbrev pub is_owner : Option GroupMemberModel → Bool
is_owner = has_role group_owner

pub record IsSound (v : View) : Type 0 where
  pub one_owner :
      (g a b : String) → is_owner (v.member g a) ≡ true → is_owner (v.member g b) ≡ true → a ≡ b
  pub in_groups : (g u : String) → v.group g ≡ none → v.member g u ≡ none

-- A change that makes nobody an owner and nobody a member of no group.
pub record Follows (v v' : View) : Type 0 where
  pub owners : (g u : String) → is_owner (v'.member g u) ≡ true → is_owner (v.member g u) ≡ true
  pub groups : (g : String) → v'.group g ≡ none → v.group g ≡ none
  pub members : (g u : String) → v'.group g ≡ none → v.member g u ≡ none → v'.member g u ≡ none

pub Follows-IsSound : (v v' : View) → Follows v v' → IsSound v → IsSound v'
Follows-IsSound v v' f sound = record {
  one_owner = λ g a b ha hb. sound.one_owner g a b (f.owners g a ha) (f.owners g b hb);
  in_groups = λ g u h. f.members g u h (sound.in_groups g u (f.groups g h));
}

pub refl-Follows : (v : View) → Follows v v
refl-Follows v = record { owners = λ g u h. h; groups = λ g h. h; members = λ g u h m. m }

pub trans-Follows : (u v w : View) → Follows u v → Follows v w → Follows u w
trans-Follows u v w f h = record {
  owners = λ g x o. f.owners g x (h.owners g x o);
  groups = λ g n. f.groups g (h.groups g n);
  members = λ g x n m. h.members g x n (f.members g x (h.groups g n) m);
}

-- Members of the group without an owner among them.
abbrev pub is_new_in : String → GroupMemberModel → Bool
is_new_in g m = str_eq m.group_id g && not (m.role_level == group_owner)

pub find_member-all :
    (p : GroupMemberModel → Bool) (g u : String) (ms : List GroupMemberModel) (m : GroupMemberModel)
    → all p ms ≡ true
    → find_member g u ms ≡ some m
    → (p m ≡ true) × (m.group_id ≡ g)
find_member-all p g u [] m h found = absurd (ground arith)
find_member-all p g u (x ∷ ms) m h found =
    ground (arith, eq_iff x.group_id g, eq_iff x.user_id u, find_member-all p g u ms m)

pub put_members-Follows :
    (g : String) (x : GroupModel) (ms : List GroupMemberModel) (v : View)
    → v.group g ≡ some x
    → all (is_new_in g) ms ≡ true
    → Follows v (put_members ms v)
put_members-Follows g x ms v exists new = record {
  owners = λ h u owner. elim (Option-cases (find_member h u ms)) [
    | inl absent ↦ ground arith
    | inr (m, found) ↦
        let (safe, here) = find_member-all (is_new_in g) h u ms m new found in ground arith
  ];
  groups = λ h n. n;
  members = λ h u n absent. elim (Option-cases (find_member h u ms)) [
    | inl missing ↦ ground arith
    | inr (m, found) ↦
        let (safe, here) = find_member-all (is_new_in g) h u ms m new found in
        ground (arith, eq_iff m.group_id g)
  ];
}

abbrev pub is_owner_role : Option ℕ → Bool
is_owner_role none = false
is_owner_role (some level) = level == group_owner

pub change_member-Follows :
    (g u : String) (c : MemberChange) (v : View)
    → is_owner_role c.role_level ≡ false
    → Follows v (change_member g u c v)
change_member-Follows g u c v safe = record {
  owners = λ h w owner. ground (arith, eq_iff g h, eq_iff u w);
  groups = λ h n. n;
  members = λ h w n absent. ground (arith, eq_iff g h, eq_iff u w);
}

pub drop_members-Follows :
    (p : String → Bool) (g : String) (v : View) → Follows v (drop_members p g v)
drop_members-Follows p g v = record {
  owners = λ h w owner. ground (arith, eq_iff g h);
  groups = λ h n. n;
  members = λ h w n absent. ground (arith, eq_iff g h);
}

pub change_group-Follows :
    (g : String) (c : GroupChange) (v : View) → Follows v (change_group g c v)
change_group-Follows g c v = record {
  owners = λ h w owner. owner;
  groups = λ h n. ground (arith, eq_iff g h);
  members = λ h w n absent. absent;
}

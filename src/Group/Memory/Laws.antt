-- ===== src/Group/Memory/Laws.antt =====
-- The tables in memory obey the laws.
use mathlib.Core.Path.{fun_ext}
use root_open_im_server.Base.{
  ℕ, String, Bool, true, not, ◌&&◌, List, [], ◌∷◌, ◌++◌, map, Option, none, some, str_eq,
  if◌then◌else◌, keep, any, contains, ◌≡◌, refl, sym, ap, ◌∙◌, arith, eq_iff, inl, inr, Bool-cases,
}
use root_open_im_server.Base.Int.{ℤ}
use root_open_im_server.Base.Result.{Result, ok, err}
use root_open_im_server.Common.Errors.{Error}
use root_open_im_server.Group.Tables.{
  GroupModel, GroupMemberModel, GroupRequestModel, GroupChange, MemberChange, Done, View, IsTables,
  Does, set_group, set_member, find_group, find_member, find_request, has_role, names, or_else,
  map_option,
}
use root_open_im_server.Group.Memory.{
  Rows, view_of, found, is_member, is_request, ids_of, holds, settle, memory,
}

found_ok : {A : Type 0} (o : Option A) (a : A) → found o ≡ ok a → o ≡ some a
found_ok none a h = absurd (ground arith)
found_ok (some b) a h = ground arith

found_err : {A : Type 0} (o : Option A) (e : Error) → found o ≡ err e → o ≡ none
found_err none e h = refl
found_err (some b) e h = absurd (ground arith)

ok_same : {A : Type 0} (x y : A) (r : Result Error A) → r ≡ ok x → r ≡ ok y → x ≡ y
ok_same x y r h k = ground arith

find_group-append :
    (g : String) (xs ys : List GroupModel)
    → find_group g (xs ++ ys) ≡ or_else (find_group g xs) (find_group g ys)
find_group-append g [] ys = refl
find_group-append g (x ∷ xs) ys = ground (arith, find_group-append g xs ys)

find_group-map :
    (g h : String) (c : GroupChange) (xs : List GroupModel)
    → find_group h (map (λ x. if str_eq x.group_id g then set_group c x else x) xs)
      ≡ (if str_eq g h then map_option (set_group c) (find_group h xs) else find_group h xs)
find_group-map g h c [] = ground arith
find_group-map g h c (x ∷ xs) = elim (Bool-cases (str_eq x.group_id g)) [
  | inl here ↦
      ground (arith, eq_iff x.group_id g, eq_iff x.group_id h, eq_iff g h, find_group-map g h c xs)
  | inr there ↦
      ground (arith, eq_iff x.group_id g, eq_iff x.group_id h, eq_iff g h, find_group-map g h c xs)
]

find_group-key :
    (g : String) (xs : List GroupModel) (x : GroupModel) → find_group g xs ≡ some x → x.group_id ≡ g
find_group-key g [] x h = absurd (ground arith)
find_group-key g (y ∷ ys) x h = ground (arith, eq_iff y.group_id g, find_group-key g ys x)

find_member-append :
    (g u : String) (xs ys : List GroupMemberModel)
    → find_member g u (xs ++ ys) ≡ or_else (find_member g u xs) (find_member g u ys)
find_member-append g u [] ys = refl
find_member-append g u (x ∷ xs) ys = ground (arith, find_member-append g u xs ys)

find_member-key :
    (g u : String) (xs : List GroupMemberModel) (x : GroupMemberModel)
    → find_member g u xs ≡ some x
    → (x.group_id ≡ g) × (x.user_id ≡ u)
find_member-key g u [] x h = absurd (ground arith)
find_member-key g u (y ∷ ys) x h =
    ground (arith, eq_iff y.group_id g, eq_iff y.user_id u, find_member-key g u ys x)

find_member-map :
    (g u h w : String) (c : MemberChange) (xs : List GroupMemberModel)
    → find_member h w (map (λ m. if is_member g u m then set_member c m else m) xs) ≡ (
        if str_eq g h && str_eq u w
        then map_option (set_member c) (find_member h w xs)
        else find_member h w xs)
find_member-map g u h w c [] = ground arith
find_member-map g u h w c (x ∷ xs) = ground (
  arith,
  eq_iff x.group_id g,
  eq_iff x.group_id h,
  eq_iff g h,
  eq_iff x.user_id u,
  eq_iff x.user_id w,
  eq_iff u w,
  find_member-map g u h w c xs,
)

find_member-keep :
    (p : String → Bool) (g h w : String) (xs : List GroupMemberModel)
    → find_member h w (keep (λ m. not (str_eq m.group_id g && p m.user_id)) xs)
      ≡ (if str_eq g h && p w then none else find_member h w xs)
find_member-keep p g h w [] = ground arith
find_member-keep p g h w (x ∷ xs) = ground (
  arith,
  eq_iff x.group_id g,
  eq_iff x.group_id h,
  eq_iff g h,
  eq_iff x.user_id w,
  find_member-keep p g h w xs,
)

find_request-append :
    (g u : String) (xs ys : List GroupRequestModel)
    → find_request g u (xs ++ ys) ≡ or_else (find_request g u xs) (find_request g u ys)
find_request-append g u [] ys = refl
find_request-append g u (x ∷ xs) ys = ground (arith, find_request-append g u xs ys)

find_request-keep :
    (g u h w : String) (xs : List GroupRequestModel)
    → find_request h w (keep (λ r. not (is_request g u r)) xs)
      ≡ (if str_eq g h && str_eq u w then none else find_request h w xs)
find_request-keep g u h w [] = ground arith
find_request-keep g u h w (x ∷ xs) = ground (
  arith,
  eq_iff x.group_id g,
  eq_iff x.group_id h,
  eq_iff g h,
  eq_iff x.user_id u,
  eq_iff x.user_id w,
  eq_iff u w,
  find_request-keep g u h w xs,
)

find_request-map :
    (g u h w : String) (z : ℤ) (xs : List GroupRequestModel)
    → find_request h w
        (map (λ r. if is_request g u r then record r { handle_result = z } else r) xs)
      ≡ (if str_eq g h && str_eq u w
          then map_option (λ r. record r { handle_result = z }) (find_request h w xs)
          else find_request h w xs)
find_request-map g u h w z [] = ground arith
find_request-map g u h w z (x ∷ xs) = ground (
  arith,
  eq_iff x.group_id g,
  eq_iff x.group_id h,
  eq_iff g h,
  eq_iff x.user_id u,
  eq_iff x.user_id w,
  eq_iff u w,
  find_request-map g u h w z xs,
)

listed :
    (all_rows : List GroupMemberModel) (g u : String) (level : ℕ) (ys : List GroupMemberModel)
    → contains u (ids_of (keep (holds all_rows g level) ys))
      ≡ (any (is_member g u) ys && has_role level (find_member g u all_rows))
listed all_rows g u level [] = refl
listed all_rows g u level (y ∷ ys) = elim (Bool-cases (str_eq u y.user_id)) [
  | inl same ↦
      let user : u ≡ y.user_id = (eq_iff u y.user_id).0 same in
      let role : has_role level (find_member g u all_rows)
          ≡ has_role level (find_member g y.user_id all_rows) =
        ap (λ k. has_role level (find_member g k all_rows)) user in
      ground (arith, eq_iff u y.user_id, eq_iff y.user_id u, listed all_rows g u level ys)
  | inr other ↦ ground (arith, eq_iff u y.user_id, eq_iff y.user_id u, listed all_rows g u level ys)
]

role_found :
    (g u : String) (level : ℕ) (ys : List GroupMemberModel)
    → has_role level (find_member g u ys) ≡ true
    → any (is_member g u) ys ≡ true
role_found g u level [] h = absurd (ground arith)
role_found g u level (y ∷ ys) h = ground (arith, role_found g u level ys)

roles_listed :
    (xs : List GroupMemberModel) (g u : String) (level : ℕ)
    → contains u (ids_of (keep (holds xs g level) xs)) ≡ has_role level (find_member g u xs)
roles_listed xs g u level = elim (Bool-cases (has_role level (find_member g u xs))) [
  | inl has ↦ ground (arith, listed xs g u level xs, role_found g u level xs has)
  | inr lacks ↦ ground (arith, listed xs g u level xs)
]

settle_ok : (s s' : Rows) (d : Done Rows) → settle s d ≡ (s', ok tt) → d ≡ (s', ok tt)
settle_ok s s' (s1, ok _) h = h
settle_ok s s' (s1, err e) h = absurd (ground arith)

settle_err : (s s' : Rows) (e : Error) (d : Done Rows) → settle s d ≡ (s', err e) → s ≡ s'
settle_err s s' e (s1, ok _) h = absurd (ground arith)
settle_err s s' e (s1, err e') h = ground arith

-- A write that always succeeds, with this state.
writes :
    (w : Rows → Rows) (f : View → View)
    → ((s : Rows) → view_of (w s) ≡ f (view_of s))
    → Does memory (λ s. (w s, ok tt)) f
writes w f same = record {
  does = λ s s' h. ap view_of (sym (ap (λ (d : Done Rows). d.0) h)) ∙ same s;
}

with_groups :
    (v : View) {f h : String → Option GroupModel}
    → ((g : String) → f g ≡ h g)
    → record v { group = f } ≡ record v { group = h }
with_groups v same = ap (λ k. record v { group = k }) (fun_ext same)

with_members :
    (v : View) {f h : String → String → Option GroupMemberModel}
    → ((g u : String) → f g u ≡ h g u)
    → record v { member = f } ≡ record v { member = h }
with_members v same = ap (λ k. record v { member = k }) (fun_ext (λ g. fun_ext (same g)))

with_requests :
    (v : View) {f h : String → String → Option GroupRequestModel}
    → ((g u : String) → f g u ≡ h g u)
    → record v { request = f } ≡ record v { request = h }
with_requests v same = ap (λ k. record v { request = k }) (fun_ext (λ g. fun_ext (same g)))

pub memory-IsTables : IsTables memory
memory-IsTables = record {
  group_taken = λ s g x h. found_ok _ x h;
  group_absent = λ s g e h r. found_err _ e h;
  member_taken = λ s g u m h. found_ok _ m h;
  member_absent = λ s g u e h r. found_err _ e h;
  group_key = λ s g x h. find_group-key g s.groups x h;
  member_key = λ s g u m h. find_member-key g u s.members m h;
  roles_listed = λ s g level us h u.
      ap (contains u) (sym (ok_same _ us _ refl h)) ∙ roles_listed s.members g u level;
  request_taken = λ s g u r h. found_ok _ r h;
  create_groups-Does =
      λ gs. writes _ _ (λ s. with_groups (view_of s) (λ g. find_group-append g s.groups gs));
  create_members-Does =
      λ ms. writes _ _ (λ s. with_members (view_of s) (λ g u. find_member-append g u s.members ms));
  create_requests-Does = λ rs.
      writes _ _ (λ s. with_requests (view_of s) (λ g u. find_request-append g u s.requests rs));
  update_group-Does =
      λ g c. writes _ _ (λ s. with_groups (view_of s) (λ h. find_group-map g h c s.groups));
  update_group-Spares = λ g c s s' e h. absurd (ground arith);
  update_member-Does = λ g u c.
      writes _ _ (λ s. with_members (view_of s) (λ h w. find_member-map g u h w c s.members));
  update_member-Spares = λ g u c s s' e h. absurd (ground arith);
  delete_members-Does = λ g us.
      writes _ _
        (λ s. with_members (view_of s) (λ h w. find_member-keep (names us) g h w s.members));
  delete_members_some = λ g us s s' e h. absurd (ground arith);
  delete_request-Does = λ g u.
      writes _ _ (λ s. with_requests (view_of s) (λ h w. find_request-keep g u h w s.requests));
  update_handler-Does = λ g u z.
      writes _ _ (λ s. with_requests (view_of s) (λ h w. find_request-map g u h w z s.requests));
  exec_del_keeps = λ ks s s' r h. ap view_of (sym (ap (λ (d : Done Rows). d.0) h));
  transaction-Does = λ w f law. record { does = λ s s' h. law.does s s' (settle_ok s s' (w s) h) };
  transaction-Spares = λ w s s' e h. ap view_of (sym (settle_err s s' e (w s) h));
}

-- ===== src/Group/Store/Found.antt =====
-- The members that a search by user ids finds.
use root_open_im_server.Base.{
  String, List, [], ◌∷◌, some, str_eq, ◌≡◌, arith, inl, inr, eq_iff, Option-cases, Bool-cases,
}
use root_open_im_server.Base.Result.{ok, Result-cases}
use root_open_im_server.Group.Tables.{GroupMemberModel, Tables, IsTables}
use root_open_im_server.Group.Store.{find_group_members}
use root_open_im_server.Group.Members.{member_of}

module _ (t : Tables) (laws : IsTables t) (s : t.State) (g : String) where
  -- What the map of the members found says of a user is what is stored.
  pub found_member :
      (us : List String) (ms : List GroupMemberModel) (u : String) (m : GroupMemberModel)
      → find_group_members t g us s ≡ ok ms
      → member_of u ms ≡ some m
      → ((t.view s).member g u ≡ some m) × (m.group_id ≡ g) × (m.user_id ≡ u)
  unfolding find_group_members
  found_member [] ms u m found h = absurd (ground arith)
  found_member (w ∷ us) ms u m found h = elim (Result-cases (find_group_members t g us s)) [
    | inr (e, failed) ↦ absurd (elim (Result-cases (t.take_member s g w)) [
      | inl (x, taken) ↦ ground arith
      | inr (e', missing) ↦ ground arith
    ])
    | inl (rest, others) ↦ elim (Result-cases (t.take_member s g w)) [
      | inr (e, missing) ↦ found_member us ms u m (ground arith) h
      | inl (x, taken) ↦
          let here = laws.member_taken s g w x taken in
          let (group, user) = laws.member_key s g w x here in
          let listed : ms ≡ x ∷ rest = ground arith in
          elim (Option-cases (member_of u rest)) [
            | inr (y, later) ↦ found_member us rest u m others (ground arith)
            | inl absent ↦ elim (Bool-cases (str_eq x.user_id u)) [
              | inl mine ↦ ground (arith, eq_iff x.user_id u)
              | inr other ↦ absurd (ground arith)
            ]
          ]
    ]
  ]

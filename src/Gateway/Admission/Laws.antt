-- ===== src/Gateway/Admission/Laws.antt =====
-- Who is admitted.
use root_open_im_server.Base.{
  ℕ, String, false, none, some, List, eq_iff, ◌≡◌, ◌≢◌, arith, Option-cases, inl, inr,
}
use root_open_im_server.Base.Int.{leb_ℤ}
use root_open_im_server.Base.Dict.{lookup}
use root_open_im_server.Base.Result.{Result, ok, Result-cases}
use root_open_im_server.Common.Errors.{Error}
use root_open_im_server.Common.Access.{Claims, ws_verify_token}
use root_open_im_server.Common.Constants.{normal_token}
use root_open_im_server.Gateway.UserMap.{Client}
use root_open_im_server.Gateway.Admission.{
  Admission, Request, parse_ws_args, ws_handler, registered, reset_client,
}

module _ (env : Admission) (r : Request) where
  -- What a request has to show to be let in as the user `send_id` on the platform `p`.
  pub record IsAdmitted (p : ℕ) (claim : Claims) (m : List (String × ℕ)) : Type 0 where
    pub below_limit : leb_ℤ env.ws_max_conn_num env.online_user_conn_num ≡ false
    pub has_token : r.token ≢ ""
    pub has_user : r.send_id ≢ ""
    pub has_platform : r.platform_id ≢ ""
    pub platform : env.atoi r.platform_id ≡ some p
    pub claims : env.get_claim_from_token r.token ≡ ok claim
    pub own_user : claim.user_id ≡ r.send_id
    pub own_platform : claim.platform_id ≡ p
    pub tokens : env.get_tokens r.send_id p ≡ ok m
    pub normal : lookup r.token m ≡ some normal_token

  -- A request that meets every condition is admitted, with its own token, user and platform.
  pub parse_ws_args_accepts :
      (p : ℕ) (claim : Claims) (m : List (String × ℕ))
      → IsAdmitted p claim m
      → ((parse_ws_args env r).1 ≡ none)
        × ((parse_ws_args env r).0.token ≡ r.token)
        × ((parse_ws_args env r).0.user_id ≡ r.send_id)
        × ((parse_ws_args env r).0.platform_id ≡ p)
  unfolding parse_ws_args ws_verify_token
  parse_ws_args_accepts p claim m h = ground (
    arith,
    eq_iff r.token "",
    eq_iff r.send_id "",
    eq_iff r.platform_id "",
    eq_iff claim.user_id r.send_id,
  )

  -- Nobody else is: without an error, each condition was met.
  pub parse_ws_args_sound :
      (parse_ws_args env r).1 ≡ none
      → (p : ℕ) × (claim : Claims) × (m : List (String × ℕ)) × IsAdmitted p claim m
  unfolding parse_ws_args ws_verify_token
  parse_ws_args_sound h = elim (Option-cases (env.atoi r.platform_id)) [
    | inl no_number ↦ absurd (ground arith)
    | inr (p, number) ↦ elim (Result-cases (env.get_claim_from_token r.token)) [
      | inr (e, bad) ↦ absurd (ground arith)
      | inl (claim, good) ↦ elim (Result-cases (env.get_tokens r.send_id p)) [
        | inr (e, bad) ↦ absurd (ground arith)
        | inl (m, found) ↦ (
          p,
          claim,
          m,
          ground (
            arith,
            eq_iff r.token "",
            eq_iff r.send_id "",
            eq_iff r.platform_id "",
            eq_iff claim.user_id r.send_id,
          ),
        )
      ]
    ]
  ]

  registered_client :
      (generate marshal write : Result Error (Unit {0})) (c : Client)
      → ws_handler env generate marshal write r ≡ registered c
      → ((parse_ws_args env r).1 ≡ none) × (c ≡ reset_client env r (parse_ws_args env r).0)
  unfolding ws_handler
  registered_client generate marshal write c h = ground arith

  -- A connection that reaches the server's table carries the request's user and token, and the
  -- platform that the request's number stands for, whatever the network does. That user and platform
  -- are the ones in the token's claims, and the token was not kicked.
  pub ws_handler_authentic :
      (generate marshal write : Result Error (Unit {0})) (c : Client)
      → ws_handler env generate marshal write r ≡ registered c
      → (c.user_id ≡ r.send_id)
        × (c.token ≡ r.token)
        × (env.atoi r.platform_id ≡ some c.platform_id)
        × (claim : Claims) × (m : List (String × ℕ)) × (env.get_claim_from_token c.token ≡ ok claim)
        × (claim.user_id ≡ c.user_id)
        × (claim.platform_id ≡ c.platform_id)
        × (env.get_tokens c.user_id c.platform_id ≡ ok m)
        × (lookup c.token m ≡ some normal_token)
  ws_handler_authentic generate marshal write c h =
      let (accepted, same) = registered_client generate marshal write c h in
      let (p, claim, m, a) = parse_ws_args_sound accepted in
      let (_, own_token, own_user, own_platform) = parse_ws_args_accepts p claim m a in
      (
        ground arith,
        ground arith,
        ground arith,
        claim,
        m,
        ground arith,
        ground arith,
        ground arith,
        ground arith,
        ground arith,
      )

-- ===== src/Gateway/Server/Tokens.antt =====
-- What the multi-terminal check does to the stored tokens.
use root_open_im_server.Base.{
  ℕ, String, [], ◌∷◌, Option, none, some, str_eq, eq_iff, ◌≡◌, refl, arith, if◌then◌else◌,
}
use root_open_im_server.Base.Dict.{lookup}
use root_open_im_server.Common.Constants.{kicked_token}
use root_open_im_server.Gateway.Server.{TokenMap, kick_tokens}

abbrev pub kicked_status : String → String → Option ℕ → Option ℕ
kicked_status own k none = none
kicked_status own k (some v) = some (if str_eq k own then v else kicked_token)

-- In the rewritten token map the client's own token keeps its status, every other token that was
-- there is kicked, and no token is added.
pub lookup-kick_tokens :
    (own k : String) (m : TokenMap)
    → lookup k (kick_tokens own m) ≡ kicked_status own k (lookup k m)
unfolding kick_tokens
lookup-kick_tokens own k [] = refl
lookup-kick_tokens own k ((j, v) ∷ m) =
    ground (arith, eq_iff j k, eq_iff k own, eq_iff j own, lookup-kick_tokens own k m)

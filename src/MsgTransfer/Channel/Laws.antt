-- ===== src/MsgTransfer/Channel/Laws.antt =====
-- What a batch of the channel sends on.
use root_open_im_server.Base.{Bool, false, some, ◌<◌, length, ℕ, String, List, [], ◌++◌, ◌≡◌, ◌⊎◌}
use root_open_im_server.Base.Result.{Result, err}
use root_open_im_server.Common.Errors.{Error}
use root_open_im_server.MsgStore.Doc.{MsgData}
use root_open_im_server.MsgStore.Sequence.{SeqCache, number, too_large}
use root_open_im_server.MsgTransfer.Channel.{Effect}
use root_open_im_server.MsgTransfer.Channel.Effects.{pushed, stored}

-- The effects of a handler: `ms` goes to the documents, and behind the messages that are not to be
-- stored to the receivers; it is the numbered messages to store, or nothing for the reason given.
abbrev pub IsHandled : Type 0 → List MsgData → List MsgData → List Effect → List MsgData → Type 0
IsHandled reason storage not_storage effects ms =
    (stored effects ≡ ms)
    × (pushed effects ≡ not_storage ++ ms)
    × (((ms ≡ []) × reason) ⊎ ((n : ℕ) × (ms ≡ number n storage)))

module _ (is_redis_nil : Error → Bool) (members : String → Result Error (List String))
    (c : SeqCache) where
  -- `redis.Nil` of the maximum's reader is no error but `none`, and "too large" is another error.
  pub record IsNilTest : Type 0 where
    pub large : is_redis_nil too_large ≡ false
    pub unread :
        (s : c.State) (id : String) (e : Error)
        → c.get_max_seq s id ≡ err e
        → is_redis_nil e ≡ false

  -- Why messages are not stored: there are more than a document holds, the conversation's maximum
  -- cannot be read, or the cache does not take the new one.
  abbrev pub NotStored : String → List MsgData → c.State → Type 0
  NotStored id storage s =
      (100 < length storage)
      ⊎ ((e : Error) × (c.get_max_seq s id ≡ err e))
      ⊎ ((e : Error) × (t : c.State) × (n : ℕ) × ((c.set_max_seq t id n).1 ≡ some e))

-- ===== src/MsgStore/Collection.antt =====
-- The collection of message documents, as the writers see it: the two calls of
-- `MsgDocModelInterface` that they make (pkg/common/db/unrelation/msg.go passes them on to the
-- MongoDB driver), with the behaviour of the database that the writers rely on, one writer at a time.
use root_open_im_server.Base.{
  ℕ, zero, suc, String, Bool, true, false, List, some, str_eq, ◌==◌, ◌&&◌, if◌then◌else◌, ◌≡◌, ◌⊎◌,
}
use root_open_im_server.Base.Result.{Result, ok, err}
use root_open_im_server.Common.Errors.{Error}
use root_open_im_server.MsgStore.Doc.{MsgData, Revoke, MsgInfo, empty_info}

-- A value to store: the second argument of `UpdateMsg`'s key, or a nil interface.
pub data Field : Type 0 where
  msg_field : MsgData → Field
  revoke_field : Revoke → Field
  nil_field : Field

-- `$set` of one member of a slot.
abbrev pub set_field : Field → MsgInfo → MsgInfo
set_field (msg_field m) s = record s { msg = some m }
set_field (revoke_field r) s = record s { revoke = some r }
set_field nil_field s = s

pub data Creation : Type 0 where
  created : Creation
  duplicate_key : Creation
  failed : Error → Creation

pub record Collection : Type 1 where
  pub Docs : Type 0
  -- `UpdateMsg`: whether a document matched.
  pub update_msg : Docs → String → ℕ → Field → Docs × Result Error Bool
  pub create : Docs → String → List MsgInfo → Docs × Creation
  -- What is stored: whether there is such a document, and its slots.
  pub has_doc : Docs → String → Bool
  pub slot : Docs → String → ℕ → MsgInfo

-- A slot of a list of slots; beyond its end, an empty one.
abbrev pub slot_of : List MsgInfo → ℕ → MsgInfo
slot_of List.[] i = empty_info
slot_of (List.◌∷◌ s ss) zero = s
slot_of (List.◌∷◌ s ss) (suc i) = slot_of ss i

-- The effect of one write, on what is stored.
abbrev pub write_slot : (String → ℕ → MsgInfo) → String → ℕ → Field → String → ℕ → MsgInfo
write_slot view doc_id index f d i =
    if str_eq doc_id d && index == i then set_field f (view d i) else view d i

abbrev pub write_doc : (String → ℕ → MsgInfo) → String → List MsgInfo → String → ℕ → MsgInfo
write_doc view doc_id msgs d i = if str_eq doc_id d then slot_of msgs i else view d i

-- Document ids are unique, and a write without an error is done.
pub record IsCollection (c : Collection) : Type 0 where
  pub no_doc : (s : c.Docs) (d : String) (i : ℕ) → c.has_doc s d ≡ false → c.slot s d i ≡ empty_info
  pub matched :
      (s s' : c.Docs) (d : String) (i : ℕ) (f : Field)
      → c.update_msg s d i f ≡ (s', ok true)
      → (e : String) (j : ℕ) → c.slot s' e j ≡ write_slot (c.slot s) d i f e j
  pub unmatched :
      (s s' : c.Docs) (d : String) (i : ℕ) (f : Field)
      → c.update_msg s d i f ≡ (s', ok false)
      → (s' ≡ s) × (c.has_doc s d ≡ false)
  pub create_new :
      (s s' : c.Docs) (d : String) (msgs : List MsgInfo)
      → c.create s d msgs ≡ (s', created)
      → (c.has_doc s d ≡ false)
        × ((e : String) (j : ℕ) → c.slot s' e j ≡ write_doc (c.slot s) d msgs e j)
  pub create_duplicate :
      (s s' : c.Docs) (d : String) (msgs : List MsgInfo)
      → c.create s d msgs ≡ (s', duplicate_key)
      → (s' ≡ s) × (c.has_doc s d ≡ true)

-- The error is one that the database returned for some write.
abbrev pub Fails : Collection → Error → Type 0
Fails c e =
    ((s : c.Docs) × (s' : c.Docs) × (d : String) × (i : ℕ) × (f : Field) × (c.update_msg s d i f
        ≡ (s', err e)))
    ⊎ ((s : c.Docs) × (s' : c.Docs) × (d : String) × (msgs : List MsgInfo) × (c.create s d msgs
          ≡ (s', failed e)))

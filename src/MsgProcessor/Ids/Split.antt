-- ===== src/MsgProcessor/Ids/Split.antt =====
-- From a chat's conversation id to its notifications', by the text of the id.
use Prim.Native.Char.{Char, code}
use Prim.Native.String.{◌++◌}
use text.Mathlib.TextEquality.{Char-path}
use text.Mathlib.TextLemmas.{nil-append, cons-append, append_assoc}
use root_open_im_server.Base.{
  String, Bool, true, false, not, List, [], ◌∷◌, ◌==◌, ==_iff, ◌&&◌, ◌≡◌, ◌≢◌, refl, sym, ap, ◌∙◌,
  arith, Bool-cases, inl, inr,
}
use root_open_im_server.MsgStore.Doc.{MsgData}
use root_open_im_server.MsgProcessor.Ids.{
  join, split, onto_first, with_notification_prefix, sorted_pair,
  get_notification_conversation_id_by_msg, get_chat_conversation_id_by_msg,
  get_notification_conversation_id_by_conversation_id,
}
use root_open_im_server.MsgProcessor.Ids.Laws.{IsSession}

join-onto_first :
    (c : Char) (ss : List String) → ss ≢ [] → join (onto_first c ss) ≡ String.◌∷◌ c (join ss)
join-onto_first c [] h = absurd (h refl)
join-onto_first c (s ∷ []) h = refl
join-onto_first c (s ∷ t ∷ ts) h = cons-append c s ("_" ++ join (t ∷ ts))

join-cons : (s : String) (ss : List String) → ss ≢ [] → join (s ∷ ss) ≡ s ++ ("_" ++ join ss)
join-cons s [] h = absurd (h refl)
join-cons s (t ∷ ts) h = refl

onto_first-ne-nil : (c : Char) (ss : List String) → ss ≢ [] → onto_first c ss ≢ []
onto_first-ne-nil c [] h = absurd (h refl)
onto_first-ne-nil c (s ∷ ss) h = λ e. cc

split-ne-nil : (s : String) → split s ≢ []
split-ne-nil String.[] = λ e. cc
split-ne-nil (String.◌∷◌ c s) = elim (Bool-cases (code c == b'_')) [
  | inl here ↦ rw here (λ e. cc)
  | inr other ↦ rw other (onto_first-ne-nil c (split s) (split-ne-nil s))
]

-- Joining what a split gives is the text itself.
join-split : (s : String) → join (split s) ≡ s
join-split String.[] = refl
join-split (String.◌∷◌ c s) = elim (Bool-cases (code c == b'_')) [
  | inl here ↦
      let e : c ≡ "_" = Char-path c "_" ((==_iff (code c) b'_').0 here) in
      rw here (
        join-cons "" (split s) (split-ne-nil s)
        ∙ nil-append ("_" ++ join (split s))
        ∙ ap (λ t. "_" ++ t) (join-split s)
        ∙ cons-append "_" "" s
        ∙ ap (String.◌∷◌ "_") (nil-append s)
        ∙ ap (λ d. String.◌∷◌ d s) (sym e))
  | inr other ↦
      rw other (join-onto_first c (split s) (split-ne-nil s) ∙ ap (String.◌∷◌ c) (join-split s))
]

abbrev no_underscore : String → Bool
no_underscore String.[] = true
no_underscore (String.◌∷◌ c s) = not (code c == b'_') && no_underscore s

split-prefix : (t x : String) → no_underscore t ≡ true → split (t ++ ("_" ++ x)) ≡ t ∷ split x
split-prefix String.[] x h = rw (nil-append ("_" ++ x), cons-append "_" "" x, nil-append x)
split-prefix (String.◌∷◌ c t) x h =
    let other : (code c == b'_') ≡ false = ground arith in
    rw (cons-append c t ("_" ++ x), other, split-prefix t x (ground arith))

with_notification_prefix-cons :
    (s : String) (ss : List String) → ss ≢ [] → with_notification_prefix (s ∷ ss) ≡ join ("n" ∷ ss)
with_notification_prefix-cons s [] h = absurd (h refl)
with_notification_prefix-cons s (t ∷ ts) h = refl

-- The rest of an id moves over to the notifications' prefix.
notification_id-prefix :
    (t x : String)
    → no_underscore t ≡ true
    → get_notification_conversation_id_by_conversation_id (t ++ ("_" ++ x)) ≡ "n_" ++ x
unfolding get_notification_conversation_id_by_conversation_id
notification_id-prefix t x h =
    ap with_notification_prefix (split-prefix t x h)
    ∙ with_notification_prefix-cons t (split x) (split-ne-nil x)
    ∙ join-cons "n" (split x) (split-ne-nil x)
    ∙ ap (λ s. "n" ++ ("_" ++ s)) (join-split x)
    ∙ sym (append_assoc "n" "_" x)

-- From the conversation id of a chat, its text alone leads to the id of the chat's notifications.
pub notification_id-chat_id :
    (m : MsgData)
    → IsSession m.session_type
    → get_notification_conversation_id_by_conversation_id (get_chat_conversation_id_by_msg m)
      ≡ get_notification_conversation_id_by_msg m
unfolding get_chat_conversation_id_by_msg get_notification_conversation_id_by_msg
notification_id-chat_id m h =
    let direction = m.send_id ++ ("_" ++ m.recv_id) in
    ground (
      arith,
      notification_id-prefix "si" (sorted_pair m) refl,
      notification_id-prefix "g" m.group_id refl,
      notification_id-prefix "sg" m.group_id refl,
      notification_id-prefix "sn" direction refl,
      append_assoc "si" "_" (sorted_pair m),
      append_assoc "g" "_" m.group_id,
      append_assoc "sg" "_" m.group_id,
      append_assoc "sn" "_" direction,
    )

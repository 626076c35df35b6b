-- ===== src/Stream/Ack/Incoming.antt =====
-- The counter of received stanzas, which is what the manager tells the server.
use qxmpp.Common.{
  ℕ, ◌+◌, ◌%◌, ◌<◌, ◌≡◌, refl, true, false, List, [], ◌∷◌, arith, Text, codes, text_eq, text_eq_iff,
  if◌then◌else◌,
}
use qxmpp.Xml.{Element, tag_name, is_element}
use qxmpp.Stream.Ack.{
  StreamAckManager, uint_mod, ns_stream_management, handle_acknowledgement, send_acknowledgement,
  set_acknowledged, is_stanza_tag, handle_stanza,
}

-- The elements that are messages, presences or IQs.
abbrev pub stanzas : List Element → ℕ
stanzas [] = 0
stanzas (el ∷ els) = (if is_stanza_tag (tag_name el) then 1 else 0) + stanzas els

pub receive : (Text → ℕ) → List Element → StreamAckManager → StreamAckManager
receive to_uint [] s = s
receive to_uint (el ∷ els) s = receive to_uint els (handle_stanza to_uint el s).0

stanza-not_sm :
    (tag : Text) (el : Element)
    → is_stanza_tag tag ≡ false
    → is_element tag ns_stream_management el ≡ true
    → is_stanza_tag (tag_name el) ≡ false
unfolding is_element
stanza-not_sm tag el h e =
    let same : tag_name el ≡ tag = ground (arith, text_eq_iff (tag_name el) tag) in rw same h

sm_tags : (is_stanza_tag (codes "a") ≡ false) × (is_stanza_tag (codes "r") ≡ false)
unfolding is_stanza_tag text_eq
sm_tags = (refl, refl)

last_incoming-handle_stanza :
    (to_uint : Text → ℕ) (el : Element) (s : StreamAckManager)
    → (handle_stanza to_uint el s).0.last_incoming
      ≡ (if is_stanza_tag (tag_name el) then (s.last_incoming + 1) % uint_mod else s.last_incoming)
unfolding handle_stanza handle_acknowledgement send_acknowledgement set_acknowledged
last_incoming-handle_stanza to_uint el s =
    ground (arith, stanza-not_sm (codes "a") el sm_tags.0, stanza-not_sm (codes "r") el sm_tags.1)

-- After any elements the counter is, modulo 2^32, its old value plus the messages, presences and
-- IQs among them, whether or not stream management is enabled; other elements, the acknowledgements and
-- requests of stream management among them, do not count.
pub last_incoming-receive :
    (to_uint : Text → ℕ) (els : List Element) (s : StreamAckManager)
    → s.last_incoming < uint_mod
    → (receive to_uint els s).last_incoming ≡ (s.last_incoming + stanzas els) % uint_mod
unfolding receive
last_incoming-receive to_uint [] s h = omega arith
last_incoming-receive to_uint (el ∷ els) s h =
    let one = last_incoming-handle_stanza to_uint el s in
    let later = last_incoming-receive to_uint els (handle_stanza to_uint el s).0 in
    ground (arith, one, later)

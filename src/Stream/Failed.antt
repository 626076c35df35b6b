-- ===== src/Stream/Failed.antt =====
-- The element SmFailed of base/QXmppStreamManagement.cpp, with the conditions of stanza errors of
-- base/QXmppStanza.h and their texts of base/QXmppStanza_p.h.
mod Tests
use mathlib.Core.Option
use qxmpp.Common.{
  arith, Bool, true, false, ◌≡◌, refl, List, [], ◌∷◌, Option, none, some, Text, codes, text_eq,
  is_empty, if◌then◌else◌,
}
use qxmpp.Xml.{
  Element, Elements, element, nil, cons, tag_name, namespace_uri, is_element, first_child_element,
  first_of_children,
}
use qxmpp.Stream.Ack.{ns_stream_management}

pub data Condition : Type 0 where
  no_condition bad_request conflict feature_not_implemented forbidden gone internal_server_error
        item_not_found jid_malformed not_acceptable not_allowed not_authorized payment_required
        recipient_unavailable redirect registration_required remote_server_not_found
        remote_server_timeout resource_constraint service_unavailable subscription_required
        undefined_condition unexpected_request policy_violation :
      Condition

-- The text of a condition, by which Enums::toString writes it; NoCondition has the empty one.
unfoldable pub condition_text : Condition → Text
condition_text no_condition = []
condition_text bad_request = codes "bad-request"
condition_text conflict = codes "conflict"
condition_text feature_not_implemented = codes "feature-not-implemented"
condition_text forbidden = codes "forbidden"
condition_text gone = codes "gone"
condition_text internal_server_error = codes "internal-server-error"
condition_text item_not_found = codes "item-not-found"
condition_text jid_malformed = codes "jid-malformed"
condition_text not_acceptable = codes "not-acceptable"
condition_text not_allowed = codes "not-allowed"
condition_text not_authorized = codes "not-authorized"
condition_text payment_required = codes "payment-required"
condition_text recipient_unavailable = codes "recipient-unavailable"
condition_text redirect = codes "redirect"
condition_text registration_required = codes "registration-required"
condition_text remote_server_not_found = codes "remote-server-not-found"
condition_text remote_server_timeout = codes "remote-server-timeout"
condition_text resource_constraint = codes "resource-constraint"
condition_text service_unavailable = codes "service-unavailable"
condition_text subscription_required = codes "subscription-required"
condition_text undefined_condition = codes "undefined-condition"
condition_text unexpected_request = codes "unexpected-request"
condition_text policy_violation = codes "policy-violation"

-- The table, in its order.
abbrev pub conditions : List Condition
conditions =
    no_condition ∷ bad_request ∷ conflict ∷ feature_not_implemented ∷ forbidden ∷ gone
    ∷ internal_server_error ∷ item_not_found ∷ jid_malformed ∷ not_acceptable ∷ not_allowed
    ∷ not_authorized ∷ payment_required ∷ recipient_unavailable ∷ redirect ∷ registration_required
    ∷ remote_server_not_found ∷ remote_server_timeout ∷ resource_constraint ∷ service_unavailable
    ∷ subscription_required ∷ undefined_condition ∷ unexpected_request ∷ policy_violation ∷ []

-- Enums::fromString: the first entry with the text.
unfoldable pub find_condition : List Condition → Text → Option Condition
find_condition [] s = none
find_condition (c ∷ cs) s = if text_eq (condition_text c) s then some c else find_condition cs s

unfoldable pub from_string : Text → Option Condition
from_string s = find_condition conditions s

pub record SmFailed : Type 0 where
  pub error : Option Condition

abbrev pub ns_stanza : Text
ns_stanza = codes "urn:ietf:params:xml:ns:xmpp-stanzas"

-- The tag name of a null element is empty.
unfoldable pub tag_name_of : Option Element → Text
tag_name_of none = []
tag_name_of (some el) = tag_name el

unfoldable pub failed_from_dom : Element → Option SmFailed
failed_from_dom el =
    if is_element (codes "failed") ns_stream_management el
    then some (record { error = from_string (tag_name_of (first_child_element el [] ns_stanza)) })
    else none

-- The child for the condition. NoCondition has an empty tag name: what is written then is no element,
-- and no reader of XML takes it.
unfoldable pub error_children : Option Condition → Option Elements
error_children none = some nil
error_children (some c) =
    if is_empty (condition_text c)
    then none
    else some (cons (element (condition_text c) ns_stanza [] nil) nil)

-- What is written, where it is an element.
unfoldable pub failed_to_xml : SmFailed → Option Element
failed_to_xml x =
    Option.map (λ (es : Elements). element (codes "failed") ns_stream_management [] es)
      (error_children x.error)

from_string-condition_text : (c : Condition) → from_string (condition_text c) ≡ some c
unfolding from_string find_condition condition_text text_eq
from_string-condition_text no_condition = refl
from_string-condition_text bad_request = refl
from_string-condition_text conflict = refl
from_string-condition_text feature_not_implemented = refl
from_string-condition_text forbidden = refl
from_string-condition_text gone = refl
from_string-condition_text internal_server_error = refl
from_string-condition_text item_not_found = refl
from_string-condition_text jid_malformed = refl
from_string-condition_text not_acceptable = refl
from_string-condition_text not_allowed = refl
from_string-condition_text not_authorized = refl
from_string-condition_text payment_required = refl
from_string-condition_text recipient_unavailable = refl
from_string-condition_text redirect = refl
from_string-condition_text registration_required = refl
from_string-condition_text remote_server_not_found = refl
from_string-condition_text remote_server_timeout = refl
from_string-condition_text resource_constraint = refl
from_string-condition_text service_unavailable = refl
from_string-condition_text subscription_required = refl
from_string-condition_text undefined_condition = refl
from_string-condition_text unexpected_request = refl
from_string-condition_text policy_violation = refl

abbrev pub condition_or_none : Option Condition → Condition
condition_or_none none = no_condition
condition_or_none (some c) = c

unfoldable pub is_no_condition : Option Condition → Bool
is_no_condition (some no_condition) = true
is_no_condition _ = false

-- A failure is written as an element unless its condition is NoCondition, and the element is read
-- back with the condition; one without a condition is read back as one with NoCondition.
pub failed-round_trip :
    (x : SmFailed)
    → is_no_condition x.error ≡ false
    → (el : Element) × (failed_to_xml x ≡ some el)
      × (failed_from_dom el ≡ some (record { error = some (condition_or_none x.error) }))
unfolding failed_from_dom failed_to_xml error_children tag_name_of first_child_element
    first_of_children tag_name namespace_uri is_element text_eq
failed-round_trip x h = by_error x.error h
  where
    by_error :
        (e : Option Condition)
        → is_no_condition e ≡ false
        → (el : Element) × (failed_to_xml (record { error = e }) ≡ some el)
          × (failed_from_dom el ≡ some (record { error = some (condition_or_none e) }))
    by_error none h = (_, refl, unfold from_string find_condition condition_text text_eq in refl)
    by_error (some c) h =
        let filled : is_empty (condition_text c) ≡ false =
          unfold is_no_condition condition_text in ground arith in
        (
          element (codes "failed") ns_stream_management []
              (cons (element (condition_text c) ns_stanza [] nil) nil),
          rw filled,
          rw (from_string-condition_text c),
        )

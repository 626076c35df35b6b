-- ===== src/Stream/Nonzas.antt =====
-- The elements of stream management, SmEnable to SmRequest of base/QXmppStreamManagement.cpp: their
-- classes, fromDom and toXml. What toXml writes is taken as the element that is read back from it.
-- The conversions of numbers are those of Qt: QString::number, toUInt and toULongLong.
pub mod RoundTrip
mod Tests
use qxmpp.Common.{
  ℕ, ◌<◌, ◌^◌, ◌≡◌, ◌≢◌, Bool, true, false, ◌||◌, List, [], ◌∷◌, ◌++◌, Option, none, some, Text,
  codes, text_eq, is_empty, ltb, if◌then◌else◌,
}
use qxmpp.Xml.{Element, element, nil, attribute, is_element}
use qxmpp.Stream.Ack.{uint_mod, ns_stream_management}

-- What is used of Qt's numbers: a printed number is not empty and is read back, and the empty text
-- reads as 0.
pub record Numbers : Type 0 where
  pub number : ℕ → Text
  pub to_uint : Text → ℕ
  pub to_u_long_long : Text → ℕ
  pub to_uint-number : (n : ℕ) → n < uint_mod → to_uint (number n) ≡ n
  pub to_u_long_long-number : (n : ℕ) → n < 2 ^ 64 → to_u_long_long (number n) ≡ n
  pub to_u_long_long-empty : to_u_long_long [] ≡ 0

pub record SmEnable : Type 0 where
  pub resume : Bool
  pub max : ℕ

pub record SmEnabled : Type 0 where
  pub resume : Bool
  pub id : Text
  pub max : ℕ
  pub location : Text

pub record SmResume : Type 0 where
  pub h : ℕ
  pub previd : Text

pub record SmResumed : Type 0 where
  pub h : ℕ
  pub previd : Text

pub record SmAck : Type 0 where
  pub seq_no : ℕ

pub record SmRequest : Type 0 where

abbrev pub Attributes : Type 0
Attributes = List (Text × Text)

-- OptionalAttribute { name, DefaultedBool { value, false } }.
unfoldable pub bool_attribute : Text → Bool → Attributes
bool_attribute name value = if value then (name, codes "true") ∷ [] else []

-- OptionalAttribute { name, value } for a text.
unfoldable pub text_attribute : Text → Text → Attributes
text_attribute name value = if is_empty value then [] else (name, value) ∷ []

abbrev pub is_true : Text → Bool
is_true s = text_eq s (codes "true") || text_eq s (codes "1")

abbrev sm_element : Text → Attributes → Element
sm_element tag attributes = element tag ns_stream_management attributes nil

module _ (n : Numbers) where
  -- OptionalContent { max > 0, Attribute { "max", max } }.
  unfoldable pub max_attribute : ℕ → Attributes
  max_attribute max = if ltb 0 max then (codes "max", n.number max) ∷ [] else []

  unfoldable pub enable_from_dom : Element → Option SmEnable
  enable_from_dom el =
      if is_element (codes "enable") ns_stream_management el
      then some (record {
        resume = is_true (attribute el (codes "resume"));
        max = n.to_u_long_long (attribute el (codes "max"));
      })
      else none

  unfoldable pub enable_to_xml : SmEnable → Element
  enable_to_xml x =
      sm_element (codes "enable") (bool_attribute (codes "resume") x.resume ++ max_attribute x.max)

  unfoldable pub enabled_from_dom : Element → Option SmEnabled
  enabled_from_dom el =
      if is_element (codes "enabled") ns_stream_management el
      then some (record {
        resume = is_true (attribute el (codes "resume"));
        id = attribute el (codes "id");
        max = n.to_u_long_long (attribute el (codes "max"));
        location = attribute el (codes "location");
      })
      else none

  unfoldable pub enabled_to_xml : SmEnabled → Element
  enabled_to_xml x = sm_element (codes "enabled") (
      bool_attribute (codes "resume") x.resume
      ++ (text_attribute (codes "id") x.id
          ++ (max_attribute x.max ++ text_attribute (codes "location") x.location)))

  unfoldable pub resume_from_dom : Element → Option SmResume
  resume_from_dom el =
      if is_element (codes "resume") ns_stream_management el
      then some (record {
        h = n.to_uint (attribute el (codes "h"));
        previd = attribute el (codes "previd");
      })
      else none

  unfoldable pub resume_to_xml : SmResume → Element
  resume_to_xml x =
      sm_element (codes "resume") ((codes "h", n.number x.h) ∷ (codes "previd", x.previd) ∷ [])

  unfoldable pub resumed_from_dom : Element → Option SmResumed
  resumed_from_dom el =
      if is_element (codes "resumed") ns_stream_management el
      then some (record {
        h = n.to_uint (attribute el (codes "h"));
        previd = attribute el (codes "previd");
      })
      else none

  unfoldable pub resumed_to_xml : SmResumed → Element
  resumed_to_xml x =
      sm_element (codes "resumed") ((codes "h", n.number x.h) ∷ (codes "previd", x.previd) ∷ [])

  unfoldable pub ack_from_dom : Element → Option SmAck
  ack_from_dom el =
      if is_element (codes "a") ns_stream_management el
      then some (record { seq_no = n.to_uint (attribute el (codes "h")) })
      else none

  unfoldable pub ack_to_xml : SmAck → Element
  ack_to_xml x = sm_element (codes "a") ((codes "h", n.number x.seq_no) ∷ [])

unfoldable pub request_from_dom : Element → Option SmRequest
request_from_dom el =
    if is_element (codes "r") ns_stream_management el then some (record {}) else none

unfoldable pub request_to_xml : SmRequest → Element
request_to_xml x = sm_element (codes "r") []

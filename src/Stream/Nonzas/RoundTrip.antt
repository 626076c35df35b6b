-- ===== src/Stream/Nonzas/RoundTrip.antt =====
-- What toXml writes, fromDom reads back.
use mathlib.Core.List.{append-nil}
use qxmpp.Common.{
  sym, ◌∙◌, ◌++◌, text_eq_refl, ℕ, zero, suc, Text, ◌<◌, ◌^◌, ◌≡◌, refl, Bool, true, false, [], ◌∷◌,
  some, arith, codes, text_eq, ltb, ap,
}
use qxmpp.Xml.{attribute, find_attribute, is_element, tag_name, namespace_uri}
use qxmpp.Stream.Ack.{uint_mod, ns_stream_management}
use qxmpp.Stream.Nonzas.{
  Numbers, Attributes, is_true, SmEnable, SmEnabled, SmResume, SmResumed, SmAck, bool_attribute,
  text_attribute, max_attribute, enable_from_dom, enable_to_xml, enabled_from_dom, enabled_to_xml,
  resume_from_dom, resume_to_xml, resumed_from_dom, resumed_to_xml, ack_from_dom, ack_to_xml,
}

module _ (n : Numbers) where
  -- A resumption is read back as it was written, for a counter below 2^32.
  pub resume-round_trip :
      (x : SmResume) → x.h < uint_mod → resume_from_dom n (resume_to_xml n x) ≡ some x
  unfolding resume_from_dom resume_to_xml attribute find_attribute is_element tag_name namespace_uri
      text_eq
  resume-round_trip x fits = rw (n.to_uint-number x.h fits)

  pub resumed-round_trip :
      (x : SmResumed) → x.h < uint_mod → resumed_from_dom n (resumed_to_xml n x) ≡ some x
  unfolding resumed_from_dom resumed_to_xml attribute find_attribute is_element tag_name
      namespace_uri text_eq
  resumed-round_trip x fits = rw (n.to_uint-number x.h fits)

  pub ack-round_trip : (x : SmAck) → x.seq_no < uint_mod → ack_from_dom n (ack_to_xml n x) ≡ some x
  unfolding ack_from_dom ack_to_xml attribute find_attribute is_element tag_name namespace_uri
      text_eq
  ack-round_trip x fits = rw (n.to_uint-number x.seq_no fits)

  -- The optional attributes: each is passed over under another name, and read where it is written
  -- or, left out, by its default.
  bool-skip :
      (k name : Text) (b : Bool) (rest : Attributes)
      → text_eq k name ≡ false
      → find_attribute (bool_attribute k b ++ rest) name ≡ find_attribute rest name
  unfolding bool_attribute find_attribute
  bool-skip k name true rest other = rw other
  bool-skip k name false rest other = refl

  bool-read :
      (k : Text) (b : Bool) (rest : Attributes)
      → find_attribute rest k ≡ []
      → is_true (find_attribute (bool_attribute k b ++ rest) k) ≡ b
  unfolding bool_attribute find_attribute text_eq
  bool-read k true rest absent = rw (text_eq_refl k)
  bool-read k false rest absent = rw absent

  text-skip :
      (k name v : Text) (rest : Attributes)
      → text_eq k name ≡ false
      → find_attribute (text_attribute k v ++ rest) name ≡ find_attribute rest name
  unfolding text_attribute find_attribute
  text-skip k name [] rest other = refl
  text-skip k name (c ∷ v) rest other = rw other

  text-read :
      (k v : Text) (rest : Attributes)
      → find_attribute rest k ≡ []
      → find_attribute (text_attribute k v ++ rest) k ≡ v
  unfolding text_attribute find_attribute
  text-read k [] rest absent = absent
  text-read k (c ∷ v) rest absent = rw (text_eq_refl k)

  max-skip :
      (max : ℕ) (name : Text) (rest : Attributes)
      → text_eq (codes "max") name ≡ false
      → find_attribute (max_attribute n max ++ rest) name ≡ find_attribute rest name
  unfolding max_attribute find_attribute
  max-skip zero name rest other = refl
  max-skip (suc m) name rest other =
      let positive : ltb 0 (suc m) ≡ true = ground arith in rw (positive, other)

  max-read :
      (max : ℕ) (rest : Attributes)
      → max < 2 ^ 64
      → find_attribute rest (codes "max") ≡ []
      → n.to_u_long_long (find_attribute (max_attribute n max ++ rest) (codes "max")) ≡ max
  unfolding max_attribute find_attribute text_eq
  max-read zero rest fits absent = rw absent n.to_u_long_long-empty
  max-read (suc m) rest fits absent =
      let positive : ltb 0 (suc m) ≡ true = ground arith in
      rw positive (n.to_u_long_long-number (suc m) fits)

  last-skip :
      (k name v : Text) → text_eq k name ≡ false → find_attribute (text_attribute k v) name ≡ []
  unfolding find_attribute
  last-skip k name v other =
      ap (λ r. find_attribute r name) (sym (append-nil (text_attribute k v)))
      ∙ text-skip k name v [] other

  last-read : (k v : Text) → find_attribute (text_attribute k v) k ≡ v
  unfolding find_attribute
  last-read k v =
      ap (λ r. find_attribute r k) (sym (append-nil (text_attribute k v))) ∙ text-read k v [] refl

  -- The attributes of the answer, and what is read from them.
  module _ (x : SmEnabled) where
    abbrev after_max : Attributes
    after_max = text_attribute (codes "location") x.location

    abbrev after_id : Attributes
    after_id = max_attribute n x.max ++ after_max

    abbrev after_resume : Attributes
    after_resume = text_attribute (codes "id") x.id ++ after_id

    abbrev all_attributes : Attributes
    all_attributes = bool_attribute (codes "resume") x.resume ++ after_resume

    resume_read : is_true (find_attribute all_attributes (codes "resume")) ≡ x.resume
    unfolding text_eq
    resume_read = bool-read (codes "resume") x.resume after_resume (
        text-skip (codes "id") (codes "resume") x.id after_id refl
        ∙ max-skip x.max (codes "resume") after_max refl
        ∙ last-skip (codes "location") (codes "resume") x.location refl)

    id_read : find_attribute all_attributes (codes "id") ≡ x.id
    unfolding text_eq
    id_read =
        bool-skip (codes "resume") (codes "id") x.resume after_resume refl
        ∙ text-read (codes "id") x.id after_id (
            max-skip x.max (codes "id") after_max refl
            ∙ last-skip (codes "location") (codes "id") x.location refl)

    to_max :
        (name : Text)
        → text_eq (codes "resume") name ≡ false
        → text_eq (codes "id") name ≡ false
        → find_attribute all_attributes name ≡ find_attribute after_id name
    to_max name a b =
        bool-skip (codes "resume") name x.resume after_resume a
        ∙ text-skip (codes "id") name x.id after_id b

    max_is_read :
        x.max < 2 ^ 64 → n.to_u_long_long (find_attribute all_attributes (codes "max")) ≡ x.max
    unfolding text_eq
    max_is_read fits =
        ap n.to_u_long_long (to_max (codes "max") refl refl)
        ∙ max-read x.max after_max fits (last-skip (codes "location") (codes "max") x.location refl)

    location_read : find_attribute all_attributes (codes "location") ≡ x.location
    unfolding text_eq
    location_read =
        to_max (codes "location") refl refl
        ∙ max-skip x.max (codes "location") after_max refl
        ∙ last-read (codes "location") x.location

    -- The answer to a request to enable is read back as it was written, for a duration below 2^64. An
    -- empty ID and an empty location, which are left out, are read as empty.
    pub enabled-round_trip : x.max < 2 ^ 64 → enabled_from_dom n (enabled_to_xml n x) ≡ some x
    unfolding enabled_from_dom enabled_to_xml attribute is_element tag_name namespace_uri
    enabled-round_trip fits = rw (
      text_eq_refl (codes "enabled"),
      text_eq_refl ns_stream_management,
      resume_read,
      id_read,
      max_is_read fits,
      location_read,
    )

  -- A request to enable is read back as it was written, for a duration below 2^64: a duration of 0,
  -- which is left out, is read as 0.
  pub enable-round_trip :
      (x : SmEnable) → x.max < 2 ^ 64 → enable_from_dom n (enable_to_xml n x) ≡ some x
  unfolding enable_from_dom enable_to_xml attribute is_element tag_name namespace_uri text_eq
      find_attribute
  enable-round_trip x fits =
      let last = sym (append-nil (max_attribute n x.max)) in
      let read_resume = bool-read (codes "resume") x.resume (max_attribute n x.max) (
        ap (λ r. find_attribute r (codes "resume")) last
        ∙ max-skip x.max (codes "resume") [] refl) in
      let read_max =
        ap n.to_u_long_long (
          bool-skip (codes "resume") (codes "max") x.resume (max_attribute n x.max) refl
          ∙ ap (λ r. find_attribute r (codes "max")) last)
        ∙ max-read x.max [] fits refl in
      rw (read_resume, read_max)

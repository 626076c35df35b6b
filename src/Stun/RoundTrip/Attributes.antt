-- ===== src/Stun/RoundTrip/Attributes.antt =====
-- The attributes of a message one by one, written and read.
use qxmpp.Common.{
  ℕ, suc, ◌-◌, Bool-cases, ◌+◌, ◌/◌, ◌%◌, ◌*◌, ◌<◌, ◌≡◌, inl, inr, refl, ap, Bool, true, false, [],
  ◌∷◌, ◌++◌, Option, none, some, Text, Bytes, ◌==◌, ltb, length, arith, if◌then◌else◌,
}
use qxmpp.Utils.Hmac.{replicate, length-replicate}
use qxmpp.Stun.Wire.{
  u16, u32, zeros, read8, read16, read_raw, read16-u16, read32-u32, read_raw-append, pad_length,
}
use qxmpp.Stun.Message.{StunMessage}
use qxmpp.Stun.AttributeType
use qxmpp.Stun.Encode.{
  Platform, attribute, padded_attribute, optional, encode_string, encode_error, encode_ice,
}
use qxmpp.Stun.Decode.{decode_error, decode_attribute}
use qxmpp.Stun.RoundTrip.Blocks.{Reads, Reads-nil, Reads-attribute, Reads-padded_attribute}

-- What an optional value must meet to be written in full.
abbrev pub Fits : ℕ → Option ℕ → Type 0
Fits n none = Unit
Fits n (some v) = v < n

abbrev pub IsShort : Option Bytes → Type 0
IsShort none = Unit
IsShort (some v) = length v < 65536

abbrev pub HasLength : ℕ → Option Bytes → Type 0
HasLength n none = Unit
HasLength n (some v) = length v ≡ n

-- A text that its UTF-8 form gives back.
abbrev pub IsText : Platform → Text → Type 0
IsText pf v = (pf.from_utf8 (pf.to_utf8 v) ≡ v) × (length (pf.to_utf8 v) < 65532)

abbrev pub AreText : Platform → Option Text → Type 0
AreText pf none = Unit
AreText pf (some v) = IsText pf v

module _ (pf : Platform) (key buffer : Bytes) (total : ℕ) (acc : StunMessage) where
  whole_raw : (v s : Bytes) → read_raw pf.uninitialised (length v) (v ++ s) ≡ (v, s)
  whole_raw v s = read_raw-append pf.uninitialised v s pf.uninitialised-zero

  whole_zeros : (v s : Bytes) → read_raw zeros (length v) (v ++ s) ≡ (v, s)
  whole_zeros v s = read_raw-append zeros v s (unfold replicate in refl)

  pub Reads-change_request :
      (o : Option ℕ)
      → Fits 4294967296 o
      → Reads pf key buffer total
          (optional (λ v. attribute AttributeType.change_request (u32 v)) o)
          (record acc { change_request = none })
          (record acc { change_request = o })
  unfolding decode_attribute
  Reads-change_request none h = Reads-nil pf key buffer total _
  Reads-change_request (some v) h =
      Reads-attribute pf key buffer total AttributeType.change_request (u32 v) _ _ (omega arith)
        refl refl (omega arith) (λ s. rw (read32-u32 v s h)) refl

  pub Reads-priority :
      (o : Option ℕ)
      → Fits 4294967296 o
      → Reads pf key buffer total
          (optional (λ v. attribute AttributeType.priority (u32 v)) o)
          (record acc { priority = none })
          (record acc { priority = o })
  unfolding decode_attribute
  Reads-priority none h = Reads-nil pf key buffer total _
  Reads-priority (some v) h =
      Reads-attribute pf key buffer total AttributeType.priority (u32 v) _ _ (omega arith) refl refl
        (omega arith) (λ s. rw (read32-u32 v s h)) refl

  pub Reads-lifetime :
      (o : Option ℕ)
      → Fits 4294967296 o
      → Reads pf key buffer total
          (optional (λ v. attribute AttributeType.lifetime (u32 v)) o)
          (record acc { lifetime = none })
          (record acc { lifetime = o })
  unfolding decode_attribute
  Reads-lifetime none h = Reads-nil pf key buffer total _
  Reads-lifetime (some v) h =
      Reads-attribute pf key buffer total AttributeType.lifetime (u32 v) _ _ (omega arith) refl refl
        (omega arith) (λ s. rw (read32-u32 v s h)) refl

  pub Reads-channel_number :
      (o : Option ℕ)
      → Fits 65536 o
      → Reads pf key buffer total
          (optional (λ v. attribute AttributeType.channel_number (u16 v ++ u16 0)) o)
          (record acc { channel_number = none })
          (record acc { channel_number = o })
  unfolding decode_attribute
  Reads-channel_number none h = Reads-nil pf key buffer total _
  Reads-channel_number (some v) h =
      Reads-attribute pf key buffer total AttributeType.channel_number (u16 v ++ u16 0) _ _
        (omega arith) refl refl (omega arith) (λ s. rw (read16-u16 v (u16 0 ++ s) h)) refl

  pub Reads-requested_transport :
      (o : Option ℕ)
      → Fits 256 o
      → Reads pf key buffer total
          (optional (λ v. attribute AttributeType.requested_transport (v ∷ zeros 3)) o)
          (record acc { requested_transport = none })
          (record acc { requested_transport = o })
  unfolding decode_attribute read8 replicate
  Reads-requested_transport none h = Reads-nil pf key buffer total _
  Reads-requested_transport (some v) h =
      Reads-attribute pf key buffer total AttributeType.requested_transport (v ∷ zeros 3) _ _
        (omega arith) refl refl (omega (arith, length-replicate 3 0)) (λ s. refl) refl

  pub Reads-data_bytes :
      (o : Option Bytes)
      → IsShort o
      → Reads pf key buffer total
          (optional (padded_attribute AttributeType.data_attr) o)
          (record acc { data_bytes = none })
          (record acc { data_bytes = o })
  unfolding decode_attribute
  Reads-data_bytes none h = Reads-nil pf key buffer total _
  Reads-data_bytes (some v) h =
      Reads-padded_attribute pf key buffer total AttributeType.data_attr v _ _ (omega arith) refl
        refl h (λ s. rw (whole_raw v s))

  pub Reads-nonce :
      (o : Option Bytes)
      → IsShort o
      → Reads pf key buffer total
          (optional (padded_attribute AttributeType.nonce) o)
          (record acc { nonce = none })
          (record acc { nonce = o })
  unfolding decode_attribute
  Reads-nonce none h = Reads-nil pf key buffer total _
  Reads-nonce (some v) h =
      Reads-padded_attribute pf key buffer total AttributeType.nonce v _ _ (omega arith) refl refl h
        (λ s. rw (whole_raw v s))

  pub Reads-realm :
      (o : Option Text)
      → AreText pf o
      → Reads pf key buffer total
          (optional (encode_string pf AttributeType.realm) o)
          (record acc { realm = none })
          (record acc { realm = o })
  unfolding decode_attribute encode_string
  Reads-realm none h = Reads-nil pf key buffer total _
  Reads-realm (some v) h =
      Reads-padded_attribute pf key buffer total AttributeType.realm (pf.to_utf8 v) _ _
        (omega arith) refl refl (omega arith) (λ s. rw (whole_zeros (pf.to_utf8 v) s, h.0))

  pub Reads-software :
      (o : Option Text)
      → AreText pf o
      → Reads pf key buffer total
          (optional (encode_string pf AttributeType.software) o)
          (record acc { software = none })
          (record acc { software = o })
  unfolding decode_attribute encode_string
  Reads-software none h = Reads-nil pf key buffer total _
  Reads-software (some v) h =
      Reads-padded_attribute pf key buffer total AttributeType.software (pf.to_utf8 v) _ _
        (omega arith) refl refl (omega arith) (λ s. rw (whole_zeros (pf.to_utf8 v) s, h.0))

  pub Reads-username :
      (o : Option Text)
      → AreText pf o
      → Reads pf key buffer total
          (optional (encode_string pf AttributeType.username) o)
          (record acc { username = none })
          (record acc { username = o })
  unfolding decode_attribute encode_string
  Reads-username none h = Reads-nil pf key buffer total _
  Reads-username (some v) h =
      Reads-padded_attribute pf key buffer total AttributeType.username (pf.to_utf8 v) _ _
        (omega arith) refl refl (omega arith) (λ s. rw (whole_zeros (pf.to_utf8 v) s, h.0))

  pub Reads-reservation_token :
      (o : Option Bytes)
      → HasLength 8 o
      → Reads pf key buffer total
          (optional (attribute AttributeType.reservation_token) o)
          (record acc { reservation_token = none })
          (record acc { reservation_token = o })
  unfolding decode_attribute
  Reads-reservation_token none h = Reads-nil pf key buffer total _
  Reads-reservation_token (some v) h =
      Reads-attribute pf key buffer total AttributeType.reservation_token v _ _ (omega arith) refl
        refl (omega arith)
        (λ s. let eight : (length v == 8) ≡ true = ground arith in rw (eight, whole_raw v s))
        (ap pad_length h)

  pub Reads-use_candidate :
      (b : Bool)
      → Reads pf key buffer total
          (if b then attribute AttributeType.use_candidate [] else [])
          (record acc { use_candidate = false })
          (record acc { use_candidate = b })
  unfolding decode_attribute
  Reads-use_candidate false = Reads-nil pf key buffer total _
  Reads-use_candidate true =
      Reads-attribute pf key buffer total AttributeType.use_candidate [] _ _ (omega arith) refl refl
        (omega arith) (λ s. refl) refl

  -- The error code by its hundreds and the rest; no code, no phrase.
  pub Reads-encode_error :
      (m : StunMessage)
      → m.error_code < 25600
      → IsText pf m.error_phrase
      → (m.error_code ≡ 0 → m.error_phrase ≡ [])
      → Reads pf key buffer total
          (encode_error pf m)
          (record acc { error_code = 0; error_phrase = [] })
          (record acc { error_code = m.error_code; error_phrase = m.error_phrase })
  unfolding decode_attribute encode_error decode_error read16 read8
  Reads-encode_error m small text silent = elim (Bool-cases (m.error_code == 0)) [
    | inl e ↦
        let zero_code : m.error_code ≡ 0 = ground arith in
        rw (e, zero_code, silent zero_code) (Reads-nil pf key buffer total _)
    | inr e ↦
        let phrase = pf.to_utf8 m.error_phrase in
        let code : m.error_code / 100 % 256 * 100 + m.error_code % 100 ≡ m.error_code =
          omega arith in
        let rest : suc (suc (suc (suc (length phrase)))) - 4 ≡ length phrase = omega arith in
        let enough : ltb (suc (suc (suc (suc (length phrase))))) 4 ≡ false = ground arith in
        rw e (
          Reads-padded_attribute pf key buffer total AttributeType.error_code
            (0 ∷ 0 ∷ m.error_code / 100 % 256 ∷ m.error_code % 100 ∷ phrase) _ _ (omega arith) refl
            refl (omega arith) (λ s. rw (enough, rest, whole_zeros phrase s, code, text.0)))
  ]

-- One of the two roles of ICE, or none, with its tie-breaker of eight bytes.
abbrev pub IsRole : Bytes → Bytes → Type 0
IsRole [] [] = Unit
IsRole [] (b ∷ bs) = length (b ∷ bs) ≡ 8
IsRole (a ∷ more) [] = length (a ∷ more) ≡ 8
IsRole (a ∷ more) (b ∷ bs) = ⊥

module _ (pf : Platform) (key buffer : Bytes) (total : ℕ) (acc m : StunMessage) where
  -- The role is read back.
  pub Reads-encode_ice :
      (c d : Bytes)
      → IsRole c d
      → Reads pf key buffer total
          (encode_ice (record m { ice_controlling = c; ice_controlled = d }))
          (record acc { ice_controlling = []; ice_controlled = [] })
          (record acc { ice_controlling = c; ice_controlled = d })
  unfolding encode_ice decode_attribute
  Reads-encode_ice [] [] h = Reads-nil pf key buffer total _
  Reads-encode_ice [] (b ∷ bs) h =
      Reads-attribute pf key buffer total AttributeType.ice_controlled (b ∷ bs) _ _ (omega arith)
        refl refl (omega arith)
        (λ s.
          let eight : (suc (length bs) == 8) ≡ true = ground arith in
          rw (eight, whole_raw pf key buffer total acc (b ∷ bs) s))
        (ap pad_length h)
  Reads-encode_ice (a ∷ more) [] h =
      Reads-attribute pf key buffer total AttributeType.ice_controlling (a ∷ more) _ _ (omega arith)
        refl refl (omega arith)
        (λ s.
          let eight : (suc (length more) == 8) ≡ true = ground arith in
          rw (eight, whole_raw pf key buffer total acc (a ∷ more) s))
        (ap pad_length h)
  Reads-encode_ice (a ∷ more) (b ∷ bs) h = elim h [ ]

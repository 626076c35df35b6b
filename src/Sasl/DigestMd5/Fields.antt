-- ===== src/Sasl/DigestMd5/Fields.antt =====
-- The maps of the dialog, and what is looked up in them.
use qxmpp.Common.{◌≡◌, refl, true, [], ◌∷◌, Bytes, codes, text_eq, All, arith}
use qxmpp.Sasl.Message.{QMap, insert, value_or, contains_key, bytes_less, trimmed, contains_byte}
use qxmpp.Sasl.DigestMd5.{insert_filled}
use qxmpp.Sasl.DigestMd5.Sorted.{NoBackslash, are_keys}

unfoldable pub challenge_fields : Bytes → Bytes → QMap
unfolding insert_filled insert
challenge_fields nonce realm = insert (codes "algorithm") (codes "md5-sess") (
    insert (codes "charset") (codes "utf-8") (
      insert (codes "qop") (codes "auth")
        (insert_filled (codes "realm") realm (insert (codes "nonce") nonce []))))

unfoldable pub response_fields : Bytes → Bytes → Bytes → Bytes → Bytes → Bytes → Bytes → QMap
unfolding insert_filled insert
response_fields username realm nonce cnonce nc uri response =
    insert (codes "charset") (codes "utf-8") (
      insert (codes "response") response (
        insert (codes "digest-uri") uri (
          insert (codes "nc") nc (
            insert (codes "cnonce") cnonce (
              insert (codes "qop") (codes "auth") (
                insert (codes "nonce") nonce (
                  insert_filled (codes "realm") realm (insert (codes "username") username []))))))))

pub challenge_fields_keys : (nonce realm : Bytes) → are_keys (challenge_fields nonce realm) ≡ true
unfolding challenge_fields are_keys insert_filled insert text_eq bytes_less trimmed contains_byte
challenge_fields_keys nonce [] = refl
challenge_fields_keys nonce (c ∷ realm) = refl

pub response_fields_keys :
    (username realm nonce cnonce nc uri response : Bytes)
    → are_keys (response_fields username realm nonce cnonce nc uri response) ≡ true
unfolding response_fields are_keys insert_filled insert text_eq bytes_less trimmed contains_byte
response_fields_keys username [] nonce cnonce nc uri response = refl
response_fields_keys username (c ∷ realm) nonce cnonce nc uri response = refl

pub challenge_fields_values :
    (nonce realm : Bytes)
    → NoBackslash nonce
    → NoBackslash realm
    → All (λ (e : Bytes × Bytes). NoBackslash e.1) (challenge_fields nonce realm)
unfolding challenge_fields insert_filled insert text_eq bytes_less
challenge_fields_values nonce [] n r = (omega arith, (omega arith, (n, (omega arith, tt))))
challenge_fields_values nonce (c ∷ realm) n r =
    (omega arith, (omega arith, (n, (omega arith, (r, tt)))))

pub response_fields_values :
    (username realm nonce cnonce nc uri response : Bytes)
    → NoBackslash username
    → NoBackslash realm
    → NoBackslash nonce
    → NoBackslash cnonce
    → NoBackslash nc
    → NoBackslash uri
    → NoBackslash response
    → All
        (λ (e : Bytes × Bytes). NoBackslash e.1)
        (response_fields username realm nonce cnonce nc uri response)
unfolding response_fields insert_filled insert text_eq bytes_less
response_fields_values username [] nonce cnonce nc uri response u r n cn k d a =
    (omega arith, (cn, (d, (k, (n, (omega arith, (a, (u, tt))))))))
response_fields_values username (c ∷ realm) nonce cnonce nc uri response u r n cn k d a =
    (omega arith, (cn, (d, (k, (n, (omega arith, (r, (a, (u, tt)))))))))

-- What the client looks up.
pub record IsChallenge (nonce realm : Bytes) (m : QMap) : Type 0 where
  pub has_nonce : contains_key (codes "nonce") m ≡ true
  pub its_nonce : value_or [] (codes "nonce") m ≡ nonce
  pub its_realm : value_or [] (codes "realm") m ≡ realm
  pub its_qop : value_or (codes "auth") (codes "qop") m ≡ codes "auth"

pub challenge_fields-IsChallenge :
    (nonce realm : Bytes) → IsChallenge nonce realm (challenge_fields nonce realm)
unfolding challenge_fields insert_filled insert text_eq bytes_less value_or contains_key
challenge_fields-IsChallenge nonce [] = record {
  has_nonce = refl;
  its_nonce = refl;
  its_realm = refl;
  its_qop = refl;
}
challenge_fields-IsChallenge nonce (c ∷ realm) = record {
  has_nonce = refl;
  its_nonce = refl;
  its_realm = refl;
  its_qop = refl;
}

-- What the server looks up.
pub record IsResponse (username realm cnonce nc uri response : Bytes) (m : QMap) : Type 0 where
  pub qop : value_or [] (codes "qop") m ≡ codes "auth"
  pub its_username : value_or [] (codes "username") m ≡ username
  pub its_realm : value_or [] (codes "realm") m ≡ realm
  pub its_cnonce : value_or [] (codes "cnonce") m ≡ cnonce
  pub its_nc : value_or [] (codes "nc") m ≡ nc
  pub its_uri : value_or [] (codes "digest-uri") m ≡ uri
  pub its_response : value_or [] (codes "response") m ≡ response

pub response_fields-IsResponse :
    (username realm nonce cnonce nc uri response : Bytes)
    → IsResponse username realm cnonce nc uri response
        (response_fields username realm nonce cnonce nc uri response)
unfolding response_fields insert_filled insert text_eq bytes_less value_or
response_fields-IsResponse username [] nonce cnonce nc uri response = record {
  qop = refl;
  its_username = refl;
  its_realm = refl;
  its_cnonce = refl;
  its_nc = refl;
  its_uri = refl;
  its_response = refl;
}
response_fields-IsResponse username (c ∷ realm) nonce cnonce nc uri response = record {
  qop = refl;
  its_username = refl;
  its_realm = refl;
  its_cnonce = refl;
  its_nc = refl;
  its_uri = refl;
  its_response = refl;
}

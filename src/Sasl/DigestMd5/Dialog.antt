-- ===== src/Sasl/DigestMd5/Dialog.antt =====
-- The client and the server of DIGEST-MD5 with one another: what one sends, the other answers.
use qxmpp.Common.{
  ℕ, zero, suc, ◌≡◌, ◌≢◌, refl, ap, ◌∙◌, false, ◌&&◌, [], Option, none, some, Bytes, codes, arith,
  text_eq, text_eq_iff, is_empty,
}
use qxmpp.Sasl.Message.{insert, serialize_message}
use qxmpp.Sasl.DigestMd5.Sorted.{NoBackslash}
use qxmpp.Sasl.DigestMd5.Steps.{
  client_begins, server_begins, ready, answer_fields, client_answers, informed, server_reads,
  client_checks, server_ends, IsCarried,
}
use qxmpp.Sasl.DigestMd5.{
  Primitives, ClientDigestMd5, ServerDigestMd5, Response, challenge, succeeded, failed,
  input_needed, calculate_secret, client_digest, client_respond, server_respond,
}
use qxmpp.Sasl.DigestMd5.Verdict.{
  server_secret, expected_response, verdict_rejects, verdict_accepts,
}

pub data Ending : Type 0 where
  accepted rejected abandoned asked unfinished : Ending

unfoldable pub answered :
    (ClientDigestMd5 → Bytes → Ending) → Option Bytes × ClientDigestMd5 → Ending
answered next (none, c) = abandoned
answered next (some answer, c) = next c answer

unfoldable pub replied :
    (ServerDigestMd5 → Bytes → Ending) → Response × Option Bytes × ServerDigestMd5 → Ending
replied next (challenge, none, s) = unfinished
replied next (challenge, some sent, s) = next s sent
replied next (succeeded, sent, s) = accepted
replied next (failed, sent, s) = rejected
replied next (input_needed, sent, s) = asked

text_ne : {a b : Bytes} → a ≢ b → text_eq a b ≡ false
text_ne {a} {b} h = ground (arith, text_eq_iff a b)

module _ (q : Primitives) where
  -- The server gets a request, its challenge goes to the client, and the answer is the next request.
  unfoldable pub converse : ℕ → ClientDigestMd5 → ServerDigestMd5 → Bytes → Ending
  unfolding answered replied
  converse zero c s request = unfinished
  converse (suc rounds) c s request =
      replied
        (λ s' sent. answered (λ c' answer. converse rounds c' s' answer) (client_respond q c sent))
        (server_respond q s request)

  -- The client's initial answer begins it.
  unfoldable pub dialog : ClientDigestMd5 → ServerDigestMd5 → Ending
  unfolding converse
  dialog c s = answered (λ c' answer. converse 3 c' s answer) (client_respond q c [])

  converse-challenge :
      (rounds : ℕ) (c c' : ClientDigestMd5) (s s' : ServerDigestMd5) (request sent answer : Bytes)
      → server_respond q s request ≡ (challenge, some sent, s')
      → client_respond q c sent ≡ (some answer, c')
      → converse (suc rounds) c s request ≡ converse rounds c' s' answer
  unfolding converse
  converse-challenge rounds c c' s s' request sent answer e f =
      rw (converse, e) (unfold replied in rw (f, answered))

  converse-failed :
      (rounds : ℕ) (c : ClientDigestMd5) (s s' : ServerDigestMd5) (request : Bytes)
      → server_respond q s request ≡ (failed, none, s')
      → converse (suc rounds) c s request ≡ rejected
  unfolding converse
  converse-failed rounds c s s' request e = rw (converse, e) (unfold replied in refl)

  converse-succeeded :
      (rounds : ℕ) (c : ClientDigestMd5) (s s' : ServerDigestMd5) (request sent : Bytes)
      → server_respond q s request ≡ (succeeded, some sent, s')
      → converse (suc rounds) c s request ≡ accepted
  unfolding converse
  converse-succeeded rounds c s s' request sent e = rw (converse, e) (unfold replied in refl)

  -- The server has a password or its hash.
  abbrev HasSecret : ServerDigestMd5 → Type 0
  HasSecret s = (is_empty s.password && is_empty s.password_digest) ≡ false

  dialog_begins :
      (c : ClientDigestMd5) (s : ServerDigestMd5)
      → IsCarried q s.nonce (q.to_utf8 s.realm) c
      → dialog (record c { step = 0 }) (record s { step = 0 })
        ≡ converse 2
            (ready q s.nonce (q.to_utf8 s.realm) c)
            (record s { step = 1 })
            (serialize_message (answer_fields q s.nonce (q.to_utf8 s.realm) c))
  unfolding answered converse dialog client_respond
  dialog_begins c s h =
      ap (answered (λ c' answer. converse 3 c' (record s { step = 0 }) answer))
        (client_begins q c [])
      ∙ converse-challenge 2 (record c { step = 1 }) (ready q s.nonce (q.to_utf8 s.realm) c)
          (record s { step = 0 }) (record s { step = 1 }) [] _ _ (server_begins q s [])
          (client_answers q c s.nonce (q.to_utf8 s.realm) h.nonce_fits h.realm_fits)

  digest_fits :
      (method : Bytes) (c : ClientDigestMd5)
      → ((b : Bytes) → NoBackslash (q.to_hex b))
      → NoBackslash (client_digest q method c)
  unfolding client_digest
  digest_fits method c hex = hex _

  ready_checks :
      (nonce realm : Bytes) (c : ClientDigestMd5)
      → ((b : Bytes) → NoBackslash (q.to_hex b))
      → client_respond q (ready q nonce realm c) (
          serialize_message
            (insert (codes "rspauth") (client_digest q [] (ready q nonce realm c)) []))
        ≡ (some [], record (ready q nonce realm c) { step = 3 })
  unfolding ready
  ready_checks nonce realm c hex =
      client_checks q (ready q nonce realm c) (digest_fits [] (ready q nonce realm c) hex)

  dialog_accepts :
      (c : ClientDigestMd5) (s : ServerDigestMd5)
      → IsCarried q s.nonce (q.to_utf8 s.realm) c
      → HasSecret s
      → calculate_secret q c.username (q.to_utf8 s.realm) c.password
        ≡ server_secret q (q.to_utf8 s.realm) c s
      → converse 2
          (ready q s.nonce (q.to_utf8 s.realm) c)
          (record s { step = 1 })
          (serialize_message (answer_fields q s.nonce (q.to_utf8 s.realm) c))
        ≡ accepted
  dialog_accepts c s h known same =
      let realm = q.to_utf8 s.realm in
      converse-challenge 1 (ready q s.nonce realm c) (record (ready q s.nonce realm c) { step = 3 })
        (record s { step = 1 }) (record (informed q c.username realm c s) { step = 2 }) _ _ _
        (server_reads q s.nonce realm c s h known ∙ verdict_accepts q realm c s same)
        (ready_checks s.nonce realm c h.hex_fits)
      ∙ converse-succeeded 0 _ _ _ _ _ (server_ends q (informed q c.username realm c s) [])

  dialog_rejects :
      (c : ClientDigestMd5) (s : ServerDigestMd5)
      → IsCarried q s.nonce (q.to_utf8 s.realm) c
      → HasSecret s
      → client_digest q (codes "AUTHENTICATE") (ready q s.nonce (q.to_utf8 s.realm) c)
        ≢ expected_response q (q.to_utf8 s.realm) c s
      → converse 2
          (ready q s.nonce (q.to_utf8 s.realm) c)
          (record s { step = 1 })
          (serialize_message (answer_fields q s.nonce (q.to_utf8 s.realm) c))
        ≡ rejected
  dialog_rejects c s h known differ =
      let realm = q.to_utf8 s.realm in
      converse-failed 1 _ _ _ _
        (server_reads q s.nonce realm c s h known ∙ verdict_rejects q realm _ c s (text_ne differ))

  -- The whole dialog of a client and a server that are new, in an account with that user name and
  -- realm: with the same secret on both sides the client checks the server's proof and the server
  -- accepts; where the digest that the server expects is another, the server refuses.
  pub dialog-outcome :
      (c : ClientDigestMd5) (s : ServerDigestMd5)
      → IsCarried q s.nonce (q.to_utf8 s.realm) c
      → HasSecret s
      → (calculate_secret q c.username (q.to_utf8 s.realm) c.password
            ≡ server_secret q (q.to_utf8 s.realm) c s
          → dialog (record c { step = 0 }) (record s { step = 0 }) ≡ accepted)
        × (client_digest q (codes "AUTHENTICATE") (ready q s.nonce (q.to_utf8 s.realm) c)
              ≢ expected_response q (q.to_utf8 s.realm) c s
            → dialog (record c { step = 0 }) (record s { step = 0 }) ≡ rejected)
  dialog-outcome c s h known = (
    λ same. dialog_begins c s h ∙ dialog_accepts c s h known same,
    λ differ. dialog_begins c s h ∙ dialog_rejects c s h known differ,
  )

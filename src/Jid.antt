-- ===== src/Jid.antt =====
-- The functions on JIDs of base/QXmppUtils.cpp.
use qxmpp.Common.{
  ℕ, suc, ◌+◌, [], ◌∷◌, ◌++◌, Option, none, some, Text, ◌==◌, if◌then◌else◌, take, drop,
}

-- QString::indexOf, with `none` for -1.
unfoldable pub index_of : ℕ → Text → Option ℕ
index_of c [] = none
index_of c (a ∷ s) =
    if a == c then some 0 else elim (index_of c s) [ none ↦ none | some i ↦ some (suc i) ]

unfoldable pub jid_to_resource : Text → Text
jid_to_resource jid = elim (index_of b'/' jid) [ none ↦ [] | some pos ↦ drop (pos + 1) jid ]

unfoldable pub jid_to_user : Text → Text
jid_to_user jid = elim (index_of b'@' jid) [ none ↦ [] | some pos ↦ take pos jid ]

unfoldable pub jid_to_bare_jid : Text → Text
jid_to_bare_jid jid = elim (index_of b'/' jid) [ none ↦ jid | some pos ↦ take pos jid ]

-- `split(sep).last()`: what stands behind the last separator, with the piece read so far.
unfoldable pub last_piece : ℕ → Text → Text → Text
last_piece sep [] piece = piece
last_piece sep (a ∷ s) piece = last_piece sep s (if a == sep then [] else piece ++ a ∷ [])

unfoldable pub jid_to_domain : Text → Text
jid_to_domain jid = last_piece b'@' (jid_to_bare_jid jid) []

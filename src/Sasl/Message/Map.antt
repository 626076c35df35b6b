-- ===== src/Sasl/Message/Map.antt =====
-- Sorted maps: an entry with a greater key goes to the end.
use qxmpp.Common.{
  ◌≡◌, refl, ap, sym, ◌∙◌, true, false, [], ◌∷◌, ◌++◌, Bytes, text_eq, All, All-append, arith,
}
use mathlib.Core.List.{append-nil, append_assoc}
use qxmpp.Sasl.Message.{QMap, bytes_less, insert}

bytes_less_asym :
    (s t : Bytes) → bytes_less s t ≡ true → (text_eq t s ≡ false) × (bytes_less t s ≡ false)
unfolding bytes_less text_eq
bytes_less_asym s [] h = absurd (cc)
bytes_less_asym [] (b ∷ t) h = (refl, refl)
bytes_less_asym (a ∷ s) (b ∷ t) h = ground (arith, bytes_less_asym s t)

-- Every key of the map is less.
abbrev pub Below : QMap → Bytes → Type 0
Below m key = All (λ (e : Bytes × Bytes). bytes_less e.0 key ≡ true) m

abbrev pub IsSorted : QMap → Type 0
IsSorted [] = Unit
IsSorted ((k, v) ∷ m) = All (λ (e : Bytes × Bytes). bytes_less k e.0 ≡ true) m × IsSorted m

pub insert-Below : (k v : Bytes) (m : QMap) → Below m k → insert k v m ≡ m ++ ((k, v) ∷ [])
unfolding insert
insert-Below k v [] h = refl
insert-Below k v ((j, w) ∷ m) (first, more) =
    let (differs, after) = bytes_less_asym j k first in
    rw (differs, after) (ap (λ (r : QMap). (j, w) ∷ r) (insert-Below k v m more))

-- The entries of a map put into another, one by one.
unfoldable pub insert_all : QMap → QMap → QMap
unfolding insert
insert_all [] m = m
insert_all ((k, v) ∷ more) m = insert_all more (insert k v m)

extended :
    (k v : Bytes) (m more : QMap)
    → All (λ (e : Bytes × Bytes). Below m e.0) more
    → All (λ (e : Bytes × Bytes). bytes_less k e.0 ≡ true) more
    → All (λ (e : Bytes × Bytes). Below (m ++ ((k, v) ∷ [])) e.0) more
extended k v m [] h first = tt
extended k v m ((j, w) ∷ more) (below, h) (less, first) = (
  All-append (λ (e : Bytes × Bytes). bytes_less e.0 j ≡ true) m ((k, v) ∷ []) below (less, tt),
  extended k v m more h first,
)

pub insert_all-IsSorted :
    (more m : QMap)
    → IsSorted more
    → All (λ (e : Bytes × Bytes). Below m e.0) more
    → insert_all more m ≡ m ++ more
unfolding insert_all
insert_all-IsSorted [] m s h = sym (append-nil m)
insert_all-IsSorted ((k, v) ∷ more) m (first, later) (below, h) = rw (insert-Below k v m below) (
    insert_all-IsSorted more (m ++ ((k, v) ∷ [])) later (extended k v m more h first)
    ∙ append_assoc m ((k, v) ∷ []) more)

Below-nil : (more : QMap) → All (λ (e : Bytes × Bytes). Below [] e.0) more
Below-nil [] = tt
Below-nil (e ∷ more) = (tt, Below-nil more)

-- A sorted map put into the empty one.
pub insert_all-nil : (m : QMap) → IsSorted m → insert_all m [] ≡ m
insert_all-nil m s = insert_all-IsSorted m [] s (Below-nil m)

-- ===== src/Sasl/Choose/Best.antt =====
-- The mechanism that is chosen, against all that the server offers.
use mathlib.Core.List.{Memᴰ}
use mathlib.Core.List.Memᴰ.{not-nil}
use qxmpp.Common.{
  ◌≡◌, inl, inr, refl, true, false, List, [], ◌∷◌, Option, none, some, Text, arith, Option-cases,
  text_eq,
}
use qxmpp.Sasl.Mechanism.{SaslMechanism, less, from_string, starts_with}
use qxmpp.Sasl.Mechanism.Order.{less-rank}
use qxmpp.Sasl.Choose.{
  SaslSettings, usable, push_usable, mechanisms, max_from, preferred, choose_among,
  choose_mechanism, contains_mechanism,
}
use qxmpp.Sasl.Choose.Greatest.{
  max_from-greatest, max_from-Memᴰ, contains_mechanism-Memᴰ, mem_contains_mechanism,
}

-- A name that the server offers, that is not disabled, and that the credentials serve.
pub record IsOffered (c : SaslSettings) (offered : List Text) (m : SaslMechanism) : Type 0 where
  pub name : Text
  pub sent : Memᴰ name offered
  pub useful : usable c name ≡ some m

earlier :
    (c : SaslSettings) (s : Text) (rest : List Text) (m : SaslMechanism)
    → IsOffered c rest m
    → IsOffered c (s ∷ rest) m
earlier c s rest m o = record { name = o.name; sent = Memᴰ.tail o.sent; useful = o.useful }

pushed :
    (c : SaslSettings) (s : Text) (rest : List Text) (o : Option SaslMechanism) (m : SaslMechanism)
    → usable c s ≡ o
    → (Memᴰ m (mechanisms c rest) → IsOffered c rest m)
    → Memᴰ m (push_usable o (mechanisms c rest))
    → IsOffered c (s ∷ rest) m
unfolding push_usable
pushed c s rest none m e later i = earlier c s rest m (later i)
pushed c s rest (some a) m e later (Memᴰ.head p) = record {
  name = s;
  sent = Memᴰ.head refl;
  useful = rw (e, p);
}
pushed c s rest (some a) m e later (Memᴰ.tail i) = earlier c s rest m (later i)

mechanisms-IsOffered :
    (c : SaslSettings) (offered : List Text) (m : SaslMechanism)
    → Memᴰ m (mechanisms c offered)
    → IsOffered c offered m
unfolding mechanisms
mechanisms-IsOffered c [] m i = elim i [ ]
mechanisms-IsOffered c (s ∷ rest) m i =
    pushed c s rest (usable c s) m refl (mechanisms-IsOffered c rest m) i

mem_pushed :
    (o : Option SaslMechanism) (rest : List SaslMechanism) (m : SaslMechanism)
    → Memᴰ m rest
    → Memᴰ m (push_usable o rest)
unfolding push_usable
mem_pushed none rest m i = i
mem_pushed (some a) rest m i = Memᴰ.tail i

-- All that can be used is looked at.
mem_mechanisms :
    (c : SaslSettings) (offered : List Text) (m : SaslMechanism) (s : Text)
    → Memᴰ s offered
    → usable c s ≡ some m
    → Memᴰ m (mechanisms c offered)
unfolding mechanisms
mem_mechanisms c [] m s i e = elim i [ ]
mem_mechanisms c (t ∷ rest) m s (Memᴰ.head p) e =
    let found : usable c t ≡ some m = rw (← p) e in rw found (unfold push_usable in Memᴰ.head refl)
mem_mechanisms c (t ∷ rest) m s (Memᴰ.tail i) e =
    mem_pushed (usable c t) _ m (mem_mechanisms c rest m s i e)

-- Nothing is chosen if nothing can be used. Else it is the configured mechanism, or, if that one
-- cannot be used, the greatest.
pub data Choice (c : SaslSettings) (offered : List Text) : Option SaslMechanism → Type 0 where
  nothing : ((m : SaslMechanism) → ¬ IsOffered c offered m) → Choice c offered none
  configured :
      {m : SaslMechanism}
      → from_string c.sasl_auth_mechanism ≡ some m
      → IsOffered c offered m
      → Choice c offered (some m)
  greatest :
      {m : SaslMechanism}
      → IsOffered c offered m
      → ((n : SaslMechanism) → IsOffered c offered n → less m n ≡ false)
      → ((p : SaslMechanism) → from_string c.sasl_auth_mechanism ≡ some p → ¬ IsOffered c offered p)
      → Choice c offered (some m)

empty_name : from_string [] ≡ none
unfolding from_string starts_with text_eq
empty_name = refl

-- What `preferred` says of the configured mechanism.
preferred-some :
    (c : SaslSettings) (ms : List SaslMechanism) (p : SaslMechanism)
    → preferred c ms ≡ some p
    → (from_string c.sasl_auth_mechanism ≡ some p) × (contains_mechanism ms p ≡ true)
unfolding preferred
preferred-some c ms p h = ground arith

preferred-none :
    (c : SaslSettings) (ms : List SaslMechanism) (p : SaslMechanism)
    → preferred c ms ≡ none
    → from_string c.sasl_auth_mechanism ≡ some p
    → contains_mechanism ms p ≡ false
unfolding preferred
preferred-none c ms p h e = ground (arith, empty_name)

-- What the list of usable mechanisms says of the offer.
chosen :
    (c : SaslSettings) (offered : List Text) (ms : List SaslMechanism)
    → ((m : SaslMechanism) → Memᴰ m ms → IsOffered c offered m)
    → ((m : SaslMechanism) → IsOffered c offered m → Memᴰ m ms)
    → Choice c offered (choose_among c offered ms).0
unfolding choose_among
chosen c offered [] sound complete = nothing (λ m o. not-nil (complete m o))
chosen c offered (m ∷ rest) sound complete = elim (Option-cases (preferred c (m ∷ rest))) [
  | inl unset ↦
      rw (choose_among, unset)
        (greatest (sound (max_from m rest) (max_from-Memᴰ m rest))
          (λ n o.
            ground
              (arith, less-rank (max_from m rest) n, max_from-greatest n m rest (complete n o)))
          (λ p e o. cc (
            preferred-none c (m ∷ rest) p unset e,
            mem_contains_mechanism p (m ∷ rest) (complete p o),
          )))
  | inr (p, e) ↦
      let (read, found) = preferred-some c (m ∷ rest) p e in
      rw (choose_among, e) (configured read (sound p (contains_mechanism-Memᴰ (m ∷ rest) p found)))
]

-- The choice among what the server offers, for every configuration: it is made whenever something
-- can be used, it takes the configured mechanism if that can be used, and the greatest otherwise.
pub choose_mechanism-Choice :
    (c : SaslSettings) (offered : List Text) → Choice c offered (choose_mechanism c offered).0
unfolding choose_mechanism
choose_mechanism-Choice c offered =
    chosen c offered (mechanisms c offered) (mechanisms-IsOffered c offered)
      (λ m o. mem_mechanisms c offered m o.name o.sent o.useful)

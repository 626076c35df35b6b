-- ===== src/Socks/Address.antt =====
-- Addresses on the wire: what is encoded is parsed back, and what is parsed was encoded.
use mathlib.Core.List.{append_assoc}
use qxmpp.Common.{
  suc, zero, take-length, ℕ, ◌+◌, ◌*◌, ◌/◌, ◌%◌, ◌<◌, ◌≤◌, ◌≡◌, ◌∙◌, ap, [], ◌∷◌, ◌++◌, some, arith,
  Bytes, leb, length, take, drop, take-append, drop-append, length-take, length-append, take-drop,
  All, leb→le, some_eq, Bool-cases, inl, inr, true,
}
use qxmpp.Socks.{port_bytes, encode_host_and_port, parse_port, parse_host_and_port}

-- Behind its type and its length, a host is read up to its end, and then the port.
parse_host-append :
    (type n a b : ℕ) (host rest : Bytes)
    → length host ≡ n
    → parse_host_and_port (type ∷ n ∷ host ++ (a ∷ b ∷ rest)) ≡ some (type, host, a * 256 + b, rest)
unfolding parse_host_and_port parse_port
parse_host-append type n a b host rest size =
    let fits : leb (length host) (length (host ++ (a ∷ b ∷ rest))) ≡ true =
      ground (arith, length-append host (a ∷ b ∷ rest)) in
    rw (← size, fits, take-append host (a ∷ b ∷ rest), drop-append host (a ∷ b ∷ rest))

-- An encoded address with anything behind it is parsed back to its type, its host and its port, and
-- leaves what is behind it. Of the host, as many bytes are sent as its length is modulo 256: it
-- is the whole host if it has fewer than 256 bytes.
pub parse-encode :
    (type port : ℕ) (host rest : Bytes)
    → port < 65536
    → parse_host_and_port (encode_host_and_port type host port ++ rest)
      ≡ some (type, take (length host % 256) host, port, rest)
unfolding encode_host_and_port
parse-encode type port host rest h =
    let sent = take (length host % 256) host in
    let size : length sent ≡ length host % 256 =
      length-take (length host % 256) host (omega arith) in
    let whole : port / 256 % 256 * 256 + port % 256 ≡ port = omega (arith, h) in
    rw (append_assoc sent (port_bytes port) rest) (
      parse_host-append type (length host % 256) (port / 256 % 256) (port % 256) sent rest size
      ∙ rw whole)

parse_port-encoded :
    (type t port : ℕ) (host h s rest : Bytes)
    → parse_port type host s ≡ some (t, h, port, rest)
    → All (λ b. b < 256) s
    → (type ≡ t) × (host ≡ h) × (s ≡ port_bytes port ++ rest)
unfolding parse_port
parse_port-encoded type t port host h [] rest e bytes = cc
parse_port-encoded type t port host h (a ∷ []) rest e bytes = cc
parse_port-encoded type t port host h (a ∷ b ∷ s) rest e bytes =
    let same = some_eq e in
    let number : a * 256 + b ≡ port = ap (λ r. r.2) same in
    let left : s ≡ rest = ap (λ r. r.3) same in
    let high : a ≡ port / 256 % 256 = omega (arith, number, bytes.0, bytes.1) in
    let low : b ≡ port % 256 = omega (arith, number, bytes.1) in
    (ap (λ r. r.0) same, ap (λ r. r.1) same, rw (high, low, left))

All-drop : (P : ℕ → Type 0) (n : ℕ) (s : Bytes) → All P s → All P (drop n s)
All-drop P zero s a = a
All-drop P (suc n) [] a = a
All-drop P (suc n) (x ∷ s) a = All-drop P n s a.1

-- What is parsed was encoded: where bytes are parsed to an address and the bytes left, they are that
-- address encoded, with the bytes left behind it.
pub encode-parse :
    (s : Bytes) (type port : ℕ) (host rest : Bytes)
    → All (λ b. b < 256) s
    → parse_host_and_port s ≡ some (type, host, port, rest)
    → s ≡ encode_host_and_port type host port ++ rest
unfolding parse_host_and_port encode_host_and_port
encode-parse [] type port host rest bytes e = cc
encode-parse (t ∷ []) type port host rest bytes e = cc
encode-parse (t ∷ n ∷ s) type port host rest bytes e = elim (Bool-cases (leb n (length s))) [
  | inl fits ↦
      let parsed : parse_port t (take n s) (drop n s) ≡ some (type, host, port, rest) =
        ground (arith, e) in
      let (whole, same, left) =
        parse_port-encoded t type port (take n s) host (drop n s) rest parsed
          (All-drop (λ b. b < 256) n s bytes.1.1) in
      let bound : n ≤ length s = leb→le n (length s) fits in
      let sized : length host ≡ n = rw (← same) (length-take n s bound) in
      let size : length host % 256 ≡ n = omega (arith, sized, bytes.1.0) in
      let full : take n host ≡ host = rw (← sized) (take-length host) in
      let split = take-drop n s in rw (size, full, append_assoc host (port_bytes port) rest) cc
  | inr short ↦ cc
]

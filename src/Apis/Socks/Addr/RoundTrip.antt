-- ===== src/Apis/Socks/Addr/RoundTrip.antt =====
-- Addresses that are written and read again.
use mieru.Common.{
  ℕ, ◌+◌, ◌*◌, ◌/◌, ◌%◌, ◌^◌, ◌<◌, ◌≡◌, ◌≢◌, refl, inl, inr, true, Option, none, some, List, [],
  ◌∷◌, ◌++◌, ◌==◌, ok, length, get_or, take, drop, length-append, length-drop, take-append-drop,
  arith, Bool-cases, Option-cases, List-cases,
}
use mathlib.Core.List.{append_assoc}
use mieru.Common.Stream.{read_full, read_full-append}
use mieru.Apis.Socks.Addr.{
  AddrSpec, ipv4_address, ipv6_address, fqdn_address, v4_in_v6_prefix, bytes_eq, to4, to16,
  addr_type, port_bytes, write_to_socks5, read_host, read_from_socks5, empty_spec,
}

bytes_eq-true : (s t : List ℕ) → bytes_eq s t ≡ true → s ≡ t
bytes_eq-true [] [] e = refl
bytes_eq-true [] (b ∷ t) e = absurd (ground arith)
bytes_eq-true (a ∷ s) [] e = absurd (ground arith)
bytes_eq-true (a ∷ s) (b ∷ t) e =
    let head : a ≡ b = ground arith in
    let tail = bytes_eq-true s t (ground arith) in rw (head, tail) refl

length-to4 : (ip v4 : List ℕ) → to4 ip ≡ some v4 → length v4 ≡ 4
unfolding to4
length-to4 ip v4 e = ground (arith, length-drop {0} 12 ip)

length-to16 : (ip v6 : List ℕ) → to16 ip ≡ some v6 → length v6 ≡ 16
unfolding to16
length-to16 ip v6 e = ground (arith, length-append {0} v4_in_v6_prefix ip)

split_prefix : (ip p : List ℕ) → take 12 ip ≡ p → p ++ drop 12 ip ≡ ip
split_prefix ip p e = rw⁻¹ e (take-append-drop 12 ip)

-- The IPv4 form of an address is the same address.
to16-to4 :
    (ip v4 : List ℕ) → to4 ip ≡ some v4 → (v6 : List ℕ) × (to16 ip ≡ some v6) × (to16 v4 ≡ some v6)
unfolding to4 to16
to16-to4 ip v4 e = elim (Bool-cases (length ip == 4)) [
  | inl short ↦
      let same : v4 ≡ ip = ground arith in
      (v4_in_v6_prefix ++ ip, ground arith, rw same (ground arith))
  | inr long ↦
      let mapped : bytes_eq (take 12 ip) v4_in_v6_prefix ≡ true = ground arith in
      let split =
        split_prefix ip v4_in_v6_prefix (bytes_eq-true (take 12 ip) v4_in_v6_prefix mapped) in
      (ip, ground arith, ground (arith, split, length-drop {0} 12 ip))
]

to16-to16 : (ip v6 : List ℕ) → to16 ip ≡ some v6 → to16 v6 ≡ some v6
unfolding to16
to16-to16 ip v6 e = let len = length-to16 ip v6 e in ground arith

read_port :
    (port : ℕ) (rest : List ℕ)
    → port < 2 ^ 16
    → read_full 2 (port_bytes port ++ rest) ≡ some ((port / 2 ^ 8) ∷ (port % 2 ^ 8) ∷ [], rest)
read_port port rest h = ground (arith, read_full-append (port_bytes port) rest)

-- The address with a host that was read, and its port.
pub read_from_socks5-host :
    (kind port : ℕ) (a b : AddrSpec) (stream rest : List ℕ)
    → port < 2 ^ 16
    → read_host kind a stream ≡ ok (b, port_bytes port ++ rest)
    → read_from_socks5 a (kind ∷ stream) ≡ ok (record b { port = port }, rest)
unfolding read_from_socks5
read_from_socks5-host kind port a b stream rest h e =
    let value : port / 2 ^ 8 * 2 ^ 8 + port % 2 ^ 8 ≡ port = omega arith in
    rw (read_full-append (kind ∷ []) stream, e, read_port port rest h, value) refl

pub read_host-ipv4 :
    (a : AddrSpec) (v4 rest : List ℕ)
    → length v4 ≡ 4
    → read_host ipv4_address a (v4 ++ rest) ≡ ok (record a { ip = v4 }, rest)
unfolding read_host
read_host-ipv4 a v4 rest e = ground (arith, read_full-append v4 rest)

pub read_host-ipv6 :
    (a : AddrSpec) (v6 rest : List ℕ)
    → length v6 ≡ 16
    → read_host ipv6_address a (v6 ++ rest) ≡ ok (record a { ip = v6 }, rest)
unfolding read_host
read_host-ipv6 a v6 rest e = ground (arith, read_full-append v6 rest)

pub read_host-fqdn :
    (a : AddrSpec) (fqdn rest : List ℕ)
    → read_host fqdn_address a (length fqdn ∷ fqdn ++ rest) ≡ ok (record a { fqdn = fqdn }, rest)
unfolding read_host
read_host-fqdn a fqdn rest =
    ground (arith, read_full-append (length fqdn ∷ []) (fqdn ++ rest), read_full-append fqdn rest)

abbrev used_fqdn : Option (List ℕ) → List ℕ → List ℕ
used_fqdn (some ip) fqdn = []
used_fqdn none fqdn = fqdn

-- Where an address leads: the IP address in 16 bytes, or else the name, and the port.
abbrev pub destination : AddrSpec → Option (List ℕ) × List ℕ × ℕ
destination a = (to16 a.ip, used_fqdn (to16 a.ip) a.fqdn, a.port)

-- `sent` is what is written for `a`, and reads as an address that leads to the same destination.
abbrev pub ReadsBack : AddrSpec → List ℕ → List ℕ → AddrSpec → Type 0
ReadsBack a rest sent b =
    (write_to_socks5 a ≡ ok sent)
    × (get_or sent 0 0 ≡ addr_type a)
    × (read_from_socks5 empty_spec (sent ++ rest) ≡ ok (b, rest))
    × (destination b ≡ destination a)

ipv4_round_trip :
    (a : AddrSpec) (rest v4 : List ℕ)
    → a.port < 2 ^ 16
    → to4 a.ip ≡ some v4
    → (sent : List ℕ) × (b : AddrSpec) × ReadsBack a rest sent b
unfolding write_to_socks5 addr_type
ipv4_round_trip a rest v4 h e =
    let (v6, from, into) = to16-to4 a.ip v4 e in
    (
      ipv4_address ∷ v4 ++ port_bytes a.port,
      record { fqdn = []; ip = v4; port = a.port },
      (
        rw e refl,
        rw e refl,
        rw (append_assoc v4 (port_bytes a.port) rest) (
            read_from_socks5-host ipv4_address a.port empty_spec _ _ rest h
              (read_host-ipv4 empty_spec v4 (port_bytes a.port ++ rest) (length-to4 a.ip v4 e))),
        rw (from, into) refl,
      ),
    )

ipv6_round_trip :
    (a : AddrSpec) (rest v6 : List ℕ)
    → a.port < 2 ^ 16
    → to4 a.ip ≡ none
    → to16 a.ip ≡ some v6
    → (sent : List ℕ) × (b : AddrSpec) × ReadsBack a rest sent b
unfolding write_to_socks5 addr_type
ipv6_round_trip a rest v6 h no_v4 e = (
  ipv6_address ∷ v6 ++ port_bytes a.port,
  record { fqdn = []; ip = v6; port = a.port },
  (
    rw (no_v4, e) refl,
    rw (no_v4, e) refl,
    rw (append_assoc v6 (port_bytes a.port) rest) (
        read_from_socks5-host ipv6_address a.port empty_spec _ _ rest h
          (read_host-ipv6 empty_spec v6 (port_bytes a.port ++ rest) (length-to16 a.ip v6 e))),
    rw (e, to16-to16 a.ip v6 e) refl,
  ),
)

fqdn_round_trip :
    (a : AddrSpec) (rest : List ℕ) (c : ℕ) (name : List ℕ)
    → a.port < 2 ^ 16
    → to4 a.ip ≡ none
    → to16 a.ip ≡ none
    → a.fqdn ≡ c ∷ name
    → length (c ∷ name) < 2 ^ 8
    → (sent : List ℕ) × (b : AddrSpec) × ReadsBack a rest sent b
unfolding write_to_socks5 addr_type
fqdn_round_trip a rest c name h no_v4 no_v6 e short =
    let fqdn = c ∷ name in
    let len : length fqdn % 2 ^ 8 ≡ length fqdn = omega arith in
    (
      fqdn_address ∷ length fqdn ∷ fqdn ++ port_bytes a.port,
      record { fqdn = fqdn; ip = []; port = a.port },
      (
        rw (no_v4, no_v6, e) (rw len refl),
        rw (no_v4, no_v6, e) refl,
        rw (append_assoc fqdn (port_bytes a.port) rest) (
            read_from_socks5-host fqdn_address a.port empty_spec _ _ rest h
              (read_host-fqdn empty_spec fqdn (port_bytes a.port ++ rest))),
        rw (no_v6, e) (unfold to16 in refl),
      ),
    )

-- An address with a port of 16 bits that has an IP address of 4 or 16 bytes, or else a name of 1 to
-- 255 bytes, is written: the first byte is its type, and what is written reads as an address with
-- the same destination, with what follows left on the stream.
pub addr_round_trip :
    (a : AddrSpec) (rest : List ℕ)
    → a.port < 2 ^ 16
    → addr_type a ≢ 0
    → length a.fqdn < 2 ^ 8
    → (sent : List ℕ) × (b : AddrSpec) × ReadsBack a rest sent b
unfolding addr_type
addr_round_trip a rest h typed short = elim (Option-cases (to4 a.ip)) [
  | inl no_v4 ↦ elim (Option-cases (to16 a.ip)) [
    | inl no_v6 ↦ elim (List-cases a.fqdn) [
      | inl no_name ↦ absurd (typed (rw (no_v4, no_v6, no_name) refl))
      | inr (c, name, e) ↦ fqdn_round_trip a rest c name h no_v4 no_v6 e (rw e at short)
    ]
    | inr (v6, e) ↦ ipv6_round_trip a rest v6 h no_v4 e
  ]
  | inr (v4, e) ↦ ipv4_round_trip a rest v4 h e
]

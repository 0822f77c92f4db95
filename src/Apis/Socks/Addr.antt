-- ===== src/Apis/Socks/Addr.antt =====
-- apis/model/addr.go: `AddrSpec` on the wire. Strings are lists of bytes, and a nil IP is the empty
-- one. What an error leaves of the stream is not modelled.
pub mod RoundTrip
use mieru.Common.{
  ℕ, ◌+◌, ◌*◌, ◌/◌, ◌%◌, ◌^◌, Bool, true, false, ◌&&◌, Option, none, some, List, [], ◌∷◌, ◌++◌,
  ◌==◌, if◌then◌else◌, Result, ok, err, ◌>>=◌, length, get_or, take, drop,
}
use mieru.Common.Stream.{read_full}

pub data SocksError : Type 0 where
  end_of_stream unrecognized_addr_type : SocksError
  invalid_version : ℕ → SocksError
  unsupported_command : ℕ → SocksError

pub record AddrSpec : Type 0 where
  pub fqdn : List ℕ
  pub ip : List ℕ
  pub port : ℕ

-- `AddrSpec{}`
abbrev pub empty_spec : AddrSpec
empty_spec = record { fqdn = []; ip = []; port = 0 }

-- apis/constant/socks5.go
abbrev pub ipv4_address : ℕ
ipv4_address = 1

abbrev pub fqdn_address : ℕ
fqdn_address = 3

abbrev pub ipv6_address : ℕ
ipv6_address = 4

-- What Go's `net` puts in front of an IPv4 address to make it an IPv6 one.
abbrev pub v4_in_v6_prefix : List ℕ
v4_in_v6_prefix = 0 ∷ 0 ∷ 0 ∷ 0 ∷ 0 ∷ 0 ∷ 0 ∷ 0 ∷ 0 ∷ 0 ∷ 255 ∷ 255 ∷ []

abbrev pub bytes_eq : List ℕ → List ℕ → Bool
bytes_eq [] [] = true
bytes_eq [] (b ∷ t) = false
bytes_eq (a ∷ s) [] = false
bytes_eq (a ∷ s) (b ∷ t) = a == b && bytes_eq s t

-- `net.IP.To4`
unfoldable pub to4 : List ℕ → Option (List ℕ)
to4 ip =
    if length ip == 4
    then some ip
    else if length ip == 16 && bytes_eq (take 12 ip) v4_in_v6_prefix
    then some (drop 12 ip)
    else none

-- `net.IP.To16`
unfoldable pub to16 : List ℕ → Option (List ℕ)
to16 ip =
    if length ip == 4
    then some (v4_in_v6_prefix ++ ip)
    else if length ip == 16
    then some ip
    else none

abbrev pub fqdn_type : List ℕ → ℕ
fqdn_type [] = 0
fqdn_type (c ∷ fqdn) = fqdn_address

abbrev pub type_of : Option (List ℕ) → Option (List ℕ) → List ℕ → ℕ
type_of (some v4) v6 fqdn = ipv4_address
type_of none (some v6) fqdn = ipv6_address
type_of none none fqdn = fqdn_type fqdn

unfoldable pub addr_type : AddrSpec → ℕ
unfolding to4 to16
addr_type a = type_of (to4 a.ip) (to16 a.ip) a.fqdn

-- `binary.BigEndian` by hand: the port in two bytes
abbrev pub port_bytes : ℕ → List ℕ
port_bytes port = (port % 2 ^ 16 / 2 ^ 8 % 2 ^ 8) ∷ (port % 2 ^ 16 % 2 ^ 8) ∷ []

abbrev pub write_fqdn : List ℕ → List ℕ → Result SocksError (List ℕ)
write_fqdn [] port = err unrecognized_addr_type
write_fqdn (c ∷ fqdn) port = ok (fqdn_address ∷ (length (c ∷ fqdn) % 2 ^ 8) ∷ (c ∷ fqdn) ++ port)

-- The `switch`, by what `To4` and `To16` give.
abbrev pub write_host :
    Option (List ℕ) → Option (List ℕ) → List ℕ → List ℕ → Result SocksError (List ℕ)
write_host (some v4) v6 fqdn port = ok (ipv4_address ∷ v4 ++ port)
write_host none (some v6) fqdn port = ok (ipv6_address ∷ v6 ++ port)
write_host none none fqdn port = write_fqdn fqdn port

unfoldable pub write_to_socks5 : AddrSpec → Result SocksError (List ℕ)
unfolding to4 to16
write_to_socks5 a = write_host (to4 a.ip) (to16 a.ip) a.fqdn (port_bytes a.port)

-- What `io.ReadFull` gives, with an error for a stream that ends too early.
abbrev pub from_stream : Option (List ℕ × List ℕ) → Result SocksError (List ℕ × List ℕ)
from_stream none = err end_of_stream
from_stream (some r) = ok r

-- The host after its type: `a` with the field that the type sets.
unfoldable pub read_host : ℕ → AddrSpec → List ℕ → Result SocksError (AddrSpec × List ℕ)
unfolding read_full
read_host kind a stream =
    if kind == ipv4_address
    then (do (addr, stream) ← from_stream (read_full 4 stream); ok (record a { ip = addr }, stream))
    else if kind == ipv6_address
    then (do
      (addr, stream) ← from_stream (read_full 16 stream)
      ok (record a { ip = addr }, stream))
    else if kind == fqdn_address
    then (do
      (addr_len, stream) ← from_stream (read_full 1 stream)
      (fqdn, stream) ← from_stream (read_full (get_or addr_len 0 0) stream)
      ok (record a { fqdn = fqdn }, stream))
    else err unrecognized_addr_type

unfoldable pub read_from_socks5 : AddrSpec → List ℕ → Result SocksError (AddrSpec × List ℕ)
unfolding read_full read_host
read_from_socks5 a stream = do
  (kind, stream) ← from_stream (read_full 1 stream)
  (a, stream) ← read_host (get_or kind 0 0) a stream
  (port, stream) ← from_stream (read_full 2 stream)
  ok (record a { port = get_or port 0 0 * 2 ^ 8 + get_or port 1 0 }, stream)

-- ===== src/Apis/Socks/Message.antt =====
-- apis/model/socks.go: SOCKS5 requests and responses on the wire. A reader is the list of bytes that
-- are left; `raw` is what a `TeeReader` has copied.
pub mod Agree
pub mod RoundTrip
use mieru.Common.{
  ℕ, ◌-◌, not, List, [], ◌∷◌, ◌++◌, ◌==◌, if◌then◌else◌, Result, ok, err, ◌>>=◌, ◌>>◌, fail_if,
  length, get_or, take,
}
use mieru.Common.Stream.{read_full}
use mieru.Apis.Socks.Addr.{
  AddrSpec, SocksError, invalid_version, unsupported_command, empty_spec, from_stream,
  read_from_socks5, write_to_socks5,
}

abbrev pub socks5_version : ℕ
socks5_version = 5

abbrev pub connect_cmd : ℕ
connect_cmd = 1

abbrev pub udp_associate_cmd : ℕ
udp_associate_cmd = 3

pub record Request : Type 0 where
  pub command : ℕ
  pub dst_addr : AddrSpec
  pub raw : List ℕ

pub record Response : Type 0 where
  pub reply : ℕ
  pub bind_addr : AddrSpec
  pub raw : List ℕ

-- The bytes of a reader that have been read when `rest` is left.
abbrev pub consumed : List ℕ → List ℕ → List ℕ
consumed stream rest = take (length stream - length rest) stream

-- `readSocks5AddrAfterType`, whose `MultiReader` puts the type back in front
unfoldable pub read_socks5_addr_after_type :
    ℕ → List ℕ → Result SocksError ((AddrSpec × List ℕ) × List ℕ)
read_socks5_addr_after_type kind stream = do
  (addr, rest) ← read_from_socks5 empty_spec (kind ∷ stream)
  ok ((addr, consumed stream rest), rest)

unfoldable pub read_socks5_request : List ℕ → Result SocksError (Request × List ℕ)
read_socks5_request stream = do
  (header, stream) ← from_stream (read_full 4 stream)
  ((dst_addr, addr_raw), rest) ← read_socks5_addr_after_type (get_or header 3 0) stream
  ok (record { command = get_or header 1 0; dst_addr = dst_addr; raw = header ++ addr_raw }, rest)

-- `Request.ReadFromSocks5` on the object `r`
unfoldable pub read_request : Request → List ℕ → Result SocksError (Request × List ℕ)
read_request r stream = do
  (header, after) ← from_stream (read_full 3 stream)
  fail_if (not (get_or header 0 0 == socks5_version)) (invalid_version (get_or header 0 0))
  (dst_addr, rest) ← read_from_socks5 r.dst_addr after
  ok (record { command = get_or header 1 0; dst_addr = dst_addr; raw = consumed stream rest }, rest)

-- `Request.WriteToSocks5`: the request with its raw bytes, and what is sent
unfoldable pub write_request : Request → Result SocksError (Request × List ℕ)
write_request r = do
  addr ← write_to_socks5 r.dst_addr
  let sent = socks5_version ∷ r.command ∷ 0 ∷ addr
  ok (record r { raw = sent }, sent)

unfoldable pub read_socks5_response : List ℕ → Result SocksError (Response × List ℕ)
read_socks5_response stream = do
  (header, stream) ← from_stream (read_full 4 stream)
  ((bind_addr, addr_raw), rest) ← read_socks5_addr_after_type (get_or header 3 0) stream
  ok (record { reply = get_or header 1 0; bind_addr = bind_addr; raw = header ++ addr_raw }, rest)

-- `Response.ReadFromSocks5` on the object `r`
unfoldable pub read_response : Response → List ℕ → Result SocksError (Response × List ℕ)
read_response r stream = do
  (header, after) ← from_stream (read_full 3 stream)
  fail_if (not (get_or header 0 0 == socks5_version)) (invalid_version (get_or header 0 0))
  (bind_addr, rest) ← read_from_socks5 r.bind_addr after
  ok (record { reply = get_or header 1 0; bind_addr = bind_addr; raw = consumed stream rest }, rest)

-- `Response.WriteToSocks5`
unfoldable pub write_response : Response → Result SocksError (Response × List ℕ)
write_response r = do
  addr ← write_to_socks5 r.bind_addr
  let sent = socks5_version ∷ r.reply ∷ 0 ∷ addr
  ok (record r { raw = sent }, sent)

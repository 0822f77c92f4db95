-- ===== src/Apis/Socks/Examples.antt =====
-- SOCKS5 messages and packets on concrete streams.
use mieru.Common.{ℕ, ◌≡◌, ◌≢◌, refl, List, [], ◌∷◌, ◌++◌, ok, arith}
use mieru.Common.Stream.{read_full}
use mieru.Apis.Socks.Addr.{
  to4, to16, read_host, AddrSpec, addr_type, write_to_socks5, read_from_socks5,
}
use mieru.Apis.Socks.Addr.RoundTrip.{addr_round_trip, destination, ReadsBack}
use mieru.Apis.Socks.Message.{
  Request, Response, read_request, read_socks5_request, write_request, read_response,
  read_socks5_response, write_response,
}
use mieru.Apis.Socks.Message.Agree.{empty_request, empty_response, request_readers_agree}
use mieru.Apis.Socks.Message.RoundTrip.{request_round_trip, response_round_trip}

-- The name "ab" at port 443.
abbrev named : AddrSpec
named = record { fqdn = 97 ∷ 98 ∷ []; ip = []; port = 443 }

-- 127.0.0.1 at port 1080, in the form of 16 bytes.
abbrev local_host : AddrSpec
local_host = record {
  fqdn = [];
  ip = 0 ∷ 0 ∷ 0 ∷ 0 ∷ 0 ∷ 0 ∷ 0 ∷ 0 ∷ 0 ∷ 0 ∷ 255 ∷ 255 ∷ 127 ∷ 0 ∷ 0 ∷ 1 ∷ [];
  port = 1080;
}

named_written : write_to_socks5 named ≡ ok (3 ∷ 2 ∷ 97 ∷ 98 ∷ 1 ∷ 187 ∷ [])
unfolding write_to_socks5 to4 to16
named_written = refl

local_host_written : write_to_socks5 local_host ≡ ok (1 ∷ 127 ∷ 0 ∷ 0 ∷ 1 ∷ 4 ∷ 56 ∷ [])
unfolding write_to_socks5 to4 to16
local_host_written = refl

local_host_typed : addr_type local_host ≢ 0
unfolding addr_type to4 to16
local_host_typed e = absurd (omega (arith, e))

named_typed : addr_type named ≢ 0
unfolding addr_type to4 to16
named_typed e = absurd (omega (arith, e))

addr_round_trip_example : (sent : List ℕ) × (b : AddrSpec) × ReadsBack local_host (9 ∷ []) sent b
addr_round_trip_example =
    addr_round_trip local_host (9 ∷ []) (omega arith) local_host_typed (omega arith)

abbrev connect_named : Request
connect_named = record { command = 1; dst_addr = named; raw = [] }

request_round_trip_example :
    (sent : List ℕ) × (q : Request) × (write_request connect_named
      ≡ ok (record connect_named { raw = sent }, sent))
    × (read_request empty_request (sent ++ (9 ∷ [])) ≡ ok (q, 9 ∷ []))
    × (read_socks5_request (sent ++ (9 ∷ [])) ≡ ok (q, 9 ∷ []))
    × (q.command ≡ 1)
    × (q.raw ≡ sent)
    × (destination q.dst_addr ≡ destination named)
request_round_trip_example =
    request_round_trip connect_named (9 ∷ []) (omega arith) named_typed (omega arith)

abbrev bound_named : Response
bound_named = record { reply = 0; bind_addr = named; raw = [] }

response_round_trip_example :
    (sent : List ℕ) × (q : Response) × (write_response bound_named
      ≡ ok (record bound_named { raw = sent }, sent))
    × (read_response empty_response (sent ++ (9 ∷ [])) ≡ ok (q, 9 ∷ []))
    × (read_socks5_response (sent ++ (9 ∷ [])) ≡ ok (q, 9 ∷ []))
    × (q.reply ≡ 0)
    × (q.raw ≡ sent)
    × (destination q.bind_addr ≡ destination named)
response_round_trip_example =
    response_round_trip bound_named (9 ∷ []) (omega arith) named_typed (omega arith)

abbrev connect_stream : List ℕ
connect_stream = 5 ∷ 1 ∷ 0 ∷ 1 ∷ 127 ∷ 0 ∷ 0 ∷ 1 ∷ 4 ∷ 56 ∷ 9 ∷ []

abbrev connect_local : Request
connect_local = record {
  command = 1;
  dst_addr = record { fqdn = []; ip = 127 ∷ 0 ∷ 0 ∷ 1 ∷ []; port = 1080 };
  raw = 5 ∷ 1 ∷ 0 ∷ 1 ∷ 127 ∷ 0 ∷ 0 ∷ 1 ∷ 4 ∷ 56 ∷ [];
}

connect_read : read_request empty_request connect_stream ≡ ok (connect_local, 9 ∷ [])
unfolding read_request read_from_socks5 read_full read_host
connect_read = refl

request_readers_agree_example : read_socks5_request connect_stream ≡ ok (connect_local, 9 ∷ [])
request_readers_agree_example =
    request_readers_agree connect_stream (9 ∷ []) connect_local connect_read

-- ===== src/Apis/Socks/Message/RoundTrip.antt =====
-- Messages that are written and read again.
use mieru.Common.{
  ℕ, ◌-◌, ◌^◌, ◌<◌, ◌≡◌, ◌≢◌, refl, List, [], ◌∷◌, ◌++◌, ok, length, length-append,
  take-length-append, arith,
}
use mieru.Common.Stream.{read_full-append}
use mieru.Apis.Socks.Addr.{addr_type}
use mieru.Apis.Socks.Addr.RoundTrip.{addr_round_trip, destination}
use mieru.Apis.Socks.Message.{
  Request, Response, consumed, socks5_version, read_request, read_socks5_request, write_request,
  read_response, read_socks5_response, write_response,
}
use mieru.Apis.Socks.Message.Agree.{
  empty_request, empty_response, request_readers_agree, response_readers_agree,
}

consumed-append : (sent rest : List ℕ) → consumed (sent ++ rest) rest ≡ sent
consumed-append sent rest =
    let n : length (sent ++ rest) - length rest ≡ length sent =
      omega (arith, length-append {0} sent rest) in
    rw n (take-length-append sent rest)

-- A request with such an address is written, and both readers read what was sent as the same request:
-- its code, an address with the same destination, and the bytes that were sent as the raw ones, with
-- what follows left on the stream.
pub request_round_trip :
    (r : Request) (rest : List ℕ)
    → r.dst_addr.port < 2 ^ 16
    → addr_type r.dst_addr ≢ 0
    → length r.dst_addr.fqdn < 2 ^ 8
    → (sent : List ℕ) × (q : Request) × (write_request r ≡ ok (record r { raw = sent }, sent))
      × (read_request empty_request (sent ++ rest) ≡ ok (q, rest))
      × (read_socks5_request (sent ++ rest) ≡ ok (q, rest))
      × (q.command ≡ r.command)
      × (q.raw ≡ sent)
      × (destination q.dst_addr ≡ destination r.dst_addr)
unfolding write_request read_request
request_round_trip r rest port typed short =
    let (addr, b, (wrote, _, back, same)) = addr_round_trip r.dst_addr rest port typed short in
    let sent = socks5_version ∷ r.command ∷ 0 ∷ addr in
    let q : Request = record { command = r.command; dst_addr = b; raw = sent } in
    let got : read_request empty_request (sent ++ rest) ≡ ok (q, rest) =
      rw
        (
          read_full-append (socks5_version ∷ r.command ∷ 0 ∷ []) (addr ++ rest),
          back,
          consumed-append sent rest,
        )
        refl in
    (sent, q, rw wrote refl, got, request_readers_agree (sent ++ rest) rest q got, refl, refl, same)

-- A response with such an address is written, and both readers read what was sent as the same response:
-- its code, an address with the same destination, and the bytes that were sent as the raw ones, with
-- what follows left on the stream.
pub response_round_trip :
    (r : Response) (rest : List ℕ)
    → r.bind_addr.port < 2 ^ 16
    → addr_type r.bind_addr ≢ 0
    → length r.bind_addr.fqdn < 2 ^ 8
    → (sent : List ℕ) × (q : Response) × (write_response r ≡ ok (record r { raw = sent }, sent))
      × (read_response empty_response (sent ++ rest) ≡ ok (q, rest))
      × (read_socks5_response (sent ++ rest) ≡ ok (q, rest))
      × (q.reply ≡ r.reply)
      × (q.raw ≡ sent)
      × (destination q.bind_addr ≡ destination r.bind_addr)
unfolding write_response read_response
response_round_trip r rest port typed short =
    let (addr, b, (wrote, _, back, same)) = addr_round_trip r.bind_addr rest port typed short in
    let sent = socks5_version ∷ r.reply ∷ 0 ∷ addr in
    let q : Response = record { reply = r.reply; bind_addr = b; raw = sent } in
    let got : read_response empty_response (sent ++ rest) ≡ ok (q, rest) =
      rw
        (
          read_full-append (socks5_version ∷ r.reply ∷ 0 ∷ []) (addr ++ rest),
          back,
          consumed-append sent rest,
        )
        refl in
    (
      sent,
      q,
      rw wrote refl,
      got,
      response_readers_agree (sent ++ rest) rest q got,
      refl,
      refl,
      same,
    )

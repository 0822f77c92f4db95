-- ===== src/Apis/Socks/Message/Agree.antt =====
-- The two readers of a SOCKS5 message.
use mieru.Common.{
  ℕ, suc, ◌+◌, ◌-◌, ◌≤◌, ◌≡◌, refl, ap, ◌⊎◌, inl, inr, none, List, [], ◌∷◌, ok, length, get_or,
  take, drop, length-drop, bind_ok, arith, List-cases, Result-cases,
}
use mieru.Common.Stream.{read_full, read_full-append}
use mieru.Apis.Socks.Addr.{AddrSpec, empty_spec, from_stream, read_host, read_from_socks5}
use mieru.Apis.Socks.Message.{
  Request, Response, consumed, read_socks5_addr_after_type, read_socks5_request, read_request,
  read_socks5_response, read_response,
}

from_stream-rest :
    (n : ℕ) (s xs r : List ℕ) → from_stream (read_full n s) ≡ ok (xs, r) → length r + n ≡ length s
unfolding read_full
from_stream-rest n s xs r e = ground (arith, length-drop {0} n s)

read_host-rest :
    (kind : ℕ) (a b : AddrSpec) (s r : List ℕ)
    → read_host kind a s ≡ ok (b, r)
    → length r ≤ length s
unfolding read_host read_full
read_host-rest kind a b s r e = ground (
  arith,
  length-drop {0} 4 s,
  length-drop {0} 16 s,
  length-drop {0} 1 s,
  length-drop {0} (get_or (take 1 s) 0 0) (drop 1 s),
)

read_from_socks5-rest :
    (a b : AddrSpec) (s r : List ℕ) → read_from_socks5 a s ≡ ok (b, r) → suc (length r) ≤ length s
unfolding read_from_socks5
read_from_socks5-rest a b s r e =
    let ((kind, s1), typed, after_kind) = bind_ok (from_stream (read_full 1 s)) _ (b, r) e in
    let ((a1, s2), host, after_host) =
      bind_ok (read_host (get_or kind 0 0) a s1) _ (b, r) after_kind in
    let ((port, s3), ported, done) = bind_ok (from_stream (read_full 2 s2)) _ (b, r) after_host in
    let same : s3 ≡ r = ground (arith, done) in
    omega (
      arith,
      from_stream-rest 1 s kind s1 typed,
      read_host-rest (get_or kind 0 0) a a1 s1 s2 host,
      from_stream-rest 2 s2 port s3 ported,
      ap (λ (l : List ℕ). length l) same,
    )

consumed-header :
    (v c z k : ℕ) (t rest : List ℕ)
    → length rest ≤ length t
    → v ∷ c ∷ z ∷ k ∷ consumed t rest ≡ consumed (v ∷ c ∷ z ∷ k ∷ t) rest
consumed-header v c z k t rest h =
    let n : length (v ∷ c ∷ z ∷ k ∷ t) - length rest
        ≡ suc (suc (suc (suc (length t - length rest)))) =
      omega arith in
    rw n refl

abbrev pub empty_request : Request
empty_request = record { command = 0; dst_addr = empty_spec; raw = [] }

abbrev pub empty_response : Response
empty_response = record { reply = 0; bind_addr = empty_spec; raw = [] }

header_cases :
    (stream : List ℕ)
    → (read_full 3 stream ≡ none) ⊎ ((v c z : ℕ) × (t : List ℕ) × (stream ≡ v ∷ c ∷ z ∷ t))
unfolding read_full
header_cases [] = inl refl
header_cases (v ∷ []) = inl refl
header_cases (v ∷ c ∷ []) = inl refl
header_cases (v ∷ c ∷ z ∷ t) = inr (v, c, z, t, refl)

-- What `Request.ReadFromSocks5` reads into an empty request, `ReadSocks5Request` reads as well, with
-- the same raw bytes and the same rest.
pub request_readers_agree :
    (stream rest : List ℕ) (r : Request)
    → read_request empty_request stream ≡ ok (r, rest)
    → read_socks5_request stream ≡ ok (r, rest)
unfolding read_request read_socks5_request read_socks5_addr_after_type
request_readers_agree stream rest r e = elim (header_cases stream) [
  | inl short ↦ absurd (ground (arith, short, e))
  | inr (v, c, z, t, shape) ↦ elim (Result-cases (read_from_socks5 empty_spec t)) [
    | inl ((a, left), got) ↦ elim (List-cases t) [
      | inl nothing ↦ absurd (
          omega (
            arith,
            read_from_socks5-rest empty_spec a t left got,
            ap (λ (l : List ℕ). length l) nothing,
          ))
      | inr (k, t', more) ↦
          let got' : read_from_socks5 empty_spec (k ∷ t') ≡ ok (a, left) = rw more at got in
          let same =
            consumed-header v c z k t' left
              (omega (arith, read_from_socks5-rest empty_spec a (k ∷ t') left got')) in
          let shape' : stream ≡ v ∷ c ∷ z ∷ k ∷ t' = rw more at shape in
          rw shape' (
            ground (
              arith,
              rw shape' at e,
              got',
              same,
              read_full-append (v ∷ c ∷ z ∷ []) (k ∷ t'),
              read_full-append (v ∷ c ∷ z ∷ k ∷ []) t',
            ))
    ]
    | inr (x, failed) ↦
        absurd (ground (arith, rw shape at e, failed, read_full-append (v ∷ c ∷ z ∷ []) t))
  ]
]

-- What `Response.ReadFromSocks5` reads into an empty response, `ReadSocks5Response` reads as well, with
-- the same raw bytes and the same rest.
pub response_readers_agree :
    (stream rest : List ℕ) (r : Response)
    → read_response empty_response stream ≡ ok (r, rest)
    → read_socks5_response stream ≡ ok (r, rest)
unfolding read_response read_socks5_response read_socks5_addr_after_type
response_readers_agree stream rest r e = elim (header_cases stream) [
  | inl short ↦ absurd (ground (arith, short, e))
  | inr (v, c, z, t, shape) ↦ elim (Result-cases (read_from_socks5 empty_spec t)) [
    | inl ((a, left), got) ↦ elim (List-cases t) [
      | inl nothing ↦ absurd (
          omega (
            arith,
            read_from_socks5-rest empty_spec a t left got,
            ap (λ (l : List ℕ). length l) nothing,
          ))
      | inr (k, t', more) ↦
          let got' : read_from_socks5 empty_spec (k ∷ t') ≡ ok (a, left) = rw more at got in
          let same =
            consumed-header v c z k t' left
              (omega (arith, read_from_socks5-rest empty_spec a (k ∷ t') left got')) in
          let shape' : stream ≡ v ∷ c ∷ z ∷ k ∷ t' = rw more at shape in
          rw shape' (
            ground (
              arith,
              rw shape' at e,
              got',
              same,
              read_full-append (v ∷ c ∷ z ∷ []) (k ∷ t'),
              read_full-append (v ∷ c ∷ z ∷ k ∷ []) t',
            ))
    ]
    | inr (x, failed) ↦
        absurd (ground (arith, rw shape at e, failed, read_full-append (v ∷ c ∷ z ∷ []) t))
  ]
]

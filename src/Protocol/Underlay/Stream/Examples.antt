-- ===== src/Protocol/Underlay/Stream/Examples.antt =====
-- A connection with the transparent cipher.
use mieru.Common.{
  ℕ, zero, suc, ◌≡◌, ◌<◌, ◌^◌, true, false, refl, ap, Option, none, some, List, [], ◌∷◌, ◌++◌, ok,
  length, replicate, arith,
}
use mieru.Cipher.{BlockCipher}
use mieru.Cipher.Sync.{at, stateless}
use mieru.Cipher.Examples.{transparent, nonce}
use mieru.Mathext.Numbers.{within_range}
use mieru.Protocol.Metadata.{Metadata, session, open_session_request}
use mieru.Protocol.Segment.{Segment}
use mieru.Protocol.Session.Send.{new_segment}
use mieru.Protocol.Session.Examples.{data_segment}
use mieru.Protocol.Underlay.{LowEntropyCodec}
use mieru.Protocol.Underlay.Stream.{StreamUnderlay, write_one_segment, read_one_segment}
use mieru.Protocol.Underlay.Stream.RoundTrip.{Connected, Sendable, as_sent, segment_round_trip}
use mieru.Protocol.Underlay.Stream.Sequence.{
  new_client, server, new_connection, answer_connection, write_all, read_all, as_received, Sending,
  Drawn, segments_in_order,
}

abbrev plain : LowEntropyCodec
plain = record {
  encode = λ src mode mask rotation. ok src;
  decode = λ b n mode mask rotation. ok b;
}

abbrev key : List ℕ
key = 1 ∷ 2 ∷ []

-- The registry knows one user.
abbrev one_user : List ℕ → Option BlockCipher
one_user b = some (stateless transparent key (65 ∷ []))

abbrev dirty : ℕ → List ℕ
dirty n = replicate n 170

dirty_sized : (n : ℕ) → length (dirty n) ≡ n
dirty_sized zero = refl
dirty_sized (suc n) = ap suc (dirty_sized n)

abbrev client : StreamUnderlay
client = new_client transparent plain one_user dirty key (65 ∷ [])

abbrev new_server : StreamUnderlay
new_server = server transparent plain one_user dirty (stateless transparent [] []) none

connected : Connected transparent plain one_user dirty client new_server
connected =
    new_connection transparent plain one_user dirty key (65 ∷ []) (65 ∷ [])
      (stateless transparent [] []) (stateless transparent key (65 ∷ [])) (omega arith)
      (λ b p r' d. refl) refl

-- An open request with two bytes of payload
abbrev opening : Segment
opening =
    new_segment
      (session (record {
        base_struct = record { protocol = open_session_request; timestamp = 0 };
        session_id = 7;
        seq = 0;
        status_code = 0;
        payload_len = 2;
        suffix_len = 0;
      }))
      (5 ∷ 6 ∷ [])

abbrev padding : List ℕ
padding = 33 ∷ 34 ∷ 35 ∷ []

near : within_range 32 1001 1000 1 ≡ true
unfolding within_range
near = refl

answer_connection_example :
    Connected transparent plain one_user dirty
      (server transparent plain one_user dirty
        (stateless transparent [] [])
        (some (at transparent key nonce (65 ∷ []))))
      (record client { send = some (at transparent key nonce (65 ∷ [])) })
answer_connection_example =
    answer_connection transparent plain one_user dirty key nonce (65 ∷ []) (65 ∷ [])
      (stateless transparent [] []) (some (at transparent key nonce (65 ∷ []))) (omega arith)

segment_round_trip_example :
    (u' : StreamUnderlay) × (v' : StreamUnderlay) × (m : Metadata) × (b : List ℕ)
    × (write_one_segment transparent plain one_user dirty 1000 nonce [] padding 0 opening client
        ≡ ok (u', m, b))
    × ((more : List ℕ)
        → read_one_segment transparent plain one_user dirty 1001 false new_server (b ++ more)
          ≡ ok (
            v',
            new_segment
                (as_sent transparent plain one_user dirty 1000 0 3 opening.metadata)
                (5 ∷ 6 ∷ []),
            more,
          ))
    × Connected transparent plain one_user dirty u' v'
segment_round_trip_example =
    segment_round_trip transparent plain one_user dirty dirty_sized 1000 1001 nonce [] padding 0
      refl (omega arith) (omega arith) (omega arith) near opening client new_server connected
      (
        record {
          session_id = omega arith;
          seq = omega arith;
          status_code = omega arith;
          payload_len = omega arith;
          suffix_len = omega arith;
        },
        refl,
        refl,
        omega arith,
      )

fits :
    (n : ℕ)
    → n < 2 ^ 32
    → Sendable transparent plain one_user dirty (data_segment n).metadata (data_segment n).payload
fits n h = (
  record {
    session_id = omega arith;
    seq = h;
    un_ack_seq = omega arith;
    window_size = omega arith;
    payload_len = omega arith;
    low_entropy_mask = omega arith;
    extracted_payload_len = omega arith;
  },
  refl,
  refl,
  refl,
)

abbrev Planned : Type 0
Planned = Sending transparent plain one_user dirty

-- Two segments, a minute apart, with paddings of their own.
abbrev first_sending : Planned
first_sending = record {
  segment = data_segment 3;
  sent = 1000;
  received = 1001;
  fresh = nonce;
  padding1 = padding;
  padding2 = [];
  half_mask = 0;
}

abbrev second_sending : Planned
second_sending = record first_sending {
  segment = data_segment 4;
  sent = 1001;
  padding1 = [];
  padding2 = padding;
}

near_too : within_range 32 1001 1001 1 ≡ true
unfolding within_range
near_too = refl

first-Drawn : Drawn transparent plain one_user dirty first_sending
first-Drawn = record {
  sendable = fits 3 (omega arith);
  nonce = refl;
  small1 = omega arith;
  small2 = omega arith;
  clock = omega arith;
  near = near;
}

second-Drawn : Drawn transparent plain one_user dirty second_sending
second-Drawn = record {
  sendable = fits 4 (omega arith);
  nonce = refl;
  small1 = omega arith;
  small2 = omega arith;
  clock = omega arith;
  near = near_too;
}

segments_in_order_example :
    let ws = first_sending ∷ second_sending ∷ [] in
    (u' : StreamUnderlay) × (v' : StreamUnderlay) × (bs : List ℕ) × (write_all transparent plain
        one_user dirty ws client
      ≡ ok (u', bs))
    × ((more : List ℕ)
        → read_all transparent plain one_user dirty ws new_server (bs ++ more)
          ≡ ok (v', as_received transparent plain one_user dirty ws, more))
    × Connected transparent plain one_user dirty u' v'
segments_in_order_example =
    segments_in_order transparent plain one_user dirty dirty_sized
      (first_sending ∷ second_sending ∷ []) client new_server connected
      (first-Drawn, (second-Drawn, tt))

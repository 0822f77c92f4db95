-- ===== src/Protocol/Session/Examples.antt =====
-- Sessions over the list tree, with a fixed congestion window.
use mieru.Common.{length, All, ℕ, ◌+◌, ◌<◌, ◌≡◌, refl, ◌⊎◌, false, none, List, [], ◌∷◌, arith, ok}
use mieru.Protocol.Metadata.{
  session, data_ack, DataAckStruct, data_client_to_server, ack_server_to_client,
}
use mieru.Protocol.Segment.{seq_of, Segment, packet_transport}
use mieru.Protocol.Segment.ListTree.{list_tree}
use mieru.Protocol.Segment.Tree.{new_segment_tree, SegmentTree, contents, min_seq}
use mieru.Protocol.Session.{Session, Congestion, new_session, segment_tree_capacity}
use mieru.Protocol.Session.Receive.{done, move_recv_buf_to_recv_queue, input_ack}
use mieru.Protocol.Session.Receive.Acks.{input_ack_packet, counted, unacked}
use mieru.Protocol.Session.Read.{read}
use mieru.Protocol.Session.Read.Stream.{read_delivers, ready}
use mieru.Protocol.Session.Send.{
  new_segment, wait_moving, seq_or_zero, write_chunk, low_entropy_send_config, mode_of,
}
use mieru.Protocol.Session.Send.Chunk.{write_chunk_lem}
use mieru.Protocol.Session.Send.Fragments.{Wrote, Sending, CanEncode}
use mieru.Protocol.Segment.FragmentSize.{max_fragment_size}
use mieru.Protocol.Session.Receive.InOrder.{Receiving, Moved, move_in_order}
use mieru.Protocol.Session.Receive.Packet.{SameReceive}

abbrev pub fixed_window : Congestion
fixed_window = record {
  Rtt = ℕ;
  new_rtt = 0;
  update_rtt = λ sample r. sample;
  rto = λ r. r + 1000;
  Cubic = ℕ;
  new_cubic = 16;
  on_ack = λ now w. w + 1;
  on_loss = λ now w. w;
  on_timeout = λ w. 16;
  congestion_window_size = λ w. w;
}

-- The data segment number `n` with the payload `n`.
abbrev pub data_segment : ℕ → Segment
data_segment n = record {
  metadata = data_ack (record {
    base_struct = record { protocol = data_client_to_server; timestamp = 0 };
    low_entropy_mode = 0;
    session_id = 7;
    seq = n;
    un_ack_seq = 0;
    window_size = 100;
    fragment = 0;
    prefix_len = 0;
    payload_len = 1;
    suffix_len = 0;
    low_entropy_mask = 0;
    extracted_payload_len = 0;
    low_entropy_mask_rotation = 0;
  });
  payload = n ∷ [];
  ack_count = 0;
  tx_count = 0;
  tx_time = 0;
  tx_timeout = 0;
}

abbrev pub tree_of : List Segment → SegmentTree list_tree
tree_of xs = record (new_segment_tree list_tree 4096) { tr = xs }

unfoldable pub fresh : Session list_tree fixed_window
unfolding new_session
fresh = new_session list_tree fixed_window 7 false 1400 packet_transport none 5 1000

-- Segment 0 is queued, 1 is missing, and 2 waits for it.
abbrev waiting : Session list_tree fixed_window
waiting = record fresh {
  state = 2;
  next_recv = 1;
  recv_queue = tree_of (data_segment 0 ∷ []);
  recv_buf = tree_of (data_segment 2 ∷ []);
}

waiting-Receiving : Receiving list_tree fixed_window 0 waiting
waiting-Receiving = record {
  queue = (refl, refl);
  bounded = omega arith;
  capacity = refl;
  buf_capacity = refl;
}

move_in_order_example :
    (s' : Session list_tree fixed_window) × (move_recv_buf_to_recv_queue list_tree fixed_window
        waiting
      ≡ done s')
    × Moved list_tree fixed_window 0 waiting s'
    × ((length (contents list_tree s'.recv_queue) ≡ segment_tree_capacity)
        ⊎ All (λ x. s'.next_recv < seq_of x) (contents list_tree s'.recv_buf))
move_in_order_example =
    move_in_order list_tree fixed_window 0 waiting waiting-Receiving (omega arith) (tt, tt)

-- An open request with the number that is missing
abbrev open_request : Segment
open_request =
    new_segment
      (session (record {
        base_struct = record { protocol = 2; timestamp = 0 };
        session_id = 5;
        seq = 1;
        status_code = 0;
        payload_len = 0;
        suffix_len = 0;
      }))
      []

-- The session of a server that waits for the open request
abbrev attached : Session list_tree fixed_window
attached = record waiting { is_client = false; state = 1 }

-- Segments 3 and 4 have been sent and wait for their acknowledgement.
abbrev pub sent_two : Session list_tree fixed_window
sent_two = record waiting {
  next_send = 5;
  send_buf = tree_of (data_segment 3 ∷ data_segment 4 ∷ []);
}

abbrev ack_of_four : DataAckStruct
ack_of_four = record {
  base_struct = record { protocol = ack_server_to_client; timestamp = 0 };
  low_entropy_mode = 0;
  session_id = 7;
  seq = 0;
  un_ack_seq = 4;
  window_size = 90;
  fragment = 0;
  prefix_len = 0;
  payload_len = 0;
  suffix_len = 0;
  low_entropy_mask = 0;
  extracted_payload_len = 0;
  low_entropy_mask_rotation = 0;
}

input_ack_packet_example :
    (s' : Session list_tree fixed_window) × (input_ack list_tree fixed_window 9 ack_of_four sent_two
      ≡ done s')
    × (s'.send_buf.tr ≡ counted 4 (unacked 4 (data_segment 3 ∷ data_segment 4 ∷ [])))
    × (s'.remote_window_size ≡ 90)
    × SameReceive list_tree fixed_window sent_two s'
unfolding fresh
input_ack_packet_example =
    input_ack_packet list_tree fixed_window 9 ack_of_four sent_two refl
      ((omega arith, tt), (tt, tt))

waiting-Sending : Sending list_tree fixed_window 0 waiting
unfolding fresh
waiting-Sending = record { queue = refl; is_open = refl; no_err = refl }

waiting_encodes :
    CanEncode list_tree fixed_window waiting
      (low_entropy_send_config list_tree fixed_window waiting)
unfolding fresh low_entropy_send_config
waiting_encodes = tt

waiting_size :
    max_fragment_size waiting.mtu waiting.transport
      (mode_of (low_entropy_send_config list_tree fixed_window waiting))
    ≡ ok 1312
unfolding fresh low_entropy_send_config max_fragment_size
waiting_size = refl

-- A session with a fragment size of 1400 - 88 = 1312 bytes writes four bytes.
-- While it waits, its segment and the one before it are sent.
abbrev draining : List (Session list_tree fixed_window → Session list_tree fixed_window)
draining = (λ s. s) ∷ (λ s. record s { send_queue = tree_of [] }) ∷ []

write_chunk_lem_example :
    (s' : Session list_tree fixed_window) × (t : Session list_tree fixed_window) × Wrote list_tree
      fixed_window 0 1312 1
      (1 ∷ 2 ∷ 3 ∷ 4 ∷ [])
      waiting
      s'
    × (wait_moving list_tree fixed_window draining
          (seq_or_zero list_tree fixed_window (min_seq list_tree waiting.send_queue))
          s'
        ≡ ok t)
    × (write_chunk list_tree fixed_window draining (1 ∷ 2 ∷ 3 ∷ 4 ∷ []) waiting ≡ ok (4, t))
unfolding fresh
write_chunk_lem_example =
    write_chunk_lem list_tree fixed_window draining 0 1312 (1 ∷ 2 ∷ 3 ∷ 4 ∷ []) waiting (λ t. refl)
      waiting-Sending waiting_encodes waiting_size (omega arith) (omega arith) (omega arith)
      (omega arith) (omega arith)

-- One unread byte and the byte of the queued segment are read into a buffer of five bytes.
abbrev readable : Session list_tree fixed_window
readable = record waiting { unread_buf = 6 ∷ [] }

read_delivers_example :
    (s' : Session list_tree fixed_window) × (read list_tree fixed_window 5 readable
      ≡ ok (6 ∷ 0 ∷ [], s'))
    × (ready list_tree fixed_window s' ≡ [])
read_delivers_example = read_delivers list_tree fixed_window 5 readable (omega arith) (omega arith)

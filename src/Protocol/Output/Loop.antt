-- ===== src/Protocol/Output/Loop.antt =====
-- `runOutputOncePacket` and `nextPacketOutputDelay`: retransmission, new segments, acknowledgements
-- and heartbeats. `backoff` is the floating point computation of a timeout from the round-trip
-- timeout and the number of transmissions, in microseconds.
pub mod Resend
pub mod Due
pub mod Handed
pub mod Place
pub mod Queue
pub mod Failed
pub mod Enough
pub mod Packet
use mieru.Common.{
  ℕ, zero, suc, ◌+◌, ◌-◌, ◌*◌, ◌%◌, ◌^◌, Bool, true, false, not, ◌&&◌, ◌||◌, Option, none, some,
  List, leb, ltb, ◌==◌, if◌then◌else◌,
}
use mieru.Mathext.Numbers.{min_num}
use mieru.Protocol.Metadata.{
  Metadata, session, data_ack, is_data_ack_protocol, is_data_protocol, ack_client_to_server,
  ack_server_to_client,
}
use mieru.Protocol.Segment.{Segment, BTree, protocol_of}
use mieru.Protocol.Segment.Tree.{SegmentTree, len, remaining, insert, delete_min_if, ascend_with}
use mieru.Protocol.Session.{
  Session, Congestion, send_window_size, receive_window_size, is_client_packet_session_opening,
}
use mieru.Protocol.Output.{Delivery, Log, Link, output, close_with_error, fail_output, set_session}
use mieru.Protocol.Session.Send.{new_segment}

abbrev pub tx_count_limit : ℕ
tx_count_limit = 20

abbrev pub early_retransmission : ℕ
early_retransmission = 3

abbrev pub early_retransmission_limit : ℕ
early_retransmission_limit = 1

-- The durations are in microseconds.
abbrev pub max_back_off_duration : ℕ
max_back_off_duration = 10000000

abbrev pub retransmission_check_delay : ℕ
retransmission_check_delay = 10000

abbrev pub min_output_interval : ℕ
min_output_interval = 1000

abbrev pub session_heartbeat_interval : ℕ
session_heartbeat_interval = 5000000

abbrev pub session_heartbeat_jitter_ms : ℕ
session_heartbeat_jitter_ms = 1000

-- `das.unAckSeq = …` on a data or ack segment
abbrev pub set_un_ack : ℕ → Metadata → Metadata
set_un_ack un_ack_seq (session ss) = session ss
set_un_ack un_ack_seq (data_ack das) = data_ack (record das { un_ack_seq = un_ack_seq })

-- The earliest deadline so far; `none` is `math.MaxInt64`.
abbrev pub earlier : Option ℕ → ℕ → Option ℕ
earlier none t = some t
earlier (some s) t = some (min_num s t)

module _ (bt : BTree) (cc : Congestion) (write_one_segment : ℕ → Log → Segment → Delivery)
    (backoff : ℕ → ℕ → ℕ) where
  abbrev pub PacketLink : Type 0
  PacketLink = Link bt cc write_one_segment

  -- A segment at its transmission: its count, its time, its timeout, and what is acknowledged.
  abbrev pub stamp_segment : ℕ → Session bt cc → Segment → Segment
  stamp_segment now s seg =
      let tx_count = (seg.tx_count + 1) % 2 ^ 8 in
      record seg {
        metadata =
            if is_data_ack_protocol (protocol_of seg)
            then set_un_ack s.next_recv seg.metadata
            else seg.metadata;
        tx_count = tx_count;
        tx_time = now;
        tx_timeout = min_num (backoff (cc.rto s.rtt_stat) tx_count) max_back_off_duration;
      }

  -- The variables of `runOutputOncePacket` that the iterator of `Ascend` writes.
  pub record Pass : Type 0 where
    pub link : PacketLink
    pub next_tx : Option ℕ
    pub close_reason : Bool
    pub has_loss : Bool
    pub has_timeout : Bool
    pub count : ℕ

  abbrev pub is_early : Segment → Bool
  is_early seg =
      leb early_retransmission seg.ack_count && leb seg.tx_count early_retransmission_limit

  abbrev pub stop : PacketLink → Pass → Pass
  stop l p = record p { link = fail_output bt cc write_one_segment l; close_reason = true }

  -- The iterator: what happens to one segment of `sendBuf`
  unfoldable pub resend : ℕ → Pass → Segment → Pass × Segment × Bool
  resend now p seg =
      let early = is_early seg in
      let seg' = record (stamp_segment now p.link.session seg) { ack_count = 0 } in
      let (ok, l) = output bt cc write_one_segment now seg' p.link in
      let p' = record p {
        has_loss = p.has_loss || early;
        has_timeout = p.has_timeout || not early;
      } in
      if leb tx_count_limit seg.tx_count
      then (stop p.link p, seg, false)
      else if early || leb (seg.tx_time + seg.tx_timeout) now
      then if ok
        then (
          record p' {
            link = l;
            count = p.count + 1;
            next_tx = earlier p.next_tx (seg'.tx_time + seg'.tx_timeout);
          },
          seg',
          true,
        )
        else (stop l p', seg', false)
      else (record p { next_tx = earlier p.next_tx (seg.tx_time + seg.tx_timeout) }, seg, true)

  abbrev pub store_next : Option ℕ → Session bt cc → Session bt cc
  store_next none s = s
  store_next (some t) s = record s { next_retransmission_time = t }

  abbrev pub first_pass : PacketLink → Pass
  first_pass l = record {
    link = l;
    next_tx = none;
    close_reason = false;
    has_loss = false;
    has_timeout = false;
    count = 0;
  }

  -- The pass over `sendBuf`, with the tree that it has written
  unfoldable pub resend_pass : ℕ → PacketLink → Pass
  resend_pass now l =
      let (p, buf) = ascend_with bt Pass (resend now) (first_pass l) l.session.send_buf in
      record p {
        link =
            set_session bt cc write_one_segment
              (store_next p.next_tx (record p.link.session { send_buf = buf })) p.link;
      }

  abbrev pub congested : Bool → Bool → ℕ → Session bt cc → Session bt cc
  congested timeout loss now s =
      if timeout
      then record s { cubic_send_algorithm = cc.on_timeout s.cubic_send_algorithm }
      else if loss
      then record s { cubic_send_algorithm = cc.on_loss now s.cubic_send_algorithm }
      else s

  -- The first part: whatever is due is sent again.
  unfoldable pub resend_due : ℕ → PacketLink → ℕ × PacketLink
  resend_due now l =
      let p = resend_pass now l in
      let closed =
        if p.close_reason then close_with_error bt cc write_one_segment now p.link else p.link in
      if ltb 0 (len bt l.session.send_buf) && leb l.session.next_retransmission_time now
      then (
        p.count,
        set_session bt cc write_one_segment (congested p.has_timeout p.has_loss now closed.session)
            closed,
      )
      else (0, l)

  -- `shouldDeferNextPacketData`, whose iterator looks at the first segment only
  abbrev pub should_defer_next_packet_data : Session bt cc → Bool
  should_defer_next_packet_data s =
      is_client_packet_session_opening bt cc s
      && (ascend_with bt Bool (λ defer seg. (is_data_protocol (protocol_of seg), seg, false)) false
          s.send_queue).0

  -- When the retransmission of a new segment is checked first
  abbrev pub schedule : Segment → Session bt cc → Session bt cc
  schedule seg s =
      let deadline = seg.tx_time + seg.tx_timeout in
      if len bt s.send_buf == 0
      then record s {
        next_retransmission_time = min_num deadline (seg.tx_time + retransmission_check_delay);
      }
      else if ltb deadline s.next_retransmission_time
      then record s { next_retransmission_time = deadline }
      else s

  -- A new segment goes to `sendBuf` …
  unfoldable pub place : Segment → PacketLink → Bool × PacketLink
  place seg l =
      let s = schedule seg l.session in
      let (inserted, buf) = insert bt s.send_buf seg in
      (inserted, set_session bt cc write_one_segment (record s { send_buf = buf }) l)

  -- … and to the underlay; `false` if the loop ends in an error.
  abbrev pub placed : ℕ → Segment → Bool × PacketLink → Bool × PacketLink
  placed now seg (false, l) =
      (false, close_with_error bt cc write_one_segment now (fail_output bt cc write_one_segment l))
  placed now seg (true, l) =
      let (ok, l') = output bt cc write_one_segment now seg l in
      if ok then (true, l') else (
        false,
        close_with_error bt cc write_one_segment now (fail_output bt cc write_one_segment l'),
      )

  unfoldable pub send_new : ℕ → Segment → PacketLink → Bool × PacketLink
  send_new now seg l = let seg' = stamp_segment now l.session seg in placed now seg' (place seg' l)

  -- The loop over `sendQueue`, on fuel; each round but the last takes a segment out of the queue.
  unfoldable pub send_loop : ℕ → ℕ → ℕ → PacketLink → PacketLink
  send_loop zero now count l = l
  send_loop (suc fuel) now count l =
      let (r, queue) =
        delete_min_if bt l.session.send_queue
          (λ seg. ltb count (send_window_size bt cc l.session)) in
      let l' = set_session bt cc write_one_segment (record l.session { send_queue = queue }) l in
      let round : PacketLink = elim r [
        | none ↦ l'
        | some (seg, deleted) ↦
            let (ok, sent) = send_new now seg l' in
            let rest = send_loop fuel now (count + 1) sent in
            if not deleted then l' else if ok then rest else sent
      ] in
      if leb (remaining bt l.session.send_buf) 1
      then l
      else if should_defer_next_packet_data l.session
      then l
      else round

  unfoldable pub send_queued : ℕ → ℕ → PacketLink → PacketLink
  send_queued now count l =
      let run = send_loop (suc (len bt l.session.send_queue)) now count l in
      if ltb 0 (len bt l.session.send_queue) && ltb 0 (send_window_size bt cc l.session)
      then run
      else l

  -- `sessionHeartbeatInterval + s.heartbeatJitter`
  abbrev pub jittered_interval : Session bt cc → ℕ
  jittered_interval s =
      session_heartbeat_interval + s.heartbeat_jitter * 1000 - session_heartbeat_jitter_ms * 1000

  abbrev pub ack_segment : Session bt cc → Segment
  ack_segment s =
      new_segment
        (data_ack (record {
          base_struct = record {
            protocol = if s.is_client then ack_client_to_server else ack_server_to_client;
            timestamp = 0;
          };
          low_entropy_mode = 0;
          session_id = s.id;
          seq = s.next_send - 1;
          un_ack_seq = s.next_recv;
          window_size = receive_window_size bt cc s % 2 ^ 16;
          fragment = 0;
          prefix_len = 0;
          payload_len = 0;
          suffix_len = 0;
          low_entropy_mask = 0;
          extracted_payload_len = 0;
          low_entropy_mask_rotation = 0;
        }))
        List.[]

  -- The last part; `jitter` is the next random jitter.
  unfoldable pub send_ack : ℕ → ℕ → PacketLink → PacketLink
  send_ack now jitter l =
      let s = record l.session { ack_on_data_recv = false } in
      let (ok, sent) =
        output bt cc write_one_segment now (ack_segment s)
          (set_session bt cc write_one_segment s l) in
      let after =
        if ok
        then sent
        else close_with_error bt cc write_one_segment now
            (fail_output bt cc write_one_segment sent) in
      let due = l.session.ack_on_data_recv && leb l.session.ack_deadline now in
      let heartbeat = ltb (l.session.last_tx_time + jittered_interval l.session) now in
      if not (is_client_packet_session_opening bt cc l.session) && (due || heartbeat)
      then set_session bt cc write_one_segment (record after.session { heartbeat_jitter = jitter })
          after
      else l

  unfoldable pub run_output_once_packet : ℕ → ℕ → PacketLink → PacketLink
  run_output_once_packet now jitter l =
      let (count, resent) = resend_due now l in
      if l.session.output_has_err then l else send_ack now jitter (send_queued now count resent)

  -- `nextPacketOutputDelay`
  abbrev pub earliest_if : Bool → ℕ → Option ℕ → Option ℕ
  earliest_if test t next = if test then earlier next t else next

  abbrev pub delay_until : ℕ → Option ℕ → ℕ
  delay_until now none = session_heartbeat_interval
  delay_until now (some t) = if leb t now then min_output_interval else t - now

  unfoldable pub next_packet_output_delay : ℕ → Session bt cc → ℕ
  next_packet_output_delay now s =
      let opening = is_client_packet_session_opening bt cc s in
      let next = earliest_if (ltb 0 (len bt s.send_buf)) s.next_retransmission_time none in
      let next = earliest_if (not opening && s.ack_on_data_recv) s.ack_deadline next in
      delay_until now (earliest_if (not opening) (s.last_tx_time + jittered_interval s) next)

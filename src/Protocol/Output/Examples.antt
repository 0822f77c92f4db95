-- ===== src/Protocol/Output/Examples.antt =====
-- Sessions whose underlay takes every segment.
use mieru.Common.{◌≡◌, ℕ, ◌+◌, ◌*◌, ◌≤◌, refl, ◌⊎◌, List, [], ◌∷◌, arith, All}
use mieru.Mathext.Numbers.{max_num}
use mieru.Protocol.Segment.{Segment, stream_transport}
use mieru.Protocol.Segment.ListTree.{list_tree}
use mieru.Protocol.Segment.Tree.{contents}
use mieru.Protocol.Session.{Session}
use mieru.Protocol.Session.Examples.{fixed_window, data_segment, tree_of, sent_two, fresh}
use mieru.Protocol.Output.{Delivery, delivered, Log, Link}
use mieru.Protocol.Output.Stream.{run_output_once_stream}
use mieru.Protocol.Output.Stream.Order.{AllSent, SentUntil, run_output_once_stream_lem}
use mieru.Protocol.Output.Loop.Handed.{IsServed, due_handed_over}
use mieru.Protocol.Output.Loop.{
  resend_due, run_output_once_packet, next_packet_output_delay, min_output_interval,
}
use mieru.Protocol.Output.Loop.Resend.{deadline}
use mieru.Protocol.Output.Loop.Due.{HasFailed}
use mieru.Protocol.Output.Loop.Queue.{Flowing}
use mieru.Protocol.Output.Loop.Packet.{run_output_once_packet_lem, wakes_in_time}

abbrev take_all : ℕ → Log → Segment → Delivery
take_all now log seg = delivered

abbrev linear : ℕ → ℕ → ℕ
linear rto n = rto * n

-- 3 and 4 wait for their acknowledgement, and 5 is queued.
abbrev busy : Session list_tree fixed_window
busy = record sent_two { next_send = 6; send_queue = tree_of (data_segment 5 ∷ []) }

abbrev numbers : List (ℕ × List ℕ)
numbers = (3, 3 ∷ []) ∷ (4, 4 ∷ []) ∷ (5, 5 ∷ []) ∷ []

abbrev busy_link : Link list_tree fixed_window take_all
busy_link = record { session = busy; log = [] }

busy-Flowing : Flowing list_tree fixed_window take_all linear 3 numbers busy
unfolding fresh
busy-Flowing = record {
  covered = (omega arith, (omega arith, tt));
  order = (refl, (refl, (refl, refl)));
  same = refl;
}

run_output_once_packet_lem_example :
    let l = run_output_once_packet list_tree fixed_window take_all linear 2000000 800 busy_link in
    HasFailed list_tree fixed_window take_all l
    ⊎ Flowing list_tree fixed_window take_all linear 3 numbers l.session
run_output_once_packet_lem_example =
    run_output_once_packet_lem list_tree fixed_window take_all linear 2000000 800 3 numbers
      busy_link busy-Flowing

due_handed_over_example :
    let l = (resend_due list_tree fixed_window take_all linear 2000000 busy_link).1 in
    HasFailed list_tree fixed_window take_all l
    ⊎ ((handed : Log) × (l.log ≡ handed)
        × All (IsServed 2000000 handed) (contents list_tree busy.send_buf))
due_handed_over_example =
    due_handed_over list_tree fixed_window take_all linear 2000000 busy_link busy-Flowing.covered

wakes_in_time_example :
    All
      (λ (seg : Segment).
        2000000 + next_packet_output_delay list_tree fixed_window take_all linear 2000000 busy
        ≤ max_num (2000000 + min_output_interval) (deadline seg))
      (contents list_tree busy.send_buf)
wakes_in_time_example =
    wakes_in_time list_tree fixed_window take_all linear 2000000 busy busy-Flowing.covered

abbrev stream_link : Link list_tree fixed_window take_all
stream_link = record {
  session = record fresh {
    state = 2;
    transport = stream_transport;
    send_queue = tree_of (data_segment 0 ∷ data_segment 1 ∷ []);
  };
  log = [];
}

run_output_once_stream_lem_example :
    let l = run_output_once_stream list_tree fixed_window take_all 9 stream_link in
    let queued = data_segment 0 ∷ data_segment 1 ∷ [] in
    AllSent list_tree fixed_window take_all stream_link queued l
    ⊎ (HasFailed list_tree fixed_window take_all l
        × SentUntil list_tree fixed_window take_all stream_link queued l)
unfolding fresh
run_output_once_stream_lem_example =
    run_output_once_stream_lem list_tree fixed_window take_all 9 stream_link refl refl

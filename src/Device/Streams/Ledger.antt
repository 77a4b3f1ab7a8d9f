-- ===== src/Device/Streams/Ledger.antt =====
-- The data path as a run of the assembler: any datagrams, and the frames that are delivered.
use mathlib.Core.List.{append-nil, append_assoc}
use livox_mid360_core.Session.Types.{count_up}
use livox_mid360_core.Prelude.{
  ℕ, ◌+◌, ◌<◌, ◌≡◌, ◌∙◌, refl, sym, ap, subst, ◌&&◌, leb, Bool-cases, true, inl, inr, List, [], ◌∷◌,
  ◌++◌, length, Option, Result, ok, err, fault, ◌>>=◌, arith, Safe, length-append,
}
use livox_mid360_core.Protocol.Types.{ParseError, imu, DataPacketView}
use livox_mid360_core.Protocol.DataPacket.{parse_data_packet, same_type}
use livox_mid360_core.Protocol.DataPacket.Parse.{IsPacketOf, parse_data_packet-Safe}
use livox_mid360_core.Protocol.DataPacket.Samples.{
  DecodesAt, parse_data_packet-DecodesAt, same_type-eq,
}
use livox_mid360_core.FrameAssembler.Points.{Floats, Frame}
use livox_mid360_core.FrameAssembler.Points.Adding.{IsParsed}
use livox_mid360_core.FrameAssembler.State.{Assembler, FramePolicy, has_partial}
use livox_mid360_core.FrameAssembler.Push.Runs.{
  push_packet, flush_frame, IsLedger, Numbered, points_in, Books, step-Books,
}
use livox_mid360_core.Transport.{Endpoint}
use livox_mid360_core.Device.Streams.{
  Streams, Requests, Output, packet_out, debug_out, StreamOptions, new_streams, consume_requests,
  deliver, on_debug_data, close_idle, on_points, on_packet, on_data, Input, receives_data,
  receives_debug, wakes, handle, handle_all,
}
use livox_mid360_core.Device.Streams.Kept.{
  frames_of, frames_of-append, Kept, silent, consume-IsLedger, delivered, framed, on_imu-Kept,
  points_in-append, choose,
}

module _ (fl : Floats) (options : StreamOptions) where
  open fl use {Float}

  booked :
      (s : Streams Float) (points frames : ℕ)
      (r : Result ParseError (Assembler Float × Option (Frame Float)))
      → Books fl points frames r
      → Kept points frames (r >>= λ x. ok (deliver s x))
  booked s points frames r (a, out, e, v, n) =
      subst (Kept points frames) (sym (ap (λ r. r >>= λ x. ok (deliver s x)) e))
        (delivered s a out points frames v n)

  close_idle-Kept :
      (now : ℕ) (s : Streams Float) (points frames : ℕ)
      → IsLedger s.assembler points frames
      → Kept points frames (ok (close_idle now s))
  unfolding close_idle
  close_idle-Kept now s points frames v =
      elim (Bool-cases (has_partial s.assembler && leb (s.last_point_packet + s.idle_window) now)) [
        | inl late ↦
            rw late
              (booked s points frames _ (step-Books fl s.assembler flush_frame points frames tt v))
        | inr fine ↦ rw fine (silent points frames s [] refl v)
      ]

  on_points-Kept :
      (pkt : DataPacketView) (recv_time now : ℕ) (s : Streams Float) (points frames : ℕ)
      → IsParsed pkt
      → IsLedger s.assembler points frames
      → Kept points frames (on_points fl options pkt recv_time now s)
  unfolding on_points
  on_points-Kept pkt recv_time now s points frames parsed v =
      booked (record s { last_point_packet = now }) points frames _
        (step-Books fl s.assembler (push_packet pkt recv_time) points frames parsed v)

  on_packet-Kept :
      (requests : Requests) (pkt : DataPacketView) (from : Endpoint) (recv_time now : ℕ)
      (s : Streams Float) (points frames : ℕ)
      → IsParsed pkt
      → IsLedger s.assembler points frames
      → Kept points frames (on_packet fl options requests pkt from recv_time now s)
  unfolding on_packet
  on_packet-Kept requests pkt from recv_time now s points frames parsed v =
      let s' : Streams Float = record s {
        packets = count_up s.packets;
        last_packet_time_ns = recv_time;
      } in
      let v' = consume-IsLedger requests s' points frames v in
      framed points frames _ (packet_out pkt recv_time from) refl (
        choose points frames (same_type pkt.header.data_type imu) _ _
          (λ is_imu.
            on_imu-Kept options.timestamps pkt recv_time _ points frames (samples pkt parsed is_imu)
              v')
          (λ other.
            on_points-Kept pkt recv_time now (consume_requests requests s') points frames parsed
              v'))
    where
      samples :
          (pkt : DataPacketView)
          → IsParsed pkt
          → same_type pkt.header.data_type imu ≡ true
          → (k : ℕ) → k < pkt.header.dot_num
          → DecodesAt imu pkt k
      samples pkt (packet, verify, e) is_imu k below =
          subst (λ t. DecodesAt t pkt k) (same_type-eq pkt.header.data_type imu is_imu)
            (parse_data_packet-DecodesAt packet verify pkt k e below)

  -- The parser's result on any bytes.
  on_data-Kept :
      (requests : Requests) (bytes : List ℕ) (from : Endpoint) (recv_time now : ℕ)
      (s : Streams Float) (points frames : ℕ)
      → IsLedger s.assembler points frames
      → Kept points frames (on_data fl options requests bytes from recv_time now s)
  unfolding on_data
  on_data-Kept requests bytes from recv_time now s points frames v =
      by_result (parse_data_packet bytes options.verify_crc) refl
        (parse_data_packet-Safe bytes options.verify_crc)
    where
      by_result :
          (r : Result ParseError DataPacketView)
          → parse_data_packet bytes options.verify_crc ≡ r
          → Safe (IsPacketOf bytes) r
          → Kept points frames (elim r [
            | ok pkt ↦ on_packet fl options requests pkt from recv_time now s
            | err e ↦ ok (record s { bad_packets = count_up s.bad_packets }, [])
            | fault ↦ fault
          ])
      by_result (ok pkt) e safe =
          on_packet-Kept requests pkt from recv_time now s points frames
            (bytes, options.verify_crc, e) v
      by_result (err x) e safe = silent points frames _ [] refl v
      by_result fault e safe = elim safe [ ]

  handle-Kept :
      (i : Input) (s : Streams Float) (points frames : ℕ)
      → IsLedger s.assembler points frames
      → Kept points frames (handle fl options i s)
  unfolding handle on_debug_data
  handle-Kept (receives_data requests bytes from recv_time now) s points frames v =
      on_data-Kept requests bytes from recv_time now s points frames v
  handle-Kept (receives_debug bytes from recv_time) s points frames v =
      silent points frames _ (debug_out bytes recv_time from ∷ []) refl v
  handle-Kept (wakes requests now) s points frames v =
      close_idle-Kept now (consume_requests requests s) points frames
        (consume-IsLedger requests s points frames v)

  handle_all-Kept :
      (is : List Input) (s : Streams Float) (points frames : ℕ)
      → IsLedger s.assembler points frames
      → Kept points frames (handle_all fl options is s)
  unfolding handle_all
  handle_all-Kept [] s points frames v = silent points frames s [] refl v
  handle_all-Kept (i ∷ is) s points frames v =
      let (s₁, outs, e, v₁, n) = handle-Kept i s points frames v in
      let (s₂, rest, er, v₂, m) =
        handle_all-Kept is s₁ (points + points_in (frames_of outs))
          (frames + length (frames_of outs)) v₁ in
      let split = frames_of-append outs rest in
      let size : length (frames_of (outs ++ rest))
          ≡ length (frames_of outs) + length (frames_of rest) =
        ap length split ∙ length-append (frames_of outs) (frames_of rest) in
      let held : points_in (frames_of (outs ++ rest))
          ≡ points_in (frames_of outs) + points_in (frames_of rest) =
        ap points_in split ∙ points_in-append (frames_of outs) (frames_of rest) in
      (
        s₂,
        outs ++ rest,
        rw (e, er) refl,
        record {
          point_count = omega (arith, v₂.point_count, held);
          frame_count = omega (arith, v₂.frame_count, size);
          index = omega (arith, v₂.index, size);
        },
        λ later h.
            subst (Numbered frames)
              (sym (append_assoc (frames_of outs) (frames_of rest) later)
                ∙ ap (λ fs. fs ++ later) (sym split))
              (n (frames_of rest ++ later)
                (m later (subst (λ k. Numbered k later) (omega (arith, size)) h))),
      )

  -- Whatever datagrams the data ports of a device that was opened receive, and however wake-ups and
  -- requests to discard, to rebase and to change the policy come in between: nothing outside a datagram
  -- is read and every input is handled; the frames for the callback are numbered from 0 on and none is
  -- empty; and the assembler's counters are, modulo their range, the frames delivered, and their points
  -- with those of the open frame.
  pub handle_all-IsLedger :
      (policy : FramePolicy) (is : List Input)
      → (s : Streams Float) × (outs : List (Output Float)) × (handle_all fl options is
            (new_streams policy options.timestamps)
          ≡ ok (s, outs))
        × IsLedger s.assembler (points_in (frames_of outs)) (length (frames_of outs))
        × Numbered 0 (frames_of outs)
  handle_all-IsLedger policy is =
      let (s, outs, e, v, n) =
        handle_all-Kept is (new_streams policy options.timestamps) 0 0
          (record { point_count = refl; frame_count = refl; index = refl }) in
      (
        s,
        outs,
        e,
        record {
          point_count = omega (arith, v.point_count);
          frame_count = omega (arith, v.frame_count);
          index = omega (arith, v.index);
        },
        subst (Numbered 0) (append-nil (frames_of outs)) (n [] tt),
      )

-- ===== src/Session/Commands/Inquire.antt =====
-- An inquiry that the LiDAR answers.
use livox_mid360_core.Prelude.{
  ℕ, ◌^◌, ◌≤◌, ◌<◌, ◌≡◌, refl, ap, ◌∙◌, List, ◌∷◌, ◌++◌, length, Option, none, some, ok, arith,
}
use livox_mid360_core.Bytes.{All, le_bytes}
use livox_mid360_core.Protocol.Types.{
  CommandFrameSpec, KeyValue, cmd_param_inquire, cmd_type_ack, sender_lidar, ret_success,
}
use livox_mid360_core.Protocol.CommandFrame.Encode.{frame_wire}
use livox_mid360_core.Protocol.CommandFrame.RoundTrip.{view_of, parse_command_frame-frame_wire}
use livox_mid360_core.Protocol.CommandFrame.{parse_command_frame}
use livox_mid360_core.Protocol.KeyValues.Append.{list_wire}
use livox_mid360_core.Protocol.KeyValues.RoundTrip.{IsEntry}
use livox_mid360_core.Protocol.KeyValues.Keys.{
  keys_wire, length-keys_wire, encode_param_inquire_request_lem,
}
use livox_mid360_core.Protocol.Acks.Lists.{parse_param_inquire_ack-list_wire}
use livox_mid360_core.Transport.{Datagram}
use livox_mid360_core.Session.Types.{RawAck}
use livox_mid360_core.Session.Acks.{to_inquire_result}
use livox_mid360_core.Session.Request.{Attempt, Session, Call, request, attempts_of}
use livox_mid360_core.Session.Request.Answers.{
  IsAck, IsAck-match_ack, first_answer, first_answer-append,
}
use livox_mid360_core.Session.Request.Quiet.{IsQuiet, heard_in, request-first_answer}
use livox_mid360_core.Session.Commands.{and_then, inquire}

-- The data of an acknowledgement that carries these values.
abbrev pub values_payload : List KeyValue → List ℕ
values_payload kvs = ret_success ∷ (le_bytes 2 (length kvs) ++ list_wire kvs)

-- The acknowledgement of request `seq`.
abbrev pub values_ack : ℕ → List KeyValue → CommandFrameSpec
values_ack seq kvs = record {
  seq_num = seq;
  cmd_id = cmd_param_inquire;
  cmd_type = cmd_type_ack;
  sender_type = sender_lidar;
  payload = values_payload kvs;
}

module _ (seq : ℕ) (kvs : List KeyValue) (ip : List ℕ) (d : Datagram) (in_range : seq < 2 ^ 32)
    (small : length (values_payload kvs) ≤ 1376) (sent : d.bytes ≡ frame_wire (values_ack seq kvs))
    (from : d.from.ip ≡ ip) where
  pub values_ack-IsAck :
      IsAck seq cmd_param_inquire ip d.bytes d.from (view_of (values_ack seq kvs))
  values_ack-IsAck = record {
    parsed =
        ap parse_command_frame sent
        ∙ parse_command_frame-frame_wire (values_ack seq kvs)
            (record {
              seq_num = in_range;
              cmd_id = omega arith;
              cmd_type = omega arith;
              sender_type = omega arith;
            })
            small;
    is_ack = refl;
    same_seq = refl;
    same_cmd = refl;
    from_lidar = from;
  }

and_then_ok :
    {A B : Type 0} (c : Call A) (k : Session → A → Call B) (a : A)
    → c.1 ≡ ok a
    → (and_then c k).1 ≡ (k c.0 a).1
and_then_ok (s, r) k a e = rw e refl

-- When no attempt fails or is cancelled, nothing read before acknowledges the request, and then the
-- LiDAR's acknowledgement with these values comes, the inquiry returns exactly these values.
pub inquire-values_ack :
    (keys : List ℕ) (opts : Option ℕ) (env : ℕ → Attempt) (s : Session) (kvs : List KeyValue)
    (before after : List Datagram) (d : Datagram)
    → length keys ≤ 686
    → s.next_seq < 2 ^ 32
    → All IsEntry kvs
    → length kvs < 2 ^ 16
    → length (values_payload kvs) ≤ 1376
    → ((i : ℕ) → 0 < i → i ≤ attempts_of opts s → IsQuiet (env i))
    → heard_in (attempts_of opts s) 0 env ≡ before ++ (d ∷ after)
    → first_answer s.next_seq cmd_param_inquire s.lidar.ip before ≡ none
    → d.bytes ≡ frame_wire (values_ack s.next_seq kvs)
    → d.from.ip ≡ s.lidar.ip
    → (inquire opts env s keys).1
      ≡ ok (record { ret_code = 0; values = kvs; raw = values_payload kvs })
unfolding inquire to_inquire_result
inquire-values_ack keys opts env s kvs before after d few seq entries count small quiet heard
      none_before sent from =
    let ip = s.lidar.ip in
    let payload = le_bytes 2 (length keys) ++ (0 ∷ 0 ∷ keys_wire keys) in
    let fits : length payload ≤ 1376 = omega (arith, length-keys_wire keys) in
    let taken =
      IsAck-match_ack s.next_seq cmd_param_inquire ip d.bytes d.from _
        (values_ack-IsAck s.next_seq kvs ip d seq small sent from) in
    let found : first_answer s.next_seq cmd_param_inquire ip (before ++ (d ∷ after))
        ≡ some (record {
          cmd_id = cmd_param_inquire;
          seq_num = s.next_seq;
          payload = values_payload kvs;
        }) =
      first_answer-append s.next_seq cmd_param_inquire ip before (d ∷ after)
      ∙ rw (none_before, first_answer, taken) refl in
    let replied : (request cmd_param_inquire payload opts env s).1
        ≡ ok (record {
          cmd_id = cmd_param_inquire;
          seq_num = s.next_seq;
          payload = values_payload kvs;
        }) =
      request-first_answer cmd_param_inquire payload opts env s fits quiet
      ∙ rw (heard, found) refl in
    let parsed =
      (parse_param_inquire_ack-list_wire 0 0 0 kvs (omega arith) entries count (omega arith)).0 in
    let answer : RawAck = record {
      cmd_id = cmd_param_inquire;
      seq_num = s.next_seq;
      payload = values_payload kvs;
    } in
    rw (inquire, encode_param_inquire_request_lem keys)
      (and_then_ok (request cmd_param_inquire payload opts env s)
          (λ s' a. (s', to_inquire_result a keys)) answer replied
        ∙ rw (to_inquire_result, parsed) refl)

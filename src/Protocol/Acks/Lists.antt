-- ===== src/Protocol/Acks/Lists.antt =====
-- The acknowledgements and pushes that carry a list.
use livox_mid360_core.Prelude.{
  ℕ, ◌-◌, ◌^◌, ◌<◌, ◌≡◌, ap, ◌∙◌, List, ◌∷◌, ◌++◌, length, take_all, ok, arith, ltb, false,
}
use livox_mid360_core.Bytes.{All, le_bytes, read_le}
use livox_mid360_core.Bytes.Laws.{le_value-le_bytes, read_le_ok, subspan_ok}
use livox_mid360_core.Protocol.Types.{ParseError, KeyValue}
use livox_mid360_core.Protocol.KeyValues.Append.{list_wire}
use livox_mid360_core.Protocol.KeyValues.RoundTrip.{IsEntry, parse_list_wire}
use livox_mid360_core.Protocol.Acks.{parse_param_inquire_ack, parse_info_push}

-- An inquire acknowledgement and an info push with fewer than 2 ^ 16 entries, whose keys and value
-- sizes fit 16 bits, parse to the return code and exactly those entries.
pub parse_param_inquire_ack-list_wire :
    (ret_code : ℕ) (a b : ℕ) (kvs : List KeyValue)
    → ret_code < 2 ^ 8
    → All IsEntry kvs
    → length kvs < 2 ^ 16
    → length (list_wire kvs) < 2 ^ 64
    → (parse_param_inquire_ack (ret_code ∷ (le_bytes 2 (length kvs) ++ list_wire kvs))
        ≡ ok (record { ret_code = ret_code; values = kvs }))
      × (parse_info_push (le_bytes 2 (length kvs) ++ (a ∷ b ∷ list_wire kvs))
          ≡ ok (record { values = kvs }))
unfolding parse_param_inquire_ack parse_info_push
parse_param_inquire_ack-list_wire ret_code a b kvs byte fits few small =
    let wire = list_wire kvs in
    let ack : List ℕ = ret_code ∷ (le_bytes 2 (length kvs) ++ wire) in
    let push : List ℕ = le_bytes 2 (length kvs) ++ (a ∷ b ∷ wire) in
    let count = le_value-le_bytes 2 (length kvs) (omega arith) in
    let code = le_value-le_bytes 1 ret_code (omega arith) in
    let at_least : ltb (length ack) 3 ≡ false = ground arith in
    let longer : ltb (length push) 4 ≡ false = ground arith in
    let rest : length ack - 3 ≡ length wire = omega arith in
    let behind : length push - 4 ≡ length wire = omega arith in
    let first : read_le {E = ParseError} 1 ack 0 ≡ ok ret_code =
      read_le_ok 1 ack 0 (omega arith) ∙ ap ok (omega arith) in
    (
      rw (
        at_least,
        first,
        read_le_ok {E = ParseError} 2 ack 1 (omega arith),
        count,
        rest,
        subspan_ok {E = ParseError} ack 3 (length wire) (omega arith),
        take_all wire,
        parse_list_wire kvs fits small,
      ),
      rw (
        longer,
        read_le_ok {E = ParseError} 2 push 0 (omega arith),
        count,
        behind,
        subspan_ok {E = ParseError} push 4 (length wire) (omega arith),
        take_all wire,
        parse_list_wire kvs fits small,
      ),
    )

-- ===== src/Models/Codes.antt =====
-- shared/models.py: `ErrorCode` and `PacketStatus`, with the texts that they are.
use mesh_settle.Prelude.{Text, codes}

pub data ErrorCode : Type 0 where
  malformed_payload invalid_signature duplicate_packet decryption_failed packet_expired : ErrorCode
  packet_not_yet_valid internal_error : ErrorCode

unfoldable pub code_value : ErrorCode → Text
code_value malformed_payload = codes "MALFORMED_PAYLOAD"
code_value invalid_signature = codes "INVALID_SIGNATURE"
code_value duplicate_packet = codes "DUPLICATE_PACKET"
code_value decryption_failed = codes "DECRYPTION_FAILED"
code_value packet_expired = codes "PACKET_EXPIRED"
code_value packet_not_yet_valid = codes "PACKET_NOT_YET_VALID"
code_value internal_error = codes "INTERNAL_ERROR"

pub data PacketStatus : Type 0 where
  created relayed bridged settled rejected : PacketStatus

unfoldable pub status_value : PacketStatus → Text
status_value created = codes "created"
status_value relayed = codes "relayed"
status_value bridged = codes "bridged"
status_value settled = codes "settled"
status_value rejected = codes "rejected"

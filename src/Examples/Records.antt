-- ===== src/Examples/Records.antt =====
-- A log record of a changed string.
use mudopdbmigration.Prelude.{◌≡◌, [], ◌∷◌, arith, ok, ◌>>=◌}
use mudopdbmigration.BlockId.{BlockId}
use mudopdbmigration.Recovery.{LogRecord, set_string_record, encode, create_log_record}
use mudopdbmigration.Recovery.RoundTrip.{create_log_record-encode}

abbrev block : BlockId
block = record { file_name = 116 ∷ 98 ∷ []; number = 4294967295 }

abbrev change : LogRecord
change = set_string_record 12 block 80 (104 ∷ 105 ∷ [])

create_log_record-encode_example : (encode change >>= create_log_record) ≡ ok change
create_log_record-encode_example =
    create_log_record-encode change (
      omega arith,
      record { short = omega arith; numbered = omega arith },
      omega arith,
      omega arith,
    )

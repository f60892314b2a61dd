-- ===== src/Recovery/RoundTrip.antt =====
-- Decoding a log record gives back the record that was encoded.
use mathlib.Core.List.{append_assoc, append-nil}
use mudopdbmigration.Prelude.{
  ℕ, ◌+◌, ◌^◌, ◌<◌, ◌≡◌, refl, ◌∙◌, List, [], ◌++◌, arith, length, length-append, ok, ◌>>=◌,
}
use mudopdbmigration.Page.{
  Page, max_size, int32_mod, get_int, get_string, max_length_lem, size_of_int32,
}
use mudopdbmigration.Page.Access.{int_bytes}
use mudopdbmigration.Page.Serial.{get_int_at, get_string_at}
use mudopdbmigration.BlockId.{BlockId}
use mudopdbmigration.Recovery.{
  LogRecord, encode, checkpoint_record, start_record, commit_record, rollback_record,
  set_int_record, set_string_record, create_log_record,
}
use mudopdbmigration.Recovery.Format.{
  IsBlock, wire, IsStorable, header, prefix, length-prefix, encode-wire,
}

size_of_small : (n : ℕ) → n < 2 ^ 31 → size_of_int32 n ≡ n
unfolding size_of_int32
size_of_small n h = ground arith

length-header :
    (code n : ℕ) (b : BlockId) (o : ℕ) (rest : List ℕ)
    → length (header code n b o rest) ≡ 20 + length b.file_name + length rest
length-header code n b o rest =
    omega (arith, length-append b.file_name (int_bytes b.number ++ (int_bytes o ++ rest)))

-- The reads that the records of changed values have in common.
record HeaderRead (code n : ℕ) (b : BlockId) (o : ℕ) (rest : List ℕ) (p : Page) : Type 0 where
  kind : get_int p 0 ≡ ok code
  txnum : get_int p 4 ≡ ok n
  filename : get_string p 8 ≡ ok b.file_name
  blknum : get_int p (8 + (4 + length b.file_name)) ≡ ok b.number
  offset : get_int p (8 + (4 + length b.file_name) + 4) ≡ ok o
  ahead : p ≡ (prefix code n b o) ++ rest

header_read :
    (code n : ℕ) (b : BlockId) (o : ℕ) (rest : List ℕ)
    → code < int32_mod
    → n < 2 ^ 31
    → IsBlock b
    → o < 2 ^ 31
    → length rest < 2 ^ 32
    → HeaderRead code n b o rest (header code n b o rest)
header_read code n b o rest hc hn hb ho hr = record {
  kind = get_int_at p [] _ 0 refl small code hc refl;
  txnum = get_int_at p (int_bytes code) _ 4 refl small n (omega arith) refl;
  filename =
      get_string_at p (int_bytes code ++ int_bytes n) _ 8 refl small b.file_name hb.short refl;
  blknum =
      get_int_at p (int_bytes code ++ int_bytes n ++ (int_bytes len ++ b.file_name))
        (int_bytes o ++ rest) (8 + (4 + len)) (omega arith) small b.number hb.numbered
        (simp append_assoc);
  offset =
      get_int_at p
        (int_bytes code ++ int_bytes n ++ (int_bytes len ++ b.file_name) ++ int_bytes b.number) rest
        (8 + (4 + len) + 4) (omega (arith, length-append b.file_name (int_bytes b.number))) small o
        (omega arith) (simp append_assoc);
  ahead = simp append_assoc;
}
  where
    len : ℕ
    len = length b.file_name

    p : Page
    p = header code n b o rest

    small : length p < max_size
    small = omega (arith, length-header code n b o rest, hb.short)

decode_set_int :
    (n : ℕ) (b : BlockId) (o v : ℕ)
    → n < 2 ^ 31
    → IsBlock b
    → o < 2 ^ 31
    → v < int32_mod
    → create_log_record (wire (set_int_record n b o v)) ≡ ok (set_int_record n b o v)
unfolding create_log_record
decode_set_int n b o v hn hb ho hv =
    let len = length b.file_name in
    let h = header_read 4 n b o (int_bytes v) (omega arith) hn hb ho (omega arith) in
    let last : get_int (wire (set_int_record n b o v)) (8 + (4 + len) + 4 + 4) ≡ ok v =
      get_int_at (wire (set_int_record n b o v)) (prefix 4 n b o) [] (8 + (4 + len) + 4 + 4)
        (omega (arith, length-prefix 4 n b o))
        (omega (arith, length-header 4 n b o (int_bytes v), hb.short)) v hv
        (h.ahead ∙ simp append-nil) in
    rw
      (
        h.kind,
        h.txnum,
        h.filename,
        max_length_lem len hb.short,
        h.blknum,
        h.offset,
        last,
        size_of_small n hn,
        size_of_small o ho,
      )
      refl

decode_set_string :
    (n : ℕ) (b : BlockId) (o : ℕ) (v : List ℕ)
    → n < 2 ^ 31
    → IsBlock b
    → o < 2 ^ 31
    → length v < 2 ^ 31
    → create_log_record (wire (set_string_record n b o v)) ≡ ok (set_string_record n b o v)
unfolding create_log_record
decode_set_string n b o v hn hb ho hv =
    let len = length b.file_name in
    let h = header_read 5 n b o (int_bytes (length v) ++ v) (omega arith) hn hb ho (omega arith) in
    let last : get_string (wire (set_string_record n b o v)) (8 + (4 + len) + 4 + 4) ≡ ok v =
      get_string_at (wire (set_string_record n b o v)) (prefix 5 n b o) [] (8 + (4 + len) + 4 + 4)
        (omega (arith, length-prefix 5 n b o))
        (omega (arith, length-header 5 n b o (int_bytes (length v) ++ v), hb.short)) v hv
        (h.ahead ∙ simp append-nil) in
    rw
      (
        h.kind,
        h.txnum,
        h.filename,
        max_length_lem len hb.short,
        h.blknum,
        h.offset,
        last,
        size_of_small n hn,
        size_of_small o ho,
      )
      refl

decode_two_words :
    (code n : ℕ)
    → code < int32_mod
    → n < 2 ^ 31
    → (get_int (int_bytes code ++ int_bytes n) 0 ≡ ok code)
      × (get_int (int_bytes code ++ int_bytes n) 4 ≡ ok n)
decode_two_words code n hc hn = (
  get_int_at _ [] (int_bytes n) 0 refl (omega arith) code hc refl,
  get_int_at _ (int_bytes code) [] 4 refl (omega arith) n (omega arith) refl,
)

-- Every storable record is encoded without an exception, and what is written to the log decodes
-- to the same record.
pub create_log_record-encode :
    (r : LogRecord) → IsStorable r → (encode r >>= create_log_record) ≡ ok r
unfolding create_log_record
create_log_record-encode checkpoint_record h =
    rw
      (
        encode-wire checkpoint_record h,
        get_int_at (int_bytes 0) [] [] 0 refl (omega arith) 0 (omega arith) refl,
      )
      refl
create_log_record-encode (start_record n) h =
    let d = decode_two_words 1 n (omega arith) h in
    rw (encode-wire (start_record n) h, d.0, d.1, size_of_small n h) refl
create_log_record-encode (commit_record n) h =
    let d = decode_two_words 2 n (omega arith) h in
    rw (encode-wire (commit_record n) h, d.0, d.1, size_of_small n h) refl
create_log_record-encode (rollback_record n) h =
    let d = decode_two_words 3 n (omega arith) h in
    rw (encode-wire (rollback_record n) h, d.0, d.1, size_of_small n h) refl
create_log_record-encode (set_int_record n b o v) h =
    rw (encode-wire (set_int_record n b o v) h) (decode_set_int n b o v h.0 h.1 h.2 h.3)
create_log_record-encode (set_string_record n b o v) h =
    rw (encode-wire (set_string_record n b o v) h) (decode_set_string n b o v h.0 h.1 h.2 h.3)

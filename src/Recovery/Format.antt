-- ===== src/Recovery/Format.antt =====
-- The bytes of each log record, and that they decode to the record.
use mathlib.Core.List.{append_assoc, append-nil}
use mudopdbmigration.Prelude.{
  ℕ, ◌+◌, ◌%◌, ◌^◌, ◌<◌, ◌≡◌, refl, ap, ◌∙◌, List, [], ◌++◌, arith, length, length-append, ok,
  ◌>>=◌,
}
use mudopdbmigration.Page.{int32_mod, zeroed, Page, set_int, set_string, max_length_lem}
use mudopdbmigration.Page.Access.{int_bytes}
use mudopdbmigration.Page.Serial.{set_int_next, Written, set_string_next}
use mudopdbmigration.BlockId.{BlockId}
use mudopdbmigration.Recovery.{
  LogRecord, checkpoint_record, start_record, commit_record, rollback_record, set_int_record,
  set_string_record, encode_checkpoint, encode_start, encode, encode_commit, encode_rollback,
  encode_set_int, encode_set_string,
}

-- A block identifier that a record can hold.
pub record IsBlock (b : BlockId) : Type 0 where
  pub short : length b.file_name < 2 ^ 31
  pub numbered : b.number < int32_mod

-- The records that the log can hold: the numbers that are cast to `int32_t` keep their value.
abbrev pub IsStorable : LogRecord → Type 0
IsStorable checkpoint_record = Unit
IsStorable (start_record n) = n < 2 ^ 31
IsStorable (commit_record n) = n < 2 ^ 31
IsStorable (rollback_record n) = n < 2 ^ 31
IsStorable (set_int_record n b o v) = (n < 2 ^ 31) × IsBlock b × (o < 2 ^ 31) × (v < int32_mod)
IsStorable (set_string_record n b o v) =
    (n < 2 ^ 31) × IsBlock b × (o < 2 ^ 31) × (length v < 2 ^ 31)

-- The format: words and length-prefixed strings, one behind the other.
abbrev pub header : ℕ → ℕ → BlockId → ℕ → List ℕ → List ℕ
header code n b o rest =
    int_bytes code
    ++ (int_bytes n
        ++ (int_bytes (length b.file_name)
            ++ (b.file_name ++ (int_bytes b.number ++ (int_bytes o ++ rest)))))

abbrev pub wire : LogRecord → List ℕ
wire checkpoint_record = int_bytes 0
wire (start_record n) = int_bytes 1 ++ int_bytes n
wire (commit_record n) = int_bytes 2 ++ int_bytes n
wire (rollback_record n) = int_bytes 3 ++ int_bytes n
wire (set_int_record n b o v) = header 4 n b o (int_bytes v)
wire (set_string_record n b o v) = header 5 n b o (int_bytes (length v) ++ v)

mod_small : (n : ℕ) → n < 2 ^ 31 → n % int32_mod ≡ n
mod_small n h = omega arith

-- The bytes in front of the old value of a changed one.
abbrev pub prefix : ℕ → ℕ → BlockId → ℕ → List ℕ
prefix code n b o =
    int_bytes code
    ++ int_bytes n
    ++ (int_bytes (length b.file_name) ++ b.file_name)
    ++ int_bytes b.number
    ++ int_bytes o

pub length-prefix :
    (code n : ℕ) (b : BlockId) (o : ℕ) → length (prefix code n b o) ≡ 20 + length b.file_name
length-prefix code n b o = omega (
  arith,
  length-append b.file_name (int_bytes b.number),
  length-append (b.file_name ++ int_bytes b.number) (int_bytes o),
)

-- The five writes that the records of changed values have in common.
record HeaderWritten (total code n : ℕ) (b : BlockId) (o m : ℕ) : Type 0 where
  p0 : Page
  p1 : Page
  p2 : Page
  p3 : Page
  p4 : Page
  e0 : set_int (zeroed total) 0 code ≡ ok p0
  e1 : set_int p0 4 (n % int32_mod) ≡ ok p1
  e2 : set_string p1 8 b.file_name ≡ ok p2
  e3 : set_int p2 (8 + (4 + length b.file_name)) b.number ≡ ok p3
  e4 : set_int p3 (8 + (4 + length b.file_name) + 4) (o % int32_mod) ≡ ok p4
  written : Written p4 (prefix code n b o) m

header_written :
    (code n : ℕ) (b : BlockId) (o total m : ℕ)
    → n < 2 ^ 31
    → IsBlock b
    → o < 2 ^ 31
    → total ≡ 20 + length b.file_name + m
    → m < 2 ^ 32
    → HeaderWritten total code n b o m
unfolding zeroed
header_written code n b o total m hn hb ho e small =
    let len = length b.file_name in
    let (p0, e0, w0) =
      set_int_next (zeroed total) [] total (16 + len + m) 0 code refl (omega arith) refl
        (omega arith) in
    let (p1, e1, w1) =
      set_int_next p0 (int_bytes code) (16 + len + m) (12 + len + m) 4 n w0 (omega arith) refl
        (omega arith) in
    let (p2, e2, w2) =
      set_string_next p1 (int_bytes code ++ int_bytes n) (12 + len + m) (8 + m) 8 b.file_name w1
        (omega arith) refl (omega arith) hb.short in
    let (p3, e3, w3) =
      set_int_next p2 (int_bytes code ++ int_bytes n ++ (int_bytes len ++ b.file_name)) (8 + m)
        (4 + m) (8 + (4 + len)) b.number w2 (omega arith) (omega arith) (omega arith) in
    let (p4, e4, w4) =
      set_int_next p3
        (int_bytes code ++ int_bytes n ++ (int_bytes len ++ b.file_name) ++ int_bytes b.number)
        (4 + m) m (8 + (4 + len) + 4) o w3 (omega arith)
        (omega (arith, length-append b.file_name (int_bytes b.number)))
        (omega (arith, length-append b.file_name (int_bytes b.number))) in
    record {
      p0 = p0;
      p1 = p1;
      p2 = p2;
      p3 = p3;
      p4 = p4;
      e0 = e0;
      e1 = rw (mod_small n hn) e1;
      e2 = e2;
      e3 = e3;
      e4 = rw (mod_small o ho) e4;
      written = w4;
    }

encode_set_int-wire :
    (n : ℕ) (b : BlockId) (o v : ℕ)
    → n < 2 ^ 31
    → IsBlock b
    → o < 2 ^ 31
    → encode_set_int n b o v ≡ ok (wire (set_int_record n b o v))
unfolding encode_set_int
encode_set_int-wire n b o v hn hb ho =
    let len = length b.file_name in
    let h =
      header_written 4 n b o (8 + (4 + len) + 4 + 4 + 4) 4 hn hb ho (omega arith) (omega arith) in
    let (q, e, w) =
      set_int_next h.p4 (prefix 4 n b o) 4 0 (8 + (4 + len) + 4 + 4) v h.written (omega arith)
        (omega (arith, length-prefix 4 n b o)) (omega (arith, length-prefix 4 n b o, hb.short)) in
    rw (max_length_lem len hb.short, h.e0, h.e1, h.e2, h.e3, h.e4, e)
      (ap ok (w ∙ simp (append_assoc, append-nil)))

encode_set_string-wire :
    (n : ℕ) (b : BlockId) (o : ℕ) (v : List ℕ)
    → n < 2 ^ 31
    → IsBlock b
    → o < 2 ^ 31
    → length v < 2 ^ 31
    → encode_set_string n b o v ≡ ok (wire (set_string_record n b o v))
unfolding encode_set_string
encode_set_string-wire n b o v hn hb ho hv =
    let len = length b.file_name in
    let m = 4 + length v in
    let h =
      header_written 5 n b o (8 + (4 + len) + 4 + 4 + m) m hn hb ho (omega arith) (omega arith) in
    let (q, e, w) =
      set_string_next h.p4 (prefix 5 n b o) m 0 (8 + (4 + len) + 4 + 4) v h.written (omega arith)
        (omega (arith, length-prefix 5 n b o)) (omega (arith, length-prefix 5 n b o, hb.short))
        hv in
    rw (max_length_lem len hb.short, max_length_lem (length v) hv, h.e0, h.e1, h.e2, h.e3, h.e4, e)
      (ap ok (w ∙ simp (append_assoc, append-nil)))

-- The two words of a start, commit or rollback record.
two_words :
    (code n : ℕ)
    → n < 2 ^ 31
    → (set_int (zeroed 8) 0 code >>= λ p. set_int p 4 (n % int32_mod))
      ≡ ok (int_bytes code ++ int_bytes n)
unfolding zeroed
two_words code n h =
    let (p0, e0, w0) =
      set_int_next (zeroed 8) [] 8 4 0 code refl (omega arith) refl (omega arith) in
    let (p1, e1, w1) =
      set_int_next p0 (int_bytes code) 4 0 4 n w0 (omega arith) refl (omega arith) in
    rw (e0, mod_small n h, e1) (ap ok w1)

-- What each `write_to_log` appends for a storable record is its format.
pub encode-wire : (r : LogRecord) → IsStorable r → encode r ≡ ok (wire r)
unfolding encode encode_start encode_commit encode_rollback
encode-wire checkpoint_record h =
    unfold encode_checkpoint zeroed in
    let (p0, e0, w0) = set_int_next (zeroed 4) [] 4 0 0 0 refl (omega arith) refl (omega arith) in
    rw e0 (ap ok w0)
encode-wire (start_record n) h = two_words 1 n h
encode-wire (commit_record n) h = two_words 2 n h
encode-wire (rollback_record n) h = two_words 3 n h
encode-wire (set_int_record n b o v) h = encode_set_int-wire n b o v h.0 h.1 h.2
encode-wire (set_string_record n b o v) h = encode_set_string-wire n b o v h.0 h.1 h.2 h.3

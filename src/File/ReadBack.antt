-- ===== src/File/ReadBack.antt =====
-- What a read finds after a write.
use mudopdbmigration.Prelude.{
  ℕ, ◌+◌, ◌-◌, ◌%◌, ◌≤◌, ◌<◌, ◌≡◌, refl, sym, ap, ◌∙◌, ◌≢◌, inl, inr, true, false, some, List, ◌++◌,
  arith, ltb, leb, Bool-cases, Option-cases, bytes_eq, bytes_eq_refl, bytes_eq_iff, length,
  replicate, length-append, length-replicate, length-copy_bytes, read_bytes, read_bytes-copy_self,
  update, ok, ok-injective,
}
use mudopdbmigration.Page.{Page, size_mod, max_size}
use mudopdbmigration.BlockId.{BlockId}
use mudopdbmigration.File
use mudopdbmigration.File.{FileMgr, position, write_at, update_file_size, read, write}

update_file_size-files :
    (fm : FileMgr) (name : List ℕ) → (update_file_size fm name).files ≡ fm.files
unfolding update_file_size
update_file_size-files fm name = elim (Option-cases (fm.files name)) [
  | inl e ↦ rw (update_file_size, e) refl
  | inr (bytes, e) ↦ rw (update_file_size, e) refl
]

update_file_size-block_size :
    (fm : FileMgr) (name : List ℕ) → (update_file_size fm name).block_size ≡ fm.block_size
unfolding update_file_size
update_file_size-block_size fm name = elim (Option-cases (fm.files name)) [
  | inl e ↦ rw (update_file_size, e) refl
  | inr (bytes, e) ↦ rw (update_file_size, e) refl
]

-- A write that returns.
pub record Written (fm : FileMgr) (blk : BlockId) (page : Page) (fm' : FileMgr) : Type 0 where
  pub bytes : List ℕ
  pub files :
      fm'.files ≡ update fm.files blk.file_name (some (write_at bytes (position fm blk) page))
  pub block_size : fm'.block_size ≡ fm.block_size
  pub small : position fm blk + length page < max_size

write-Written :
    (fm fm' : FileMgr) (blk : BlockId) (page : Page)
    → File.write fm blk page ≡ ok fm'
    → Written fm blk page fm'
unfolding File.write
write-Written fm fm' blk page e = elim (Option-cases (fm.files blk.file_name)) [
  | inl f ↦ absurd (let q = rw (File.write, f) at e in cc)
  | inr (bytes, f) ↦ elim (Bool-cases (leb max_size (position fm blk + length page))) [
    | inl g ↦ absurd (let q = rw (File.write, f, g) at e in cc)
    | inr g ↦
        let fm1 = record fm {
          files = update fm.files blk.file_name (some (write_at bytes (position fm blk) page));
        } in
        let q : update_file_size fm1 blk.file_name ≡ fm' =
          ok-injective (rw (File.write, f, g) at e) in
        record {
          bytes = bytes;
          files = ap (λ m. m.files) (sym q) ∙ update_file_size-files fm1 blk.file_name;
          block_size =
              ap (λ m. m.block_size) (sym q) ∙ update_file_size-block_size fm1 blk.file_name;
          small = ground (arith, g);
        }
  ]
]

write_at-long :
    (bytes : List ℕ) (pos : ℕ) (page : List ℕ)
    → pos + length page ≤ length (write_at bytes pos page)
unfolding write_at
write_at-long bytes pos page =
    let gap = pos + length page - length bytes in
    omega (
      arith,
      length-copy_bytes (bytes ++ replicate gap 0) pos page,
      length-append bytes (replicate gap 0),
      length-replicate {A = ℕ} gap 0,
    )

write_at-read :
    (bytes : List ℕ) (pos : ℕ) (page : List ℕ)
    → read_bytes (write_at bytes pos page) pos (length page) 0 ≡ page
unfolding write_at
write_at-read bytes pos page =
    let gap = pos + length page - length bytes in
    read_bytes-copy_self 0 (bytes ++ replicate gap 0) pos page
      (omega (arith, length-append bytes (replicate gap 0), length-replicate {A = ℕ} gap 0))

moved :
    (fm fm' : FileMgr) (blk : BlockId)
    → fm'.block_size ≡ fm.block_size
    → position fm' blk ≡ position fm blk
unfolding position
moved fm fm' blk e = rw e refl

-- A page that was written is what the next read of the block gives.
pub write-read :
    (fm fm' : FileMgr) (blk : BlockId) (page q : Page)
    → File.write fm blk page ≡ ok fm'
    → length q ≡ length page
    → File.read fm' blk q ≡ ok page
unfolding File.read update
write-read fm fm' blk page q e n =
    let w = write-Written fm fm' blk page e in
    let bytes = write_at w.bytes (position fm blk) page in
    let found : fm'.files blk.file_name ≡ some bytes =
      ap (λ f. f blk.file_name) w.files ∙ rw (bytes_eq_refl blk.file_name) refl in
    let at : position fm' blk ≡ position fm blk = moved fm fm' blk w.block_size in
    let small = w.small in
    let long = write_at-long w.bytes (position fm blk) page in
    let read_it = write_at-read w.bytes (position fm blk) page in
    let inside : (position fm blk + length page) % size_mod ≡ position fm blk + length page =
      omega arith in
    let not_short : ltb (length bytes) (position fm blk + length page) ≡ false = ground arith in
    let fits : leb (position fm blk + length page) (length bytes) ≡ true = ground arith in
    rw (File.read, found) (rw (at, n) (rw inside (rw not_short (rw fits (ap ok read_it)))))

-- A write leaves the bytes of the other files.
pub write-other_file :
    (fm fm' : FileMgr) (blk : BlockId) (name : List ℕ) (page : Page)
    → File.write fm blk page ≡ ok fm'
    → blk.file_name ≢ name
    → fm'.files name ≡ fm.files name
unfolding update
write-other_file fm fm' blk name page e ne =
    let w = write-Written fm fm' blk page e in
    let apart : bytes_eq blk.file_name name ≡ false =
      ground (arith, ne, bytes_eq_iff blk.file_name name) in
    ap (λ f. f name) w.files ∙ rw apart refl

-- A write leaves the other files alone.
pub write-other :
    (fm fm' : FileMgr) (blk other : BlockId) (page q : Page)
    → File.write fm blk page ≡ ok fm'
    → blk.file_name ≢ other.file_name
    → File.read fm' other q ≡ File.read fm other q
unfolding File.read
write-other fm fm' blk other page q e ne =
    let w = write-Written fm fm' blk page e in
    let same = write-other_file fm fm' blk other.file_name page e ne in
    elim (Option-cases (fm.files other.file_name)) [
      | inl none_there ↦ rw (File.read, same, none_there) refl
      | inr (bytes, there) ↦ rw (File.read, same, there) (rw (moved fm fm' other w.block_size) refl)
    ]

-- A new page of the same size that is read from the block gets these contents.
unfoldable pub IsOnDisk : FileMgr → BlockId → Page → Type 0
IsOnDisk fm blk page = File.read fm blk (replicate (length page) 0) ≡ ok page

pub write-IsOnDisk :
    (fm fm' : FileMgr) (blk : BlockId) (page : Page)
    → File.write fm blk page ≡ ok fm'
    → IsOnDisk fm' blk page
unfolding IsOnDisk
write-IsOnDisk fm fm' blk page e =
    write-read fm fm' blk page (replicate (length page) 0) e
      (length-replicate {A = ℕ} (length page) 0)

pub write_other-IsOnDisk :
    (fm fm' : FileMgr) (blk other : BlockId) (page kept : Page)
    → File.write fm blk page ≡ ok fm'
    → blk.file_name ≢ other.file_name
    → IsOnDisk fm other kept
    → IsOnDisk fm' other kept
unfolding IsOnDisk
write_other-IsOnDisk fm fm' blk other page kept e ne there =
    write-other fm fm' blk other page (replicate (length kept) 0) e ne ∙ there

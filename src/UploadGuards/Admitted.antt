-- ===== src/UploadGuards/Admitted.antt =====
-- What the guards of drishti/m1_ingest/guards.py let through.
use c_s_cool_stuff.Prelude.{
  ℕ, ◌*◌, ◌≤◌, true, some, List, ◌≡◌, ◌↔◌, arith, is_in, Option-cases, inl, inr,
}
use c_s_cool_stuff.UploadGuards.{
  Upload, Entry, passes, check_size, check_magic, check_zip_bomb, admit, total_size,
  total_compressed, or_one, zip_magics,
}
unfoldable use c_s_cool_stuff.UploadGuards.{check_size, check_magic, check_zip_bomb, admit}

-- A file within the limits: not empty, not above 300 MB, a zip by its magic, readable, of at most 4 GB and
-- at most a hundred times its compressed size when it is unpacked.
pub record IsModest (u : Upload) (size uncompressed compressed : ℕ) : Type 0 where
  pub is_size : size ≡ u.size
  pub not_empty : 1 ≤ u.size
  pub not_large : u.size ≤ 314572800
  pub is_zip : is_in u.head zip_magics ≡ true
  pub entries : List Entry
  pub readable : u.entries ≡ some entries
  pub unpacked : uncompressed ≡ total_size entries
  pub packed : compressed ≡ or_one (total_compressed entries)
  pub not_huge : uncompressed ≤ 4294967296
  pub not_bomb : uncompressed ≤ 100 * compressed

admit-IsModest :
    (u : Upload) (size uncompressed compressed : ℕ)
    → admit u ≡ passes (size, uncompressed, compressed)
    → IsModest u size uncompressed compressed
unfolding admit check_size check_magic check_zip_bomb
admit-IsModest u size uncompressed compressed h = elim (Option-cases u.entries) [
  | inl corrupt ↦ ground (arith, h, corrupt)
  | inr (entries, e) ↦ record {
    is_size = ground (arith, h, e);
    not_empty = ground (arith, h, e);
    not_large = ground (arith, h, e);
    is_zip = ground (arith, h, e);
    entries = entries;
    readable = e;
    unpacked = ground (arith, h, e);
    packed = ground (arith, h, e);
    not_huge = ground (arith, h, e);
    not_bomb = ground (arith, h, e);
  }
]

modest-admit :
    (u : Upload) (size uncompressed compressed : ℕ)
    → IsModest u size uncompressed compressed
    → admit u ≡ passes (size, uncompressed, compressed)
unfolding admit check_size check_magic check_zip_bomb
modest-admit u size uncompressed compressed h = ground (
  arith, h.is_size, h.not_empty, h.not_large, h.is_zip, h.readable, h.unpacked, h.packed,
  h.not_huge, h.not_bomb,
)

-- The guards let a file through with a size and two totals exactly when these are its own and it is modest.
pub admit_iff :
    (u : Upload) (size uncompressed compressed : ℕ)
    → (admit u ≡ passes (size, uncompressed, compressed)) ↔ IsModest u size uncompressed compressed
admit_iff u size uncompressed compressed =
    (admit-IsModest u size uncompressed compressed, modest-admit u size uncompressed compressed)

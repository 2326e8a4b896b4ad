-- ===== src/UploadGuards.antt =====
-- drishti/m1_ingest/guards.py: what is refused before a parser sees an upload. A file is its size, its first
-- four bytes and, if zipfile can read it, the entries of its central directory.
pub mod Admitted
use c_s_cool_stuff.Prelude.{
  ℕ, ◌+◌, ◌*◌, ◌-◌, Bool, true, false, not, ◌&&◌, Option, none, some, List, [], ◌∷◌, leb, ltb, ◌==◌,
  any, length, map, Codes, codes, same, is_in, lower, if◌then◌else◌,
}

pub record Entry : Type 0 where
  pub name : Codes
  pub file_size : ℕ
  pub compress_size : ℕ

pub record Upload : Type 0 where
  pub size : ℕ
  pub head : Codes
  pub entries : Option (List Entry)

-- The codes of `IngestRejectedError`
pub data Rejection : Type 0 where
  empty too_large not_zip corrupt_zip zip_bomb : Rejection

pub data Guarded (A : Type 0) : Type 0 where
  passes : A → Guarded A
  rejected : Rejection → Guarded A

infixl 5 ◌>>=◌
abbrev pub ◌>>=◌ : {A B : Type 0} → Guarded A → (A → Guarded B) → Guarded B
passes a >>= next = next a
rejected why >>= next = rejected why

abbrev pub max_size_bytes : ℕ
max_size_bytes = 314572800

abbrev pub max_uncompressed_bytes : ℕ
max_uncompressed_bytes = 4294967296

-- `_ZIP_MAGICS`
abbrev pub zip_magics : List Codes
zip_magics = (80 ∷ 75 ∷ 3 ∷ 4 ∷ []) ∷ (80 ∷ 75 ∷ 5 ∷ 6 ∷ []) ∷ (80 ∷ 75 ∷ 7 ∷ 8 ∷ []) ∷ []

unfoldable pub check_size : Upload → Guarded ℕ
check_size u =
    if u.size == 0
    then rejected empty
    else if ltb max_size_bytes u.size
    then rejected too_large
    else passes u.size

unfoldable pub check_magic : Upload → Guarded (Unit {0})
check_magic u = if is_in u.head zip_magics then passes tt else rejected not_zip

unfoldable pub total_size : List Entry → ℕ
total_size [] = 0
total_size (e ∷ entries) = e.file_size + total_size entries

unfoldable pub total_compressed : List Entry → ℕ
total_compressed [] = 0
total_compressed (e ∷ entries) = e.compress_size + total_compressed entries

-- `n or 1`
abbrev pub or_one : ℕ → ℕ
or_one n = if n == 0 then 1 else n

-- `check_zip_bomb`, with the two sizes in place of their quotient: for sizes that pass the first test, a
-- float quotient is above 100.0 exactly when the numbers are in that relation.
unfoldable pub check_zip_bomb : Upload → Guarded (ℕ × ℕ)
unfolding total_size total_compressed
check_zip_bomb u = elim u.entries [
  | none ↦ rejected corrupt_zip
  | some entries ↦
      let uncompressed = total_size entries in
      let compressed = or_one (total_compressed entries) in
      if ltb max_uncompressed_bytes uncompressed
      then rejected zip_bomb
      else if ltb (100 * compressed) uncompressed
      then rejected zip_bomb
      else passes (uncompressed, compressed)
]

-- The guards in the order in which `ingest` calls them
unfoldable pub admit : Upload → Guarded (ℕ × ℕ × ℕ)
unfolding check_size check_magic check_zip_bomb
admit u = check_size u >>= λ size.
    check_magic u >>= λ _. check_zip_bomb u >>= λ sizes. passes (size, sizes.0, sizes.1)

abbrev pub manifest_name : Codes
manifest_name = codes "AndroidManifest.xml"

-- `looks_like_apk`
unfoldable pub looks_like_apk : Upload → Bool
looks_like_apk u = elim u.entries [
  | none ↦ false
  | some entries ↦ is_in manifest_name (map (λ e. e.name) entries)
]

-- `name.endswith(".apk")`
unfoldable pub ends_in_apk : Codes → Bool
ends_in_apk [] = false
ends_in_apk (c ∷ s) = let rest = ends_in_apk s in if same (c ∷ s) (codes ".apk") then true else rest

unfoldable pub is_apk_bundle : Upload → Bool
unfolding ends_in_apk
is_apk_bundle u = elim u.entries [
  | none ↦ false
  | some entries ↦
      not (is_in manifest_name (map (λ e. e.name) entries))
      && any (λ e. ends_in_apk (lower e.name)) entries
]

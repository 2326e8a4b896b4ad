-- ===== src/GenerativeC2/Texts.antt =====
-- The texts of drishti/m3_dynamic/generative_c2.py: Python's `strip`, its UTF-8 and base64, the two
-- patterns, and the search for executable content. `lower` of all of Unicode is a parameter.
use c_s_cool_stuff.Prelude.{
  ℕ, ◌+◌, ◌-◌, ◌*◌, ◌/◌, ◌%◌, Bool, true, false, not, ◌&&◌, ◌||◌, Option, none, some, List, [], ◌∷◌,
  ◌++◌, Codes, codes, is_in, leb, ltb, ◌==◌, take, any, length, if◌then◌else◌, starts_with, is_part,
}
use c_s_cool_stuff.GenerativeC2.{
  Refusal, executable_bytes, executable_base64_prefix, executable_base64,
}

-- `_CONTROL_CHARS`
abbrev pub is_control : ℕ → Bool
is_control c = leb c 8 || (c == 11 || (c == 12 || (leb 14 c && leb c 31)))

-- `_CONTROL_CHARS.sub("", value)`
unfoldable pub without_controls : Codes → Codes
without_controls [] = []
without_controls (c ∷ s) = let rest = without_controls s in if is_control c then rest else c ∷ rest

-- The letters that `[a-z]` matches under IGNORECASE: ASCII's, and four more of Unicode.
abbrev is_letter : ℕ → Bool
is_letter c =
    (leb b'a' c && leb c b'z')
    || ((leb b'A' c && leb c b'Z') || (c == 304 || (c == 305 || (c == 383 || c == 8490))))

abbrev is_scheme : ℕ → Bool
is_scheme c = is_letter c || ((leb b'0' c && leb c b'9') || (c == b'+' || (c == b'.' || c == b'-')))

-- `[a-z0-9+.\-]*://` from here on.
after_scheme : Codes → Bool
after_scheme [] = false
after_scheme (c ∷ s) =
    let rest = after_scheme s in starts_with (codes "://") (c ∷ s) || (is_scheme c && rest)

-- `_URL_RE.search(value)`
unfoldable pub is_url : Codes → Bool
unfolding after_scheme
is_url [] = false
is_url (c ∷ s) = (is_letter c && after_scheme s) || is_url s

-- Python's white space.
abbrev is_blank : ℕ → Bool
is_blank c =
    (leb 9 c && leb c 13)
    || ((leb 28 c && leb c 32)
        || (c == 133
            || (c == 160
                || (c == 5760
                    || ((leb 8192 c && leb c 8202)
                        || (c == 8232
                            || (c == 8233 || (c == 8239 || (c == 8287 || c == 12288)))))))))

strip_front : Codes → Codes
strip_front [] = []
strip_front (c ∷ s) = let rest = strip_front s in if is_blank c then rest else c ∷ s

-- Blanks are dropped where nothing but blanks comes after them.
strip_back : Codes → Codes
strip_back [] = []
strip_back (c ∷ s) = kept (strip_back s)
  where
    kept : Codes → Codes
    kept [] = if is_blank c then [] else c ∷ []
    kept (d ∷ rest) = c ∷ d ∷ rest

-- `value.strip()`
unfoldable pub strip : Codes → Codes
unfolding strip_front strip_back
strip s = strip_back (strip_front s)

-- `value.encode("utf-8", errors="ignore")`: a surrogate is left out.
unfoldable pub utf_8 : Codes → Codes
utf_8 [] = []
utf_8 (c ∷ s) =
    let rest = utf_8 s in
    if ltb c 128
    then c ∷ rest
    else if ltb c 2048
    then (192 + c / 64) ∷ (128 + c % 64) ∷ rest
    else if leb 55296 c && leb c 57343
    then rest
    else if ltb c 65536
    then (224 + c / 4096) ∷ (128 + (c / 64) % 64) ∷ (128 + c % 64) ∷ rest
    else (240 + c / 262144)
      ∷ (128 + (c / 4096) % 64)
      ∷ (128 + (c / 64) % 64)
      ∷ (128 + c % 64)
      ∷ rest

-- The six bits of a base64 character.
sextet : ℕ → Option ℕ
sextet c =
    if leb b'A' c && leb c b'Z'
    then some (c - b'A')
    else if leb b'a' c && leb c b'z'
    then some (c - b'a' + 26)
    else if leb b'0' c && leb c b'9'
    then some (c - b'0' + 52)
    else if c == b'+'
    then some 62
    else if c == b'/'
    then some 63
    else none

-- `[A-Za-z0-9+/]+={0,2}`
is_base64 : Codes → Bool
unfolding sextet
is_base64 [] = false
is_base64 (c ∷ s) =
    is_some (sextet c) && (is_in s ([] ∷ codes "=" ∷ codes "==" ∷ []) || is_base64 s)
  where
    is_some : Option ℕ → Bool
    is_some none = false
    is_some (some n) = true

-- The bytes of a text in base64, four characters at a time.
from_base64 : Codes → Codes
unfolding sextet
from_base64 (a ∷ b ∷ c ∷ d ∷ s) = group (sextet a) (sextet b) (sextet c) (sextet d) (from_base64 s)
  where
    group : Option ℕ → Option ℕ → Option ℕ → Option ℕ → Codes → Codes
    group (some w) (some x) (some y) (some z) rest =
        (w * 4 + x / 16) ∷ ((x % 16) * 16 + y / 4) ∷ ((y % 4) * 64 + z) ∷ rest
    group (some w) (some x) (some y) none rest = (w * 4 + x / 16) ∷ ((x % 16) * 16 + y / 4) ∷ []
    group (some w) (some x) none _ rest = (w * 4 + x / 16) ∷ []
    group _ _ _ _ rest = []
from_base64 _ = []

-- `_try_b64`
unfoldable pub try_b64 : Codes → Option Codes
unfolding is_base64 from_base64
try_b64 value =
    let candidate = strip value in
    if ltb (length candidate) 12 || not (length candidate % 4 == 0)
    then none
    else if not (is_base64 candidate)
    then none
    else some (from_base64 candidate)

abbrev pub executable_signatures : List Codes
executable_signatures =
    (codes "dex" ++ 10 ∷ [])
    ∷ (127 ∷ codes "ELF")
    ∷ codes "MZ"
    ∷ (codes "PK" ++ 3 ∷ 4 ∷ [])
    ∷ (202 ∷ 254 ∷ 186 ∷ 190 ∷ [])
    ∷ codes "#!"
    ∷ []

abbrev pub executable_b64_prefixes : List Codes
executable_b64_prefixes =
    codes "ZGV4Cg" ∷ codes "f0VMR" ∷ codes "TVqQ" ∷ codes "UEsDB" ∷ codes "yv66vg" ∷ []

-- `data.startswith(signature) or signature in data[:16]`, for some signature
unfoldable pub has_signature : Codes → Bool
unfolding is_part
has_signature bytes =
    any (λ signature. starts_with signature bytes || is_part signature (take 16 bytes))
      executable_signatures

-- What `_reject_executable` makes of the bytes that a text in base64 stands for
abbrev pub decoded : Option Codes → Option Refusal
decoded none = none
decoded (some bytes) = if has_signature bytes then some executable_base64 else none

-- `_reject_executable`
unfoldable pub reject_executable : Codes → Option Refusal
reject_executable value =
    if has_signature (utf_8 value)
    then some executable_bytes
    else if any (λ prefix. starts_with prefix value) executable_b64_prefixes
    then some executable_base64_prefix
    else decoded (try_b64 value)

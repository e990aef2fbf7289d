-- ===== src/Address/Local.antt =====
-- The addresses of local sockets: `UnixAddress` of src/address.cc. `sun_path` has 108 bytes, and
-- stands behind the two bytes of the family.
use ztyco.Base.{
  ℕ, ◌+◌, ◌-◌, ◌%◌, ◌^◌, Bool, false, ◌&&◌, Option, none, some, List, [], ◌∷◌, ◌++◌, ltb, ◌==◌,
  if◌then◌else◌, length, take, replicate, Str, Outcome, ok, undefined,
}

pub record UnixAddress : Type 0 where
  pub path : List ℕ
  pub len : ℕ

abbrev pub path_size : ℕ
path_size = 108

abbrev pub path_offset : ℕ
path_offset = 2

-- `memset` of `sun_path`.
unfoldable pub blank : List ℕ
blank = replicate path_size 0

-- `UnixAddress()`
unfoldable pub unix_any : UnixAddress
unix_any = record { path = blank; len = path_offset + (path_size - 1) }

-- `!path.empty() && path[0] == 0`
abbrev pub starts_null : List ℕ → Bool
starts_null [] = false
starts_null (c ∷ cs) = c == 0

-- The bytes that are copied: the text and its terminator, or without it. `m_len` is a `uint32_t`.
abbrev pub copied : Str → ℕ
copied path = if starts_null path then length path % 2 ^ 32 else (length path + 1) % 2 ^ 32

-- `memcpy` of `n` bytes of `path.c_str()` into zeros.
abbrev pub laid : ℕ → Str → List ℕ
laid n path = take path_size (take n (path ++ 0 ∷ []) ++ blank)

-- `UnixAddress(path)`: `none` where it throws.
unfoldable pub unix_address : Str → Option UnixAddress
unix_address path =
    let n = copied path in
    if ltb path_size n then none else some (record { path = laid n path; len = n + path_offset })

-- `setAddrLen`, which takes the length that the kernel gives.
abbrev pub set_addr_len : UnixAddress → ℕ → UnixAddress
set_addr_len a v = record a { len = v }

-- A character array as a C string: it is read up to a zero byte.
abbrev pub c_string : List ℕ → Outcome Str
c_string [] = undefined
c_string (c ∷ cs) =
    let rest = c_string cs in
    if c == 0 then ok [] else elim rest [ ok s ↦ ok (c ∷ s) | other ↦ other ]

-- `n` bytes from the second on, which must be there.
abbrev pub bytes_after_first : ℕ → List ℕ → Outcome Str
bytes_after_first n [] = undefined
bytes_after_first n (c ∷ cs) = if ltb (length cs) n then undefined else ok (take n cs)

abbrev pub abstract_text : Outcome Str → Outcome Str
abstract_text (ok s) = ok (92 ∷ 48 ∷ s)
abstract_text other = other

-- `getPath`, which `insert` prints: an abstract name with a backslash and a `0` before it.
unfoldable pub get_path : UnixAddress → Outcome Str
get_path a =
    if ltb path_offset a.len && starts_null a.path
    then abstract_text (bytes_after_first (a.len - path_offset - 1) a.path)
    else c_string a.path

-- ===== src/Address/Text.antt =====
-- Addresses as text, and the addresses of local sockets: `insert`, `UnixAddress` and `getPath` of
-- src/address.cc. What a stream is given is a list of pieces: characters, and numbers that it
-- prints in decimal or in hexadecimal.
use ztyco.Base.{
  ℕ, ◌+◌, ◌*◌, ◌≡◌, refl, ap, inl, inr, Bool, true, false, not, ◌&&◌, List, [], ◌∷◌, ◌++◌, ◌==◌,
  ==_iff, if◌then◌else◌, arith, Bool-cases,
}
use ztyco.Address.{byteswap16, Ipv4, Ipv6}

pub data Piece : Type 0 where
  chr : ℕ → Piece
  dec : ℕ → Piece
  hex : ℕ → Piece

-- `.`, `:`, `[` and `]`
abbrev pub dot : Piece
dot = chr 46

abbrev pub colon : Piece
colon = chr 58

-- `IPv4Address::insert`: the four bytes of the swapped word, from the highest down, and the port.
abbrev pub dotted : List ℕ → List Piece
dotted [] = []
dotted (b ∷ []) = dec b ∷ []
dotted (b ∷ c ∷ bs) = dec b ∷ dot ∷ dotted (c ∷ bs)

unfoldable pub insert4 : Ipv4 → List Piece
unfolding byteswap16
insert4 a = dotted a.addr ++ colon ∷ dec (byteswap16 a.port) ∷ []

-- The address as eight stored words.
abbrev pub words : List ℕ → List ℕ
words [] = []
words (b ∷ []) = []
words (b ∷ c ∷ bs) = (b + c * 256) ∷ words bs

-- The loop of `IPv6Address::insert` behind the first word: the word before, and `used_zeros`; and
-- what follows the loop.
abbrev pub word_loop : ℕ → Bool → List ℕ → List Piece
word_loop prev used [] = if not used && prev == 0 then colon ∷ colon ∷ [] else []
word_loop prev used (w ∷ ws) =
    let skip = word_loop w used ws in
    let shown = word_loop w true ws in
    let plain = word_loop w used ws in
    if w == 0 && not used
    then skip
    else if prev == 0 && not used
    then colon ∷ colon ∷ hex (byteswap16 w) ∷ shown
    else colon ∷ hex (byteswap16 w) ∷ plain

-- The first word, before which no colon stands.
abbrev pub first_word : List ℕ → List Piece
first_word [] = []
first_word (w ∷ ws) =
    let rest = word_loop w false ws in if w == 0 then rest else hex (byteswap16 w) ∷ rest

unfoldable pub insert6 : Ipv6 → List Piece
insert6 a = chr 91 ∷ first_word (words a.addr) ++ chr 93 ∷ colon ∷ dec (byteswap16 a.port) ∷ []

-- The text form of RFC 4291: the words before the first zero, and, where there is a zero, two
-- colons for the run of zeros and the words behind it.
abbrev pub joined : List ℕ → List Piece
joined [] = []
joined (w ∷ []) = hex (byteswap16 w) ∷ []
joined (w ∷ v ∷ ws) = hex (byteswap16 w) ∷ colon ∷ joined (v ∷ ws)

abbrev pub behind_zeros : List ℕ → List ℕ
behind_zeros [] = []
behind_zeros (w ∷ ws) = let rest = behind_zeros ws in if w == 0 then rest else w ∷ ws

abbrev pub before_zero : List ℕ → List ℕ
before_zero [] = []
before_zero (w ∷ ws) = let rest = before_zero ws in if w == 0 then [] else w ∷ rest

abbrev pub from_zero : List ℕ → List ℕ
from_zero [] = []
from_zero (w ∷ ws) = let rest = from_zero ws in if w == 0 then w ∷ ws else rest

abbrev pub gap : List ℕ → List Piece
gap [] = []
gap (w ∷ ws) = colon ∷ colon ∷ joined (behind_zeros ws)

abbrev pub compressed : List ℕ → List Piece
compressed ws = joined (before_zero ws) ++ gap (from_zero ws)

-- Colons before each word.
abbrev tail_of : List ℕ → List Piece
tail_of [] = []
tail_of (w ∷ ws) = colon ∷ hex (byteswap16 w) ∷ tail_of ws

joined_tail : (w : ℕ) (ws : List ℕ) → joined (w ∷ ws) ≡ hex (byteswap16 w) ∷ tail_of ws
joined_tail w [] = refl
joined_tail w (v ∷ ws) = ap (λ t. hex (byteswap16 w) ∷ colon ∷ t) (joined_tail v ws)

used_loop : (prev : ℕ) (ws : List ℕ) → word_loop prev true ws ≡ tail_of ws
used_loop prev [] = refl
used_loop prev (w ∷ ws) = ground (arith, used_loop w ws)

zeros_loop : (ws : List ℕ) → word_loop 0 false ws ≡ colon ∷ colon ∷ joined (behind_zeros ws)
zeros_loop [] = refl
zeros_loop (w ∷ ws) = ground (arith, zeros_loop ws, used_loop w ws, joined_tail w ws)

plain_loop :
    (prev : ℕ) (ws : List ℕ)
    → (prev == 0) ≡ false
    → word_loop prev false ws ≡ tail_of (before_zero ws) ++ gap (from_zero ws)
plain_loop prev [] h = rw h
plain_loop prev (w ∷ ws) h = elim (Bool-cases (w == 0)) [
  | inl z ↦ let e : w ≡ 0 = (==_iff w 0).0 z in rw e (zeros_loop ws)
  | inr nz ↦ rw (nz, h) (ap (λ t. colon ∷ hex (byteswap16 w) ∷ t) (plain_loop w ws nz))
]

first_word_lem : (ws : List ℕ) → first_word ws ≡ compressed ws
first_word_lem [] = refl
first_word_lem (w ∷ ws) = elim (Bool-cases (w == 0)) [
  | inl z ↦ let e : w ≡ 0 = (==_iff w 0).0 z in rw e (zeros_loop ws)
  | inr nz ↦
      rw (nz, joined_tail w (before_zero ws))
        (ap (λ t. hex (byteswap16 w) ∷ t) (plain_loop w ws nz))
]

-- What `IPv6Address::insert` puts between the brackets is the compressed form, whatever the words
-- are: the words before the first zero, two colons for that run of zeros, and the words behind it.
pub insert6-compressed :
    (a : Ipv6)
    → insert6 a
      ≡ chr 91 ∷ compressed (words a.addr) ++ chr 93 ∷ colon ∷ dec (byteswap16 a.port) ∷ []
unfolding insert6
insert6-compressed a =
    ap (λ t. chr 91 ∷ t ++ chr 93 ∷ colon ∷ dec (byteswap16 a.port) ∷ [])
      (first_word_lem (words a.addr))

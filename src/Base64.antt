-- ===== src/Base64.antt =====
-- Base-64 text:
-- WaterMyPlants/Pods/FirebaseDatabase/FirebaseDatabase/Sources/third_party/SocketRocket/fbase64.c.
-- `return (-1);` is a case of its own.
pub mod Ntop
pub mod Pton
pub mod Loop
pub mod Text
pub mod Digits
pub mod Decode
pub mod Groups
pub mod RoundTrip
use bw_watermyplants.Common.{
  ℕ, zero, suc, List, [], ◌∷◌, Option, none, some, Bool, ◌||◌, if◌then◌else◌, ◌==◌,
}
use Prim.Native.Char.{code}
use Prim.Native.String
use Prim.Native.String.{String}

codes : String → List ℕ
codes String.[] = []
codes (String.◌∷◌ c s) = code c ∷ codes s

-- `Base64[]`
unfoldable pub alphabet : List ℕ
unfolding codes
alphabet = codes "ABCDEFGHIJKLMNOPQRSTUVWXYZabcdefghijklmnopqrstuvwxyz0123456789+/"

-- `Pad64`
abbrev pub pad64 : ℕ
pad64 = b'='

-- `Base64[i]`; behind the characters stands the terminating NUL
unfoldable pub char_at : List ℕ → ℕ → ℕ
char_at [] i = 0
char_at (c ∷ cs) zero = c
char_at (c ∷ cs) (suc i) = char_at cs i

unfoldable pub digit : ℕ → ℕ
unfolding char_at alphabet
digit i = char_at alphabet i

-- `strchr(Base64, ch) - Base64` for a character that is not NUL
unfoldable pub index_from : ℕ → ℕ → List ℕ → Option ℕ
index_from ch i [] = none
index_from ch i (c ∷ cs) = let rest = index_from ch (suc i) cs in if ch == c then some i else rest

unfoldable pub position : ℕ → Option ℕ
unfolding index_from alphabet
position ch = index_from ch 0 alphabet

-- `isspace` of the C locale
unfoldable pub isspace : ℕ → Bool
isspace ch = ch == 32 || ch == 9 || ch == 10 || ch == 11 || ch == 12 || ch == 13

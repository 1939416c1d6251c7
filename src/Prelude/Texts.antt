-- ===== src/Prelude/Texts.antt =====
-- The functions of Go's strings and net/url that the clients use.
use Prim.Native.Nat.{ℕ, ◌+◌, ◌/◌, ◌%◌}
use Prim.Native.Char.{Char, code}
use Prim.Native.String.{String, ◌++◌}
use mathlib.Core.Path.{◌≡◌, refl}
use mathlib.Core.Bool.{Bool, true, false, ◌&&◌, ◌||◌}
use text.Mathlib.Text.{◌==◌ as str_eq, starts_with}
use text.Mathlib.TextLemmas.{nil-append, cons-append}
use text.Mathlib.TextPositions.{starts_with-append}
use losant_device.Prelude.Tests.{ltb, leb, ◌==◌, if◌then◌else◌}

-- strings.Contains
unfoldable pub contains : String → String → Bool
contains String.[] t = starts_with String.[] t
contains (String.◌∷◌ c s) t = starts_with (String.◌∷◌ c s) t || contains s t

or_true : (b : Bool) → (b || true) ≡ true
or_true true = refl
or_true false = refl

contains-prefix : (s t : String) → starts_with s t ≡ true → contains s t ≡ true
unfolding contains
contains-prefix String.[] t h = h
contains-prefix (String.◌∷◌ c s) t h = rw h

-- What a text contains, the text with something before it contains.
pub contains-after : (before s t : String) → contains s t ≡ true → contains (before ++ s) t ≡ true
unfolding contains
contains-after String.[] s t h = rw (nil-append s) h
contains-after (String.◌∷◌ c before) s t h =
    rw (cons-append c before s, contains-after before s t h, or_true) refl

-- A text contains what it starts with.
pub contains-start : (t rest : String) → contains (t ++ rest) t ≡ true
contains-start t rest = contains-prefix (t ++ rest) t (starts_with-append t rest)

-- A text contains each of its parts.
pub contains-append : (before t rest : String) → contains (before ++ (t ++ rest)) t ≡ true
contains-append before t rest = contains-after before (t ++ rest) t (contains-start t rest)

-- strings.TrimRight(s, "/")
unfoldable pub trim_right_slashes : String → String
trim_right_slashes String.[] = String.[]
trim_right_slashes (String.◌∷◌ c s) =
    let rest = trim_right_slashes s in
    if str_eq rest "" && code c == b'/' then String.[] else String.◌∷◌ c rest

hex_digit : ℕ → String
hex_digit n =
    if n == 0
    then "0"
    else if n == 1
    then "1"
    else if n == 2
    then "2"
    else if n == 3
    then "3"
    else if n == 4
    then "4"
    else if n == 5
    then "5"
    else if n == 6
    then "6"
    else if n == 7
    then "7"
    else if n == 8
    then "8"
    else if n == 9
    then "9"
    else if n == 10
    then "A"
    else if n == 11
    then "B"
    else if n == 12
    then "C"
    else if n == 13
    then "D"
    else if n == 14
    then "E"
    else "F"

-- a byte as %XX
percent : ℕ → String
unfolding hex_digit
percent b = "%" ++ (hex_digit (b / 16) ++ hex_digit (b % 16))

-- the bytes of a character's UTF-8 form, each as %XX
percent_utf8 : ℕ → String
unfolding percent
percent_utf8 n =
    if ltb n 128
    then percent n
    else if ltb n 2048
    then percent (192 + n / 64) ++ percent (128 + n % 64)
    else if ltb n 65536
    then percent (224 + n / 4096) ++ (percent (128 + n / 64 % 64) ++ percent (128 + n % 64))
    else percent (240 + n / 262144)
      ++ (percent (128 + n / 4096 % 64) ++ (percent (128 + n / 64 % 64) ++ percent (128 + n % 64)))

between : ℕ → ℕ → ℕ → Bool
between low n high = leb low n && leb n high

is_unreserved : ℕ → Bool
unfolding between
is_unreserved n =
    between b'a' n b'z'
    || between b'A' n b'Z'
    || between b'0' n b'9'
    || n == b'-'
    || n == b'_'
    || n == b'.'
    || n == b'~'

escape_char : Char → String
unfolding is_unreserved percent_utf8
escape_char c =
    if is_unreserved (code c)
    then String.◌∷◌ c String.[]
    else if code c == b' '
    then "+"
    else percent_utf8 (code c)

-- url.QueryEscape
unfoldable pub query_escape : String → String
unfolding escape_char
query_escape String.[] = String.[]
query_escape (String.◌∷◌ c s) = escape_char c ++ query_escape s

query_escape_example : query_escape "a b&c/é" ≡ "a+b%26c%2F%C3%A9"
unfolding query_escape
query_escape_example = refl

trim_right_slashes_example : trim_right_slashes "http://r//" ≡ "http://r"
unfolding trim_right_slashes
trim_right_slashes_example = refl

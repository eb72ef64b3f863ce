-- ===== src/Network/Inet6/Tests.antt =====
-- src/network.c: IPv6 addresses on concrete texts.
use libsolcompat.Common.{ℕ, ◌≡◌, refl, some, List, [], ◌∷◌, length}
use libsolcompat.Network.Inet6.{
  no_runs, scan_word, scan_words, words_of, hex_digit, hex, format_words, inet_ntop6, inet_pton6,
  parse_groups, after_group, strtoul16, digits_value, digit_value, isxdigit, expand, finish_groups,
  bytes_of,
}
use libsolcompat.Network.Inet6.Longest.{IsBest, scan_words-IsBest}

-- 2001:db8::1:0:0:1, whose second run of zeros is as long as a part of the first one.
abbrev example : List ℕ
example = 0x20 ∷ 1 ∷ 0xD ∷ 0xB8 ∷ 0 ∷ 0 ∷ 0 ∷ 0 ∷ 0 ∷ 1 ∷ 0 ∷ 0 ∷ 0 ∷ 0 ∷ 0 ∷ 1 ∷ []

scan_words-IsBest_example :
    IsBest
      (words_of example)
      (length (words_of example))
      (scan_words no_runs 0 (words_of example)).best_start
      (scan_words no_runs 0 (words_of example)).best_len
scan_words-IsBest_example = scan_words-IsBest (words_of example)

ntop_example :
    inet_ntop6 example 18
    ≡ some (
        b'2' ∷ b'0' ∷ b'0' ∷ b'1' ∷ b':' ∷ b'd' ∷ b'b' ∷ b'8' ∷ b':' ∷ b':' ∷ b'1' ∷ b':' ∷ b'0'
        ∷ b':' ∷ b'0' ∷ b':' ∷ b'1' ∷ [])
unfolding inet_ntop6 words_of scan_words scan_word format_words hex hex_digit
ntop_example = refl

-- "0x1::", which `strtoul` reads as 1.
abbrev prefixed : List ℕ
prefixed = b'0' ∷ b'x' ∷ b'1' ∷ b':' ∷ b':' ∷ []

abbrev one : List ℕ
one = 0 ∷ 1 ∷ 0 ∷ 0 ∷ 0 ∷ 0 ∷ 0 ∷ 0 ∷ 0 ∷ 0 ∷ 0 ∷ 0 ∷ 0 ∷ 0 ∷ 0 ∷ 0 ∷ []

pton_prefixed : inet_pton6 prefixed ≡ some one
unfolding inet_pton6 parse_groups after_group strtoul16 digits_value digit_value isxdigit expand
    finish_groups bytes_of
pton_prefixed = refl

-- "1:2:3:4:5:6:7:8:", with a colon that no group follows.
abbrev trailing : List ℕ
trailing =
    b'1' ∷ b':' ∷ b'2' ∷ b':' ∷ b'3' ∷ b':' ∷ b'4' ∷ b':' ∷ b'5' ∷ b':' ∷ b'6' ∷ b':' ∷ b'7' ∷ b':'
    ∷ b'8' ∷ b':' ∷ []

pton_trailing :
    inet_pton6 trailing ≡ some (0 ∷ 1 ∷ 0 ∷ 2 ∷ 0 ∷ 3 ∷ 0 ∷ 4 ∷ 0 ∷ 5 ∷ 0 ∷ 6 ∷ 0 ∷ 7 ∷ 0 ∷ 8 ∷ [])
unfolding inet_pton6 parse_groups after_group strtoul16 digits_value digit_value isxdigit expand
    finish_groups bytes_of
pton_trailing = refl

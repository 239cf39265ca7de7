-- ===== src/Tests/IndexPointTests.antt =====
-- lib/index-point.c and `sa_write_index` on "a.b" with a two-byte character behind it.
use sufary.Base.{ℕ, ◌≡◌, refl, [], ◌∷◌, none, some, arith, List}
use sufary.Base.Run.{Ends, done}
use sufary.IndexPoint.{
  Settings, sa_get_next_ip_char, sa_get_next_ip_byte, sa_get_next_ip_word,
  sa_get_next_ip_after_delimiter, word_delimiters,
}
use sufary.IndexPoint.Contract.{NextPoint}
use sufary.IndexPoint.Walk.{
  PointOn, Walk, char_move, byte_move, sa_get_next_ip_char-NextPoint, sa_get_next_ip_byte-NextPoint,
}
use sufary.IndexPoint.Delimiter.{AfterDelimiter, Anywhere, sa_get_next_ip_after_delimiter-NextPoint}
use sufary.MakeIndex.{sa_write_index}
use sufary.MakeIndex.WriteIndex.{Writes, first_of, sa_write_index-Writes}

-- The full stop is not indexed.
abbrev no_stops : Settings
no_stops = record {
  ignored_chars = some (46 ∷ []);
  my_chars = none;
  my_delimiters = none;
  mki_mode = 0;
}

abbrev mixed : List ℕ
mixed = 97 ∷ 46 ∷ 98 ∷ 164 ∷ 162 ∷ 99 ∷ []

index_of_chars :
    sa_write_index (sa_get_next_ip_char no_stops mixed 6) 6 0 ≡ done (0 ∷ 2 ∷ 3 ∷ 5 ∷ [])
unfolding sa_write_index sa_get_next_ip_char
index_of_chars = refl

index_of_bytes :
    sa_write_index (sa_get_next_ip_byte no_stops mixed 6) 6 8 ≡ done (2 ∷ 3 ∷ 4 ∷ 5 ∷ [])
unfolding sa_write_index sa_get_next_ip_byte
index_of_bytes = refl

sa_get_next_ip_char-NextPoint_example :
    NextPoint 6
      (sa_get_next_ip_char no_stops mixed 6)
      (PointOn no_stops mixed (char_move mixed))
      (Walk (char_move mixed) 0)
sa_get_next_ip_char-NextPoint_example = sa_get_next_ip_char-NextPoint no_stops mixed 6 (omega arith)

sa_get_next_ip_byte-NextPoint_example :
    NextPoint 6
      (sa_get_next_ip_byte no_stops mixed 6)
      (PointOn no_stops mixed byte_move)
      (Walk byte_move 0)
sa_get_next_ip_byte-NextPoint_example = sa_get_next_ip_byte-NextPoint no_stops mixed 6 (omega arith)

sa_write_index-Writes_example :
    Ends
      (sa_write_index (sa_get_next_ip_char no_stops mixed 6) 6 8)
      (Writes 6 (PointOn no_stops mixed (char_move mixed)) (first_of 8))
sa_write_index-Writes_example =
    sa_write_index-Writes 6 (sa_get_next_ip_char no_stops mixed 6)
      (PointOn no_stops mixed (char_move mixed)) (Walk (char_move mixed) 0)
      (sa_get_next_ip_char-NextPoint no_stops mixed 6 (omega arith)) 8 (omega arith)

-- "to be.", with two blanks
abbrev two_words : List ℕ
two_words = 116 ∷ 111 ∷ 32 ∷ 32 ∷ 98 ∷ 101 ∷ 46 ∷ []

abbrev at_words : Settings
at_words = record {
  ignored_chars = none;
  my_chars = none;
  my_delimiters = some word_delimiters;
  mki_mode = 0;
}

index_of_words : sa_write_index (sa_get_next_ip_word no_stops two_words 7) 7 0 ≡ done (0 ∷ 4 ∷ [])
unfolding sa_write_index sa_get_next_ip_word
index_of_words = refl

sa_get_next_ip_after_delimiter-NextPoint_example :
    NextPoint 7
      (sa_get_next_ip_after_delimiter at_words two_words 7)
      (AfterDelimiter at_words word_delimiters two_words)
      Anywhere
sa_get_next_ip_after_delimiter-NextPoint_example =
    sa_get_next_ip_after_delimiter-NextPoint at_words word_delimiters two_words 7 (omega arith) refl

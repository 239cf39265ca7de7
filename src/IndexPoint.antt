-- ===== src/IndexPoint.antt =====
-- lib/index-point.c: the positions of a text that an index names.
pub mod Walk
pub mod Delimiter
pub mod Contract
use Prim.Native.Nat.{bit_and}
use sufary.Base.{
  ℕ, zero, suc, ◌+◌, ◌-◌, Bool, true, false, List, [], ◌∷◌, get_elem?, ltb, leb, ◌==◌, ◌&&◌, ◌||◌,
  not, if◌then◌else◌, Option, none, some,
}
use sufary.Base.Int.{ℤ, pos, negsuc}
use sufary.Base.Run.{
  Run, done, stop, assertion, out_of_fuel, out_of_bounds, or_fault, assert, ◌>>=◌, ◌>>◌,
}

-- The module's variables and `sa_mki_mode`. `none` is NULL.
pub record Settings : Type 0 where
  pub ignored_chars : Option (List ℕ)
  pub my_chars : Option (List ℕ)
  pub my_delimiters : Option (List ℕ)
  pub mki_mode : ℕ

unfoldable pub sa_set_ignored_chars : Option (List ℕ) → Settings → Settings
sa_set_ignored_chars p g = record g { ignored_chars = p }

unfoldable pub sa_set_my_chars : Option (List ℕ) → Settings → Settings
sa_set_my_chars p g = record g { my_chars = p }

unfoldable pub sa_set_my_delimiters : Option (List ℕ) → Settings → Settings
sa_set_my_delimiters p g = record g { my_delimiters = p }

-- SA_IP_00_7F and SA_IP_80_FF
abbrev pub ip_00_7f : ℕ
ip_00_7f = 16

abbrev pub ip_80_ff : ℕ
ip_80_ff = 32

abbrev pub mode_on : Settings → ℕ → Bool
mode_on g flag = not (bit_and g.mki_mode flag == 0)

-- MSB_ON
abbrev pub msb_on : ℕ → Bool
msb_on c = not (bit_and 0x80 c == 0)

pub has_byte : List ℕ → ℕ → Bool
has_byte [] c = false
has_byte (x ∷ s) c = c == x || has_byte s c

-- `strchr(s, c) != NULL`, of a string `s`: the byte 0 is found at its end.
unfoldable pub strchr : List ℕ → ℕ → Bool
unfolding has_byte
strchr s c = c == 0 || has_byte s c

-- `p != NULL && strchr(p, c) != NULL`
abbrev pub given_and_has : Option (List ℕ) → ℕ → Bool
given_and_has none c = false
given_and_has (some s) c = strchr s c

module _ (g : Settings) where
  -- the tests of `sa_is_skip` on the byte at its position
  unfoldable pub skip_byte : ℕ → Bool
  unfolding strchr
  skip_byte c =
      if given_and_has g.ignored_chars c
      then true
      else (if mode_on g ip_00_7f && msb_on c then true else mode_on g ip_80_ff && not (msb_on c))

  unfoldable pub acceptable_byte : ℕ → Bool
  unfolding strchr
  acceptable_byte c = given_and_has g.my_chars c

-- A position given to a `sa_get_next_ip` function is an `int` from -1 on. The text is `sstr.ptr`
-- and its length `len`.
module _ (g : Settings) (text : List ℕ) (len : ℕ) where
  unfoldable pub sa_is_skip : ℕ → Run Bool
  unfolding skip_byte
  sa_is_skip ip = do c ← or_fault (get_elem? text ip); done (skip_byte g c)

  unfoldable pub sa_is_acceptable : ℕ → Run Bool
  unfolding acceptable_byte
  sa_is_acceptable ip = do c ← or_fault (get_elem? text ip); done (acceptable_byte g c)

  -- `strchr(sa_get_my_delimiters(), sstr.ptr[ip]) != NULL`
  unfoldable pub is_delimiter : ℕ → Run Bool
  unfolding strchr
  is_delimiter ip = do
    c ← or_fault (get_elem? text ip)
    elim g.my_delimiters [ none ↦ stop out_of_bounds | some s ↦ done (strchr s c) ]

  -- skip a sequence of delimiters: the inner `for`, with `rounds` bytes left
  unfoldable pub skip_delimiters : ℕ → ℕ → Run ℕ
  skip_delimiters zero ip = done ip
  skip_delimiters (suc rounds) ip = do
    d ← is_delimiter ip
    let rest = skip_delimiters rounds (ip + 1)
    if d then rest else done ip

  -- The outer `for`, with fuel.
  unfoldable pub delimiter_loop : ℕ → ℕ → Run ℕ
  delimiter_loop zero ip = stop out_of_fuel
  delimiter_loop (suc fuel) ip = do
    let next = delimiter_loop fuel (ip + 1)
    let found = skip_delimiters (len - ip) ip >>= λ ip'.
        let further = delimiter_loop fuel (ip' + 1) in
        let look = sa_is_skip ip' >>= λ s. if not s then done ip' else further in
        if ip' == len then done len else look
    let body = is_delimiter ip >>= λ d. if d then found else next
    if ltb ip len then body else done len

  unfoldable pub sa_get_next_ip_after_delimiter : ℤ → Run ℕ
  unfolding is_delimiter skip_delimiters delimiter_loop sa_is_skip
  sa_get_next_ip_after_delimiter (negsuc (suc _)) = stop assertion
  sa_get_next_ip_after_delimiter (negsuc zero) = done 0
  sa_get_next_ip_after_delimiter (pos ip) = do
    assert (ltb ip len)
    delimiter_loop (suc (len - ip)) ip

  unfoldable pub sa_skip_one_char : ℕ → Run ℕ
  sa_skip_one_char ip = do
    c ← or_fault (get_elem? text ip)
    done (if msb_on c then ip + 2 else ip + 1)

  abbrev pub skip_one_byte : ℕ → Run ℕ
  skip_one_byte ip = done (ip + 1)

  -- The `for` of `sa_get_next_ip_char`, `..._byte` and `..._char_utf8`, which differ in their step.
  unfoldable pub point_loop : (ℕ → Run ℕ) → ℕ → ℕ → Run ℕ
  point_loop step zero ip = stop out_of_fuel
  point_loop step (suc fuel) ip = do
    let next = step ip >>= point_loop step fuel
    let body =
        sa_is_acceptable ip >>= λ a. sa_is_skip ip >>= λ s. if a || not s then done ip else next
    if ltb ip len then body else done len

  -- The start of those functions: the first position, or a step from `ip` on.
  abbrev pub from_int : (ℕ → Run ℕ) → ℤ → Run ℕ
  from_int step (negsuc (suc _)) = stop assertion
  from_int step (negsuc zero) = done 0
  from_int step (pos ip) = do assert (ltb ip len); step ip

  unfoldable pub sa_get_next_ip_char : ℤ → Run ℕ
  unfolding sa_skip_one_char point_loop sa_is_skip sa_is_acceptable
  sa_get_next_ip_char ip = do
    ip' ← from_int sa_skip_one_char ip
    point_loop sa_skip_one_char (suc (len - ip')) ip'

  unfoldable pub sa_get_next_ip_byte : ℤ → Run ℕ
  unfolding point_loop sa_is_skip sa_is_acceptable
  sa_get_next_ip_byte ip = do
    ip' ← from_int skip_one_byte ip
    point_loop skip_one_byte (suc (len - ip')) ip'

  -- The bytes that begin a character of more than one byte, each with the number of bytes by which
  -- the code goes on. The assertion at the end always fails.
  unfoldable pub utf8_step : ℕ → ℕ → Run ℕ
  utf8_step cur ip =
      if ltb cur 0x80
      then done (ip + 1)
      else (if ltb (ip + 1) len && bit_and cur 0xe0 == 0xc0
          then done (ip + 2)
          else (if ltb (ip + 2) len && bit_and cur 0xf0 == 0xe0
              then done (ip + 3)
              else (if ltb (ip + 3) len && bit_and cur 0xf8 == 0xf0
                  then done (ip + 4)
                  else (if ltb (ip + 4) len && bit_and cur 0xfc == 0xf8
                      then done (ip + 5)
                      else (if ltb (ip + 6) len && bit_and cur 0xfe == 0xfc
                          then done (ip + 4)
                          else stop assertion)))))

  unfoldable pub sa_skip_one_char_utf8 : ℕ → Run ℕ
  unfolding utf8_step
  sa_skip_one_char_utf8 ip = do cur ← or_fault (get_elem? text ip); utf8_step cur ip

  unfoldable pub sa_get_next_ip_char_utf8 : ℤ → Run ℕ
  unfolding sa_skip_one_char_utf8 point_loop sa_is_skip sa_is_acceptable
  sa_get_next_ip_char_utf8 ip = do
    ip' ← from_int sa_skip_one_char_utf8 ip
    point_loop sa_skip_one_char_utf8 (suc (len - ip')) ip'

-- "\n", and " \t\n\r\f{}.()~-`'[]"
abbrev pub line_delimiters : List ℕ
line_delimiters = 10 ∷ []

abbrev pub word_delimiters : List ℕ
word_delimiters =
    32 ∷ 9 ∷ 10 ∷ 13 ∷ 12 ∷ 123 ∷ 125 ∷ 46 ∷ 40 ∷ 41 ∷ 126 ∷ 45 ∷ 96 ∷ 39 ∷ 91 ∷ 93 ∷ []

module _ (g : Settings) (text : List ℕ) (len : ℕ) where
  unfoldable pub sa_get_next_ip_line : ℤ → Run ℕ
  unfolding sa_get_next_ip_after_delimiter sa_set_my_delimiters
  sa_get_next_ip_line ip =
      sa_get_next_ip_after_delimiter (sa_set_my_delimiters (some line_delimiters) g) text len ip

  unfoldable pub sa_get_next_ip_word : ℤ → Run ℕ
  unfolding sa_get_next_ip_after_delimiter sa_set_my_delimiters
  sa_get_next_ip_word ip =
      sa_get_next_ip_after_delimiter (sa_set_my_delimiters (some word_delimiters) g) text len ip

-- ===== src/Regex/IgnoreCase.antt =====
-- `sa_ignore_case` of lib/regex.c: a search that does not tell small letters from capitals.
use sufary.Base.{
  ℕ, ◌+◌, ◌*◌, Bool, List, [], ◌∷◌, set, length, ltb, ◌==◌, ◌||◌, Option, if◌then◌else◌,
}
use sufary.Base.Run.{Run, done, stop, buffer_overflow, ◌>>=◌}
use sufary.File.{Sufary}
use sufary.Regex.Sub.{SaResultList, sa_regex}
use sufary.ArticleFinder.{string_at}

-- the characters that have a meaning in a pattern
abbrev pub is_meta : ℕ → Bool
is_meta c =
    (c == 91)
    || (c == 93)
    || (c == 92)
    || (c == 40)
    || (c == 41)
    || (c == 46)
    || (c == 124)
    || (c == 42)
    || (c == 63)

-- `new_key[j] = c`, in the memory that `malloc` returns
unfoldable pub put : List ℕ → ℕ → ℕ → Run (List ℕ)
put new_key j c = if ltb j (length new_key) then done (set new_key j c) else stop buffer_overflow

-- The functions of ctype.h, which depend on the locale, are parameters.
module _ (isalpha : ℕ → Bool) (tolower toupper : ℕ → ℕ) where
  -- One character: the new key, and the next position in it.
  unfoldable pub expand_char : ℕ → ℕ → List ℕ → Run (List ℕ × ℕ)
  unfolding put
  expand_char c j new_key =
      let letter = put new_key j 91 >>= λ a. put a (j + 1) (tolower c) >>= λ b.
      put b (j + 2) (toupper c) >>= λ d. put d (j + 3) 93 >>= λ e. done (e, j + 4) in
      let meta = put new_key j 92 >>= λ a. put a (j + 1) c >>= λ b. done (b, j + 2) in
      let other = put new_key j c >>= λ a. done (a, j + 1) in
      if isalpha c then letter else if is_meta c then meta else other

  -- The loop, over the characters of the key that are left.
  unfoldable pub expand_loop : List ℕ → ℕ → List ℕ → Run (List ℕ × ℕ)
  unfolding expand_char
  expand_loop [] j new_key = done (new_key, j)
  expand_loop (c ∷ key) j new_key = do
    (new_key', j') ← expand_char c j new_key
    expand_loop key j' new_key'

  unfoldable pub sa_expand_ignore_case : List ℕ → List ℕ → Run (List ℕ)
  unfolding expand_loop string_at
  sa_expand_ignore_case new_key key = do
    s ← string_at key
    (new_key', j) ← expand_loop s 0 new_key
    put new_key' j 0

  -- `fresh` is what `malloc` returns, which the code takes to succeed.
  unfoldable pub sa_ignore_case :
      (ℕ → List ℕ) → Sufary → (List ℕ → Option ℕ) → ℕ → ℕ → ℕ → List ℕ → ℕ → Run SaResultList
  unfolding sa_expand_ignore_case sa_regex
  sa_ignore_case fresh ary scan_hex junk left right keyword keyword_length = do
    tmp_key ← sa_expand_ignore_case (fresh (keyword_length * 4 + 1)) keyword
    s ← string_at tmp_key
    sa_regex ary scan_hex junk left right tmp_key (length s)

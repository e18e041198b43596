-- ===== src/Grant/SortKey.antt =====
-- The sort keys of grants and designations: the regular expressions SORT_KEY and DESIGNATION_KEY of
-- grant-chain.ts, and the day that a key is dated.
use undergroundbb.Base.{
  ℕ, zero, suc, Bool, ◌&&◌, ◌||◌, [], ◌∷◌, ◌++◌, Option, none, some, Text, codes, leb, ◌==◌, ◌>>=◌,
  if◌then◌else◌,
}
use undergroundbb.Platform.{Platform}

pub record ParsedKey : Type 0 where
  pub subject : Text
  pub day : ℕ

-- Exactly `n` characters that pass the test, and what follows them.
unfoldable pub exactly : (ℕ → Bool) → ℕ → Text → Option (Text × Text)
exactly p zero s = some ([], s)
exactly p (suc n) [] = none
exactly p (suc n) (c ∷ s) =
    let rest = exactly p n s in if p c then (rest >>= λ t. some (c ∷ t.0, t.1)) else none

-- The text behind a literal that the given text begins with.
unfoldable pub after : Text → Text → Option Text
after [] s = some s
after (c ∷ lit) [] = none
after (c ∷ lit) (d ∷ s) = let rest = after lit s in if c == d then rest else none

abbrev pub is_digit : ℕ → Bool
is_digit c = leb b'0' c && leb c b'9'

abbrev pub is_hex : ℕ → Bool
is_hex c = is_digit c || leb b'a' c && leb c b'f'

abbrev pub is_hex_or_dash : ℕ → Bool
is_hex_or_dash c = is_hex c || c == b'-'

abbrev pub at_end : Text → Option (Unit {0})
at_end [] = some tt
at_end (c ∷ s) = none

-- `\d{4}-\d{2}-\d{2}` in front of a text.
unfoldable pub day_prefix : Text → Option (Text × Text)
unfolding exactly after
day_prefix s = do
  year ← exactly is_digit 4 s
  month_on ← after (codes "-") year.1
  month ← exactly is_digit 2 month_on
  day_on ← after (codes "-") month.1
  day ← exactly is_digit 2 day_on
  some (year.0 ++ (b'-' ∷ month.0 ++ (b'-' ∷ day.0)), day.1)

-- `#[0-9a-f]{16}$`
unfoldable pub random_suffix : Text → Option (Unit {0})
unfolding exactly after
random_suffix s = do hex_on ← after (codes "#") s; hex ← exactly is_hex 16 hex_on; at_end hex.1

-- `^TAG#([0-9a-f-]{36})#(\d{4}-\d{2}-\d{2})#[0-9a-f]{16}$`: the two groups.
unfoldable pub tagged_key : Text → Text → Option (Text × Text)
unfolding day_prefix random_suffix
tagged_key tag s = do
  subject_on ← after (tag ++ codes "#") s
  subject ← exactly is_hex_or_dash 36 subject_on
  day_on ← after (codes "#") subject.1
  day ← day_prefix day_on
  end ← random_suffix day.1
  some (subject.0, day.0)

module _ (platform : Platform) where
  open platform use {date_parse}

  dated_key : Text → Text → Option ParsedKey
  unfolding tagged_key
  dated_key tag s = do
    groups ← tagged_key tag s
    day ← date_parse (groups.1 ++ codes "T00:00:00.000Z")
    some (record { subject = groups.0; day = day })

  unfoldable pub parse_sort_key : Text → Option ParsedKey
  unfolding dated_key
  parse_sort_key sort_key = dated_key (codes "GRANT") sort_key

  unfoldable pub parse_designation_key : Text → Option ParsedKey
  unfolding dated_key
  parse_designation_key sort_key = dated_key (codes "DESIGNATION") sort_key

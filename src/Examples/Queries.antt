-- ===== src/Examples/Queries.antt =====
-- A query and a table name that a tool may be given.
use dag_doctor.Base.{◌≡◌, refl, Text, codes, false, true, some, [], ◌∷◌}
use dag_doctor.Tools.Sql.{
  TableRef, parse, qualified, strip, split_dots, is_identifier, rest_matches, ref_of, lstrip,
  rstrip, stripped, is_read, has_keyword, keyword_at, judge, accepted, require_read_only,
  write_keywords, has_char,
}
use dag_doctor.Tools.Sql.Keywords.{IsIn, require_read_only-IsSafe}
use dag_doctor.Tools.Sql.Identifiers.{IsPlain, parse-IsFaithful}

abbrev query : Text
query = codes "select a from b"

query_accepted :
    require_read_only (codes " SELECT a from b ; ") ≡ accepted (codes "SELECT a from b")
unfolding require_read_only judge stripped strip lstrip rstrip is_read has_keyword keyword_at
query_accepted = refl

require_read_only-IsSafe_example :
    (codes "SELECT a from b" ≡ stripped (codes " SELECT a from b ; "))
    × (has_char 59 (codes "SELECT a from b") ≡ false)
    × (is_read (codes "SELECT a from b") ≡ true)
    × ¬ IsIn (codes "from") write_keywords
require_read_only-IsSafe_example =
    require_read_only-IsSafe (codes " SELECT a from b ; ") (codes "SELECT a from b")
      (codes "SELECT a ") 102 (codes "rom") (codes " b") query_accepted refl refl refl

abbrev orders : TableRef
orders = record { schema = some (codes "raw"); name = codes "orders" }

orders_parsed : parse (codes " raw.orders ") ≡ some orders
unfolding parse split_dots strip lstrip rstrip is_identifier rest_matches ref_of
orders_parsed = refl

parse-IsFaithful_example :
    (qualified orders ≡ strip (codes " raw.orders "))
    × IsPlain (codes "orders")
    × IsPlain (codes "raw")
parse-IsFaithful_example = parse-IsFaithful (codes " raw.orders ") orders orders_parsed

-- The end of the pattern also matches before a line feed: this schema has one.
line_feed_accepted :
    parse (97 ∷ 10 ∷ codes ".b") ≡ some (record { schema = some (97 ∷ 10 ∷ []); name = codes "b" })
unfolding parse split_dots strip lstrip rstrip is_identifier rest_matches ref_of
line_feed_accepted = refl

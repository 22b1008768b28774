-- ===== src/DnsTools/Tags.antt =====
-- check_dkim_syntax and check_dmarc_syntax of modoboa/dnstools/lib.py, with DMARC_TAGS of
-- modoboa/dnstools/constants.py.
pub mod Dkim
pub mod Dmarc
use mrt_post_office.Prelude.{
  ℕ, ◌+◌, Bool, true, false, not, ◌&&◌, ◌||◌, Option, none, some, List, [], ◌∷◌, ◌++◌, Text, ltb,
  if◌then◌else◌, ◌==◌, nat_eq, text_eq, any, ⊤,
}
use mrt_post_office.Prelude.Chars.{codes, split_char, strip, starts_with}
use mrt_post_office.Prelude.Dict.{Dict, lookup, insert, contains}
use mrt_post_office.Prelude.Int.{ℤ, pos, negsuc, ltb_ℤ}
use mrt_post_office.Prelude.Result.{Result, ok, err, ◌>>=◌, or_raise}
use mrt_post_office.EmailUtils.Split.{split_once, drop_prefix}
use mrt_post_office.DnsTools.Records.{Error, dns_syntax_error, value_error}
use mrt_post_office.DnsTools.Spf.{tail, refuse_if, second_of_two}

-- `"".join(part.strip('"') for part in parts)`
abbrev pub join_unquoted : List Text → Text
join_unquoted [] = []
join_unquoted (part ∷ parts) = strip b'"' part ++ join_unquoted parts

abbrev pub key_text : Text → Text
key_text value = join_unquoted (split_char b' ' value)

-- a tag and its value, by `tag.split("=", 1)`
abbrev pub key_of : Option (Text × Text) → Option Text → Result Error (Option Text)
key_of none key = err dns_syntax_error
key_of (some (name, value)) key =
    if strip b' ' name == codes "p" then ok (some (key_text value)) else ok key

abbrev pub dkim_tag : Text → Option Text → Result Error (Option Text)
dkim_tag [] key = ok key
dkim_tag (c ∷ tag) key = key_of (split_once (b'=' ∷ []) (c ∷ tag)) key

abbrev pub dkim_tags : List Text → Option Text → Result Error (Option Text)
dkim_tags [] key = ok key
dkim_tags (tag ∷ tags) key = do after ← dkim_tag (strip b' ' tag) key; dkim_tags tags after

unfoldable pub check_dkim_syntax : Text → Result Error Text
check_dkim_syntax text =
    if not (starts_with (codes "v=DKIM1") text)
    then err dns_syntax_error
    else (do key ← dkim_tags (tail (split_char b';' text)) none; or_raise key dns_syntax_error)

-- The entries of DMARC_TAGS, by their type
pub data TagDef : Type 0 where
  string_values list_values : List Text → TagDef
  list_of_uris : TagDef
  integer : (min_value max_value : Option ℤ) → TagDef

abbrev pub policies : List Text
policies = codes "none" ∷ codes "quarantine" ∷ codes "reject" ∷ []

abbrev pub alignments : List Text
alignments = codes "r" ∷ codes "s" ∷ []

abbrev pub dmarc_tags : Dict Text TagDef
dmarc_tags =
    (codes "adkim", string_values alignments)
    ∷ (codes "aspf", string_values alignments)
    ∷ (codes "fo", string_values (codes "0" ∷ codes "1" ∷ codes "d" ∷ codes "s" ∷ []))
    ∷ (codes "p", string_values policies)
    ∷ (codes "pct", integer (some (pos 0)) (some (pos 100)))
    ∷ (codes "rf", list_values (codes "afrf" ∷ []))
    ∷ (codes "ri", integer none none)
    ∷ (codes "rua", list_of_uris)
    ∷ (codes "ruf", list_of_uris)
    ∷ (codes "sp", string_values policies)
    ∷ []

-- `DMARC_URI_REGEX.match(value)`: "mailto:" and at least one character that is no line feed
abbrev pub some_text : Text → Bool
some_text [] = false
some_text (c ∷ s) = not (c == 10)

abbrev pub is_uri : Text → Bool
is_uri value =
    starts_with (codes "mailto:") value && some_text (drop_prefix (codes "mailto:") value)

abbrev pub is_one_of : List Text → Text → Bool
is_one_of values value = any (λ v. v == value) values

-- `for svalue in value.split(",")`
abbrev pub check_each : (Text → Bool) → List Text → Result Error ⊤
check_each valid [] = ok tt
check_each valid (svalue ∷ svalues) = do
  checked ← refuse_if (not (valid svalue))
  check_each valid svalues

abbrev pub below : ℤ → Option ℤ → Bool
below value none = false
below value (some min_value) = ltb_ℤ value min_value

abbrev pub above : ℤ → Option ℤ → Bool
above value none = false
above value (some max_value) = ltb_ℤ max_value value

-- `int` is the built-in function, `none` for a ValueError.
module _ (int : Text → Option ℤ) where
  abbrev pub check_dmarc_tag : TagDef → Text → Result Error ⊤
  check_dmarc_tag (string_values values) value = refuse_if (not (is_one_of values value))
  check_dmarc_tag (list_values values) value = check_each (is_one_of values) (split_char b',' value)
  check_dmarc_tag list_of_uris value = check_each is_uri (split_char b',' value)
  check_dmarc_tag (integer min_value max_value) value = do
    n ← or_raise (int value) dns_syntax_error
    small ← refuse_if (below n min_value)
    refuse_if (above n max_value)

  abbrev pub add_tag : Text → Text → Dict Text Text → Result Error (Dict Text Text)
  add_tag name value tags = do
    tdef ← or_raise (lookup name dmarc_tags) dns_syntax_error
    checked ← check_dmarc_tag tdef value
    ok (insert name value tags)

  -- the two parts of a tag
  abbrev pub add_pair : List Text → Dict Text Text → Result Error (Dict Text Text)
  add_pair (name ∷ value ∷ []) tags = add_tag (strip b' ' name) (strip b' ' value) tags
  add_pair [] tags = err dns_syntax_error
  add_pair (x ∷ []) tags = err dns_syntax_error
  add_pair (x ∷ y ∷ z ∷ more) tags = err dns_syntax_error

  abbrev pub dmarc_tag : Text → Dict Text Text → Result Error (Dict Text Text)
  dmarc_tag [] tags = ok tags
  dmarc_tag (c ∷ tag) tags = add_pair (split_char b'=' (strip b' ' (c ∷ tag))) tags

  unfoldable pub collect_tags : List Text → Dict Text Text → Result Error (Dict Text Text)
  collect_tags [] tags = ok tags
  collect_tags (tag ∷ rest) tags = do after ← dmarc_tag tag tags; collect_tags rest after

  unfoldable pub check_dmarc_syntax : Text → Result Error ⊤
  check_dmarc_syntax text =
      if not (starts_with (codes "v=DMARC1") text) then err dns_syntax_error else (do
        tags ← collect_tags (tail (split_char b';' text)) []
        refuse_if (not (contains (codes "p") tags)))

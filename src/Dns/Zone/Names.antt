-- ===== src/Dns/Zone/Names.antt =====
-- The names below a zone: the zone and the key that are found in them.
use Prim.Native.Char.{Char}
use mathlib.Core.List.{reverse, reverse-append, reverse-reverse}
use mikrom.Prelude.{
  ◌≡◌, refl, sym, ap, ◌∙◌, String, true, false, some, List, [], ◌∷◌, ◌++◌, is_some, same, same_refl,
  arith,
}
use mikrom.Prelude.Chars.{chars, of_chars, of_chars-chars}
use mikrom.Dns.Zone.{
  user, user_zone, rest_after, trim_dots, ends_with, from_name, suffix_of, filled_key,
  extract_record_key,
}

-- A key followed by a zone, turned round.
turned :
    (key name zone : String)
    → chars name ≡ chars key ++ chars zone
    → reverse (chars name) ≡ reverse (chars zone) ++ reverse (chars key)
turned key name zone e = rw (e) (reverse-append (chars key) (chars zone))

untrimmed : (s : List Char) → is_some (rest_after (reverse (chars ".")) s) ≡ false → trim_dots s ≡ s
unfolding rest_after trim_dots chars
untrimmed [] h = refl
untrimmed (c ∷ s) h = ground (arith, h)

not_empty : (s : String) → same s "" ≡ false → (reverse (chars s) ≡ []) → true ≡ false
unfolding chars of_chars
not_empty s h e = ground (
  arith,
  h,
  same_refl "",
  sym (of_chars-chars s) ∙ ap of_chars (sym (reverse-reverse (chars s)) ∙ ap reverse e),
)

filled : (s : List Char) → (s ≡ [] → true ≡ false) → filled_key s ≡ some (of_chars (reverse s))
unfolding filled_key
filled [] h = ground (arith, h refl)
filled (c ∷ s) h = refl

key_found :
    (key : String)
    → same key "" ≡ false
    → ends_with "." key ≡ false
    → filled_key (trim_dots (reverse (chars key))) ≡ some key
key_found key h g =
    rw
      (
        untrimmed (reverse (chars key)) g,
        filled (reverse (chars key)) (not_empty key h),
        reverse-reverse (chars key),
        of_chars-chars key,
      )
      refl

module _ (to_lowercase : String → String) (key name : String) where
  -- A name that is lowered to a key followed by `.u.mikrom.internal.` is a user's, under that key.
  pub from_name-user :
      chars (to_lowercase name) ≡ chars key ++ chars ".u.mikrom.internal."
      → from_name to_lowercase name ≡ user
  unfolding from_name rest_after chars
  from_name-user e = rw (turned key (to_lowercase name) ".u.mikrom.internal." e) refl

  pub extract_record_key-user :
      same key "" ≡ false
      → ends_with "." key ≡ false
      → chars (to_lowercase name) ≡ chars key ++ chars ".u.mikrom.internal."
      → extract_record_key to_lowercase name user ≡ some key
  unfolding extract_record_key suffix_of rest_after chars trim_dots
  extract_record_key-user h g e =
      rw (extract_record_key, turned key (to_lowercase name) ".u.mikrom.internal." e)
        (key_found key h g)

  -- The same without the dot.
  pub from_name-glued :
      chars (to_lowercase name) ≡ chars key ++ chars user_zone → from_name to_lowercase name ≡ user
  unfolding from_name rest_after chars
  from_name-glued e = rw (turned key (to_lowercase name) user_zone e) refl

  pub extract_record_key-glued :
      same key "" ≡ false
      → ends_with "." key ≡ false
      → chars (to_lowercase name) ≡ chars key ++ chars user_zone
      → extract_record_key to_lowercase name user ≡ some key
  unfolding extract_record_key suffix_of rest_after chars
  extract_record_key-glued h g e =
      rw (extract_record_key, turned key (to_lowercase name) user_zone e) (key_found key h g)

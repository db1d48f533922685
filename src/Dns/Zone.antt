-- ===== src/Dns/Zone.antt =====
-- Zones and record keys: mikrom-dns/src/domain/zone.rs. A `Name` of hickory is its text, and what its
-- `to_lowercase().to_string()` makes of it is a parameter.
pub mod Names
use Prim.Native.Char.{Char, code}
use mathlib.Core.List.{reverse}
use mikrom.Prelude.{
  ℕ, String, Bool, true, false, Option, none, some, List, [], ◌∷◌, if◌then◌else◌, ◌==◌, is_some,
}
use mikrom.Prelude.Chars.{chars, of_chars}

abbrev pub sys_zone : String
sys_zone = "s.mikrom.internal."

abbrev pub net_zone : String
net_zone = "n.mikrom.internal."

abbrev pub user_zone : String
user_zone = "u.mikrom.internal."

abbrev pub user_record_ttl : ℕ
user_record_ttl = 5

pub data MikromZone : Type 0 where
  system network user external : MikromZone

-- What is left of the second list behind the first.
unfoldable pub rest_after : List Char → List Char → Option (List Char)
rest_after [] s = some s
rest_after (c ∷ p) [] = none
rest_after (c ∷ p) (d ∷ s) = let rest = rest_after p s in if code c == code d then rest else none

-- `strip_suffix`, with its result turned round: the last character comes first.
abbrev pub before_suffix : String → String → Option (List Char)
before_suffix suffix s = rest_after (reverse (chars suffix)) (reverse (chars s))

abbrev pub ends_with : String → String → Bool
ends_with suffix s = is_some (before_suffix suffix s)

-- `trim_end_matches('.')`, of a text turned round
unfoldable pub trim_dots : List Char → List Char
trim_dots [] = []
trim_dots (c ∷ s) = let rest = trim_dots s in if code c == 46 then rest else c ∷ s

unfoldable pub suffix_of : MikromZone → Option String
suffix_of system = some sys_zone
suffix_of network = some net_zone
suffix_of user = some user_zone
suffix_of external = none

-- The last test of `extract_record_key`.
unfoldable pub filled_key : List Char → Option String
filled_key [] = none
filled_key (c ∷ s) = some (of_chars (reverse (c ∷ s)))

module _ (to_lowercase : String → String) where
  -- `MikromZone::from_name`
  unfoldable pub from_name : String → MikromZone
  from_name name =
      let name_str = to_lowercase name in
      if ends_with sys_zone name_str
      then system
      else if ends_with net_zone name_str
      then network
      else if ends_with user_zone name_str
      then user
      else external

  unfoldable pub extract_record_key : String → MikromZone → Option String
  extract_record_key name zone = elim (suffix_of zone) [
    | none ↦ none
    | some suffix ↦ elim (before_suffix suffix (to_lowercase name)) [
      | none ↦ none
      | some stripped ↦ filled_key (trim_dots stripped)
    ]
  ]

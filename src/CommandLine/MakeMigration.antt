-- ===== src/CommandLine/MakeMigration.antt =====
-- src/cli-commands/commands/make-migration/make-migration.service.ts: the name of a new migration. The
-- parts are those that `Intl.DateTimeFormat('en', …).formatToParts` gives for years of four digits:
-- the hours of that locale go from 1 to 12, with AM or PM behind the seconds.
pub mod Collisions
use nestjs_framework_templat.Prelude.{
  ℕ, ◌+◌, ◌/◌, ◌%◌, String, Option, none, some, List, [], ◌∷◌, ◌++◌, units, ltb, nat_beq,
  if◌then◌else◌,
}

abbrev pub Text : Type 0
Text = List ℕ

-- `new Date()`, in local time
pub record DateTime : Type 0 where
  pub year : ℕ
  pub month : ℕ
  pub day : ℕ
  pub hour : ℕ
  pub minute : ℕ
  pub second : ℕ

pub data PartType : Type 0 where
  year month day hour minute second literal day_period : PartType

abbrev pub two_digits : ℕ → Text
two_digits n = (b'0' + n / 10) ∷ (b'0' + n % 10) ∷ []

abbrev pub four_digits : ℕ → Text
four_digits n =
    (b'0' + n / 1000) ∷ (b'0' + n / 100 % 10) ∷ (b'0' + n / 10 % 10) ∷ (b'0' + n % 10) ∷ []

abbrev pub hour12 : ℕ → ℕ
hour12 h = if nat_beq (h % 12) 0 then 12 else h % 12

unfoldable pub format_to_parts : DateTime → List (PartType × Text)
format_to_parts d =
    (month, two_digits d.month)
    ∷ (literal, units "/")
    ∷ (day, two_digits d.day)
    ∷ (literal, units "/")
    ∷ (year, four_digits d.year)
    ∷ (literal, units ", ")
    ∷ (hour, two_digits (hour12 d.hour))
    ∷ (literal, units ":")
    ∷ (minute, two_digits d.minute)
    ∷ (literal, units ":")
    ∷ (second, two_digits d.second)
    ∷ (literal, units " ")
    ∷ (day_period, if ltb d.hour 12 then units "AM" else units "PM")
    ∷ []

-- `new Array(6)`, with holes
pub record DateFormat : Type 0 where
  pub at_0 : Option Text
  pub at_1 : Option Text
  pub at_2 : Option Text
  pub at_3 : Option Text
  pub at_4 : Option Text
  pub at_5 : Option Text

abbrev pub new_array : DateFormat
new_array = record { at_0 = none; at_1 = none; at_2 = none; at_3 = none; at_4 = none; at_5 = none }

-- The reducer: the parts that are not asked for change nothing.
abbrev pub put : PartType → Text → DateFormat → DateFormat
put year value f = record f { at_0 = some value }
put month value f = record f { at_1 = some value }
put day value f = record f { at_2 = some value }
put hour value f = record f { at_3 = some value }
put minute value f = record f { at_4 = some value }
put second value f = record f { at_5 = some value }
put literal value f = f
put day_period value f = f

abbrev pub reduce : List (PartType × Text) → DateFormat → DateFormat
reduce [] f = f
reduce ((type, value) ∷ parts) f = reduce parts (put type value f)

-- `join('')` leaves a hole empty.
abbrev pub filled : Option Text → Text
filled none = []
filled (some t) = t

abbrev pub join : DateFormat → Text
join f =
    filled f.at_0
    ++ (filled f.at_1 ++ (filled f.at_2 ++ (filled f.at_3 ++ (filled f.at_4 ++ filled f.at_5))))

unfoldable pub migration_prefix : DateTime → Text
unfolding format_to_parts
migration_prefix d = join (reduce (format_to_parts d) new_array)

-- The name that umzug is given.
unfoldable pub migration_name : DateTime → Text → Text
unfolding migration_prefix
migration_name d name = migration_prefix d ++ (units "-" ++ (name ++ units ".ts"))

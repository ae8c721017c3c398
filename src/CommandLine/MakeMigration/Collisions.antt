-- ===== src/CommandLine/MakeMigration/Collisions.antt =====
-- Which migrations are given the same prefix, and how prefixes are ordered.
use nestjs_framework_templat.Prelude.{
  ℕ, zero, suc, ◌+◌, ◌/◌, ◌%◌, ◌<◌, Bool, true, false, [], ◌∷◌, ◌++◌, ◌≡◌, ◌↔◌, refl, ap, arith,
  ltb, nat_beq, if◌then◌else◌, units, ◌∙◌,
}
use nestjs_framework_templat.CommandLine.MakeMigration.{
  Text, DateTime, hour12, two_digits, four_digits, migration_prefix, migration_name,
}

pub record IsValid (d : DateTime) : Type 0 where
  pub year : d.year < 10000
  pub month : d.month < 100
  pub day : d.day < 100
  pub hour : d.hour < 24
  pub minute : d.minute < 60
  pub second : d.second < 60

-- The same time on a clock with twelve hours.
pub record SameOnDial (d e : DateTime) : Type 0 where
  pub year : d.year ≡ e.year
  pub month : d.month ≡ e.month
  pub day : d.day ≡ e.day
  pub hour : d.hour % 12 ≡ e.hour % 12
  pub minute : d.minute ≡ e.minute
  pub second : d.second ≡ e.second

abbrev unit_at : ℕ → Text → ℕ
unit_at i [] = 0
unit_at zero (c ∷ t) = c
unit_at (suc i) (c ∷ t) = unit_at i t

hour12_inj : (a b : ℕ) → hour12 a ≡ hour12 b → a % 12 ≡ b % 12
hour12_inj a b h = ground arith

hour12_of : (a b : ℕ) → a % 12 ≡ b % 12 → hour12 a ≡ hour12 b
hour12_of a b h = ground arith

hour12-lt : (a : ℕ) → hour12 a < 100
hour12-lt a = ground arith

two_digits_inj :
    (a b : ℕ)
    → a < 100
    → b < 100
    → b'0' + a / 10 ≡ b'0' + b / 10
    → b'0' + a % 10 ≡ b'0' + b % 10
    → a ≡ b
two_digits_inj a b p q h k = omega arith

four_digits_inj :
    (a b : ℕ)
    → a < 10000
    → b < 10000
    → b'0' + a / 1000 ≡ b'0' + b / 1000
    → b'0' + a / 100 % 10 ≡ b'0' + b / 100 % 10
    → b'0' + a / 10 % 10 ≡ b'0' + b / 10 % 10
    → b'0' + a % 10 ≡ b'0' + b % 10
    → a ≡ b
four_digits_inj a b p q h k l m = omega arith

on_dial :
    (d e : DateTime)
    → IsValid d
    → IsValid e
    → migration_prefix d ≡ migration_prefix e
    → SameOnDial d e
unfolding migration_prefix
on_dial d e v w h =
    let at : (i : ℕ) → unit_at i (migration_prefix d) ≡ unit_at i (migration_prefix e) =
      λ i. ap (unit_at i) h in
    record {
      year = four_digits_inj d.year e.year v.year w.year (at 0) (at 1) (at 2) (at 3);
      month = two_digits_inj d.month e.month v.month w.month (at 4) (at 5);
      day = two_digits_inj d.day e.day v.day w.day (at 6) (at 7);
      hour = hour12_inj d.hour e.hour (
          two_digits_inj (hour12 d.hour) (hour12 e.hour) (hour12-lt d.hour) (hour12-lt e.hour)
            (at 8) (at 9));
      minute = two_digits_inj d.minute e.minute (omega arith) (omega arith) (at 10) (at 11);
      second = two_digits_inj d.second e.second (omega arith) (omega arith) (at 12) (at 13);
    }

-- Two moments give the same prefix exactly when they are the same on a clock with twelve hours: one
-- in the morning and one twelve hours later share theirs.
pub migration_prefix_iff :
    (d e : DateTime)
    → IsValid d
    → IsValid e
    → (migration_prefix d ≡ migration_prefix e) ↔ SameOnDial d e
unfolding migration_prefix
migration_prefix_iff d e v w = (
  on_dial d e v w,
  λ s. cc (s.year, s.month, s.day, hour12_of d.hour e.hour s.hour, s.minute, s.second),
)

-- The order of the code units, in which names of files are sorted.
abbrev pub before : Text → Text → Bool
before [] [] = false
before [] (y ∷ ys) = true
before (x ∷ xs) [] = false
before (x ∷ xs) (y ∷ ys) = if nat_beq x y then before xs ys else ltb x y

before-append : (t xs ys : Text) → before (t ++ xs) (t ++ ys) ≡ before xs ys
before-append [] xs ys = refl
before-append (c ∷ t) xs ys = ground (arith, before-append t xs ys)

hours_before :
    (a b : ℕ) (xs ys : Text)
    → a < b
    → b < 100
    → before (two_digits a ++ xs) (two_digits b ++ ys) ≡ true
hours_before a b xs ys h k = ground arith

-- The prefix, cut before its hours.
abbrev date_text : DateTime → Text
date_text d = four_digits d.year ++ (two_digits d.month ++ two_digits d.day)

-- A migration of the afternoon is sorted before one that was made earlier on the same day, in the
-- morning, whenever the hour that its clock shows is the smaller one, whatever their names are.
pub later_sorts_first :
    (d : DateTime) (shown : ℕ) (minute second : ℕ) (name later_name : Text)
    → 0 < shown
    → shown < d.hour
    → d.hour < 12
    → before
        (migration_name
          (record d { hour = 12 + shown; minute = minute; second = second })
          later_name)
        (migration_name d name)
      ≡ true
unfolding migration_name
later_sorts_first d shown minute second name later_name p q r =
    let rest =
      λ (m n : ℕ) (t : Text). two_digits m ++ (two_digits n ++ (b'-' ∷ (t ++ units ".ts"))) in
    let same_day =
      before-append (date_text d)
        (two_digits (hour12 (12 + shown)) ++ rest minute second later_name)
        (two_digits (hour12 d.hour) ++ rest d.minute d.second name) in
    same_day
    ∙ hours_before (hour12 (12 + shown)) (hour12 d.hour) (rest minute second later_name)
        (rest d.minute d.second name) (ground arith) (hour12-lt d.hour)

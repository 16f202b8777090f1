-- ===== src/Lab2/Interleaved/Solutions.antt =====
-- The critical sections of the three solutions of lab2/KboardModule.c, and that the first two exclude.
use os_class.Common.{◌≡◌, refl, Bool, true, false}
use os_class.Lab2.Sync.Semaphores.{Semaphores}
use os_class.Lab2.Sync.System.{Role}
use os_class.Lab2.Sync.Solution1 as First
use os_class.Lab2.Sync.Solution2 as Second
use os_class.Lab2.Sync.Solution3 as Third
use os_class.Lab2.Sync.Solution1.Safety as FirstSafety
use os_class.Lab2.Sync.Solution2.Safety as SecondSafety
use os_class.Lab2.Interleaved.{Sections}
use os_class.Lab2.Interleaved.Excludes.{Excludes}

-- Solution 1.
abbrev first_section : Role → First.Place
first_section Role.writer = First.writing
first_section Role.reader = First.reading

abbrev first_at : Role → First.Place → Bool
first_at Role.writer First.writing = true
first_at Role.reader First.reading = true
first_at r q = false

abbrev first_outside : First.Place → Bool
first_outside First.outside = true
first_outside q = false

pub first_at_sound : (r : Role) (q : First.Place) → first_at r q ≡ true → q ≡ first_section r
first_at_sound Role.writer First.writing h = refl
first_at_sound Role.writer _ h = absurd (cc h)
first_at_sound Role.reader First.reading h = refl
first_at_sound Role.reader _ h = absurd (cc h)

pub first_outside_sound : (q : First.Place) → first_outside q ≡ true → q ≡ First.outside
first_outside_sound First.outside h = refl
first_outside_sound _ h = absurd (cc h)

abbrev pub first_sections : (sem : Semaphores) → Sections (First.protocol sem)
first_sections sem = record {
  section = first_section;
  at_section = first_at;
  is_outside = first_outside;
  at_section_sound = first_at_sound;
  is_outside_sound = first_outside_sound;
}

first_inside : (r : Role) → FirstSafety.inside (first_section r) ≡ true
first_inside Role.writer = refl
first_inside Role.reader = refl

pub first-Excludes : (sem : Semaphores) → Excludes (First.protocol sem) (first_sections sem)
first-Excludes sem = record {
  alone = λ few reached i j hi hj.
      FirstSafety.mutual_exclusion sem few reached i j hi hj (first_inside _);
}

-- Solution 2.
abbrev second_section : Role → Second.Place
second_section Role.writer = Second.writing
second_section Role.reader = Second.reading

abbrev second_at : Role → Second.Place → Bool
second_at Role.writer Second.writing = true
second_at Role.reader Second.reading = true
second_at r q = false

abbrev second_outside : Second.Place → Bool
second_outside Second.outside = true
second_outside q = false

pub second_at_sound : (r : Role) (q : Second.Place) → second_at r q ≡ true → q ≡ second_section r
second_at_sound Role.writer Second.writing h = refl
second_at_sound Role.writer _ h = absurd (cc h)
second_at_sound Role.reader Second.reading h = refl
second_at_sound Role.reader _ h = absurd (cc h)

pub second_outside_sound : (q : Second.Place) → second_outside q ≡ true → q ≡ Second.outside
second_outside_sound Second.outside h = refl
second_outside_sound _ h = absurd (cc h)

abbrev pub second_sections : (sem : Semaphores) → Sections (Second.protocol sem)
second_sections sem = record {
  section = second_section;
  at_section = second_at;
  is_outside = second_outside;
  at_section_sound = second_at_sound;
  is_outside_sound = second_outside_sound;
}

second_inside : (r : Role) → SecondSafety.inside (second_section r) ≡ true
second_inside Role.writer = refl
second_inside Role.reader = refl

pub second-Excludes : (sem : Semaphores) → Excludes (Second.protocol sem) (second_sections sem)
second-Excludes sem = record {
  alone = λ few reached i j hi hj.
      SecondSafety.writer_excludes sem few reached i j hi hj (second_inside _);
}

-- Solution 3.
abbrev third_section : Role → Third.Place
third_section Role.writer = Third.writing
third_section Role.reader = Third.reading

abbrev third_at : Role → Third.Place → Bool
third_at Role.writer Third.writing = true
third_at Role.reader Third.reading = true
third_at r q = false

abbrev third_outside : Third.Place → Bool
third_outside Third.outside = true
third_outside q = false

pub third_at_sound : (r : Role) (q : Third.Place) → third_at r q ≡ true → q ≡ third_section r
third_at_sound Role.writer Third.writing h = refl
third_at_sound Role.writer _ h = absurd (cc h)
third_at_sound Role.reader Third.reading h = refl
third_at_sound Role.reader _ h = absurd (cc h)

pub third_outside_sound : (q : Third.Place) → third_outside q ≡ true → q ≡ Third.outside
third_outside_sound Third.outside h = refl
third_outside_sound _ h = absurd (cc h)

abbrev pub third_sections : (sem : Semaphores) → Sections (Third.protocol sem)
third_sections sem = record {
  section = third_section;
  at_section = third_at;
  is_outside = third_outside;
  at_section_sound = third_at_sound;
  is_outside_sound = third_outside_sound;
}

-- ===== src/Schedules/Matching.antt =====
-- `findMatchingSchedule` of backend/src/schedules/schedules.service.ts: which schedule a name and
-- a date mean. A date that cannot be read is NaN, and no distance to it is less than another.
use talkertive_chat_app.Base.{
  ℕ, ◌+◌, ◌-◌, ◌≤◌, String, Bool, ◌≡◌, ◌≢◌, refl, Option, none, some, List, [], ◌∷◌, ltb, ◌==◌,
  string_eq, if◌then◌else◌, filter, In, arith, inl, inr, In-filter, id_iff, List-cases, ◌↔◌, subst,
  sym,
}
use talkertive_chat_app.Schema.{RoomSchedule}

-- `Math.abs(s.time.getTime() - targetTime)`
abbrev pub distance : RoomSchedule → ℕ → ℕ
distance s t = (s.time - t) + (t - s.time)

-- `currentDiff < closestDiff ? current : closest`
abbrev pub closer : Option ℕ → RoomSchedule → RoomSchedule → RoomSchedule
closer none closest current = closest
closer (some t) closest current =
    if ltb (distance current t) (distance closest t) then current else closest

-- `schedules.reduce(…)`
abbrev pub closest_from : Option ℕ → RoomSchedule → List RoomSchedule → RoomSchedule
closest_from target s [] = s
closest_from target s (x ∷ xs) = closest_from target (closer target s x) xs

abbrev pub closest_of : Option ℕ → List RoomSchedule → Option RoomSchedule
closest_of target [] = none
closest_of target (x ∷ xs) = some (closest_from target x xs)

abbrev pub is_named : String → RoomSchedule → Bool
is_named name s = s.name == name

-- The nearest of those with the name, and where there are none the nearest of all.
unfoldable pub find_matching_schedule : Option ℕ → String → List RoomSchedule → Option RoomSchedule
find_matching_schedule target name schedules = elim (filter (is_named name) schedules) [
  | [] ↦ closest_of target schedules
  | x ∷ xs ↦ closest_of target (x ∷ xs)
]

closest_from-In :
    (target : Option ℕ) (s : RoomSchedule) (xs : List RoomSchedule)
    → In (closest_from target s xs) (s ∷ xs)
closest_from-In target s [] = inl refl
closest_from-In none s (x ∷ xs) = ground (arith, closest_from-In none s xs)
closest_from-In (some t) s (x ∷ xs) =
    ground (arith, closest_from-In (some t) (closer (some t) s x) xs)

closest_from-le_start :
    (t : ℕ) (s : RoomSchedule) (xs : List RoomSchedule)
    → distance (closest_from (some t) s xs) t ≤ distance s t
closest_from-le_start t s [] = omega arith
closest_from-le_start t s (x ∷ xs) =
    ground (arith, closest_from-le_start t (closer (some t) s x) xs)

closest_from-le :
    (t : ℕ) (s : RoomSchedule) (xs : List RoomSchedule) (y : RoomSchedule)
    → In y (s ∷ xs)
    → distance (closest_from (some t) s xs) t ≤ distance y t
closest_from-le t s xs y (inl e) = rw (← e) (closest_from-le_start t s xs)
closest_from-le t s [] y (inr h) = elim h [ ]
closest_from-le t s (x ∷ xs) y (inr (inl e)) =
    rw (← e) (ground (arith, closest_from-le_start t (closer (some t) s x) xs))
closest_from-le t s (x ∷ xs) y (inr (inr h)) = closest_from-le t (closer (some t) s x) xs y (inr h)

-- The nearest of a list is in it, and none of it is nearer.
closest_of-IsNearest :
    (t : ℕ) (l : List RoomSchedule) (s : RoomSchedule)
    → closest_of (some t) l ≡ some s
    → In s l × ((x : RoomSchedule) → In x l → distance s t ≤ distance x t)
closest_of-IsNearest t [] s e = cc
closest_of-IsNearest t (x ∷ xs) s e =
    let q : closest_from (some t) x xs ≡ s = cc in
    (
      subst (λ y. In y (x ∷ xs)) q (closest_from-In (some t) x xs),
      λ y h. subst (λ z. distance z t ≤ distance y t) q (closest_from-le t x xs y h),
    )

closest_of-In :
    (target : Option ℕ) (l : List RoomSchedule) (s : RoomSchedule)
    → closest_of target l ≡ some s
    → In s l
closest_of-In target [] s e = cc
closest_of-In target (x ∷ xs) s e =
    let q : closest_from target x xs ≡ s = cc in
    subst (λ y. In y (x ∷ xs)) q (closest_from-In target x xs)

pub find_matching_schedule-In :
    (target : Option ℕ) (name : String) (schedules : List RoomSchedule) (s : RoomSchedule)
    → find_matching_schedule target name schedules ≡ some s
    → In s schedules
unfolding find_matching_schedule
find_matching_schedule-In target name schedules s e =
    elim (List-cases (filter (is_named name) schedules)) [
      | inl nobody ↦ closest_of-In target schedules s (ground arith)
      | inr (y, ys, some_named) ↦
          let listed = closest_of-In target (y ∷ ys) s (ground arith) in
          ((In-filter (is_named name) s schedules).0 (subst (In s) (sym some_named) listed)).0
    ]

-- What `findMatchingSchedule` gives for a date that can be read is a schedule of the list. If any
-- schedule has the name, it has the name and none of that name is nearer to the date; if it has
-- another name, none of the whole list is nearer.
pub find_matching_schedule-IsNearest :
    (t : ℕ) (name : String) (schedules : List RoomSchedule) (s : RoomSchedule)
    → find_matching_schedule (some t) name schedules ≡ some s
    → In s schedules
      × ((x : RoomSchedule)
          → In x schedules
          → x.name ≡ name
          → (s.name ≡ name) × (distance s t ≤ distance x t))
      × ((x : RoomSchedule) → In x schedules → s.name ≢ name → distance s t ≤ distance x t)
unfolding find_matching_schedule
find_matching_schedule-IsNearest t name schedules s e =
    elim (List-cases (filter (is_named name) schedules)) [
      | inl nobody ↦
          let (listed, least) = closest_of-IsNearest t schedules s (ground arith) in
          (listed, λ x h named. absurd (none_named x h named nobody), λ x h _. least x h)
      | inr (y, ys, some_named) ↦
          let chosen : closest_of (some t) (y ∷ ys) ≡ some s = ground arith in
          let (listed, least) = closest_of-IsNearest t (y ∷ ys) s chosen in
          let (of_all, named) =
            (In-filter (is_named name) s schedules).0 (subst (In s) (sym some_named) listed) in
          let same = (id_iff s.name name).0 named in
          (
            of_all,
            λ x h e. (
              same,
              least x (
                  subst (In x) some_named
                    ((In-filter (is_named name) x schedules).1 (h, (id_iff x.name name).1 e))),
            ),
            λ x h other. absurd (other same),
          )
    ]
  where
    none_named :
        (x : RoomSchedule) → In x schedules → x.name ≡ name → filter (is_named name) schedules ≢ []
    none_named x h named q =
        subst (In x) q ((In-filter (is_named name) x schedules).1 (h, (id_iff x.name name).1 named))

-- Nothing is found exactly where there is no schedule at all.
find_matching_schedule-eq-none :
    (target : Option ℕ) (name : String) (schedules : List RoomSchedule)
    → (find_matching_schedule target name schedules ≡ none) ↔ (schedules ≡ [])
unfolding find_matching_schedule
find_matching_schedule-eq-none target name [] = ground arith
find_matching_schedule-eq-none target name (x ∷ xs) = ground arith

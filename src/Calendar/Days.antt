-- ===== src/Calendar/Days.antt =====
-- The schedules of a day, as the grid looks them up and as the open day lists them.
use talkertive_chat_app.Base.{
  append_assoc, ℕ, String, ◌≡◌, refl, ap, sym, ◌∙◌, List, [], ◌∷◌, ◌++◌, filter, ◌==◌, string_eq,
  if◌then◌else◌, arith, id_iff, inl, inr, Bool-cases,
}
use talkertive_chat_app.Calendar.{Date, key_of, push, schedule_map, schedules_at, schedules_of_day}

module _ {S : Type 0} (time : S → ℕ) (local_date : ℕ → Date) where
  schedules_at-push :
      (k j : String) (s : S) (m : List (String × List S))
      → schedules_at time local_date k (push time local_date j s m) ≡ (
          if j == k
          then schedules_at time local_date k m ++ s ∷ []
          else schedules_at time local_date k m)
  schedules_at-push k j s [] = ground arith
  schedules_at-push k j s ((i, xs) ∷ m) =
      ground (arith, schedules_at-push k j s m, id_iff i j, id_iff i k, id_iff j k)

  append-nil : (xs : List S) → xs ++ [] ≡ xs
  append-nil [] = refl
  append-nil (x ∷ xs) = ap (λ t. x ∷ t) (append-nil xs)

  schedule_map-append :
      (k : String) (ss : List S) (m : List (String × List S))
      → schedules_at time local_date k (schedule_map time local_date ss m)
        ≡ schedules_at time local_date k m ++ filter (λ s. key_of time local_date s == k) ss
  unfolding schedule_map
  schedule_map-append k [] m = sym (append-nil _)
  schedule_map-append k (s ∷ ss) m =
      let j = key_of time local_date s in
      let ih = schedule_map-append k ss (push time local_date j s m) in
      elim (Bool-cases (j == k)) [
        | inl same ↦
            ih
            ∙ ground (
              arith,
              schedules_at-push k j s m,
              append_assoc (schedules_at time local_date k m) (s ∷ [])
                  (filter (λ s. key_of time local_date s == k) ss),
            )
        | inr other ↦ ih ∙ ground (arith, schedules_at-push k j s m)
      ]

  -- What the grid's map holds for a day is what the list of all schedules holds for it, in the
  -- order of that list.
  pub schedule_map-schedules_of_day :
      (k : String) (ss : List S)
      → schedules_at time local_date k (schedule_map time local_date ss [])
        ≡ schedules_of_day time local_date k ss
  unfolding schedules_of_day
  schedule_map-schedules_of_day k ss = schedule_map-append k ss []

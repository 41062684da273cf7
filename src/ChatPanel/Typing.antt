-- ===== src/ChatPanel/Typing.antt =====
-- Who is shown as typing, and for how long.
use mathlib.Core.List.{reverse}
use talkertive_chat_app.Base.{
  ℕ, ◌+◌, ◌≤◌, String, Bool, true, false, not, ◌&&◌, ◌||◌, ◌≡◌, refl, ap, ◌∙◌, Option, some, none,
  List, [], ◌∷◌, ◌++◌, All, leb, ◌==◌, string_eq, arith, id_iff, if◌then◌else◌,
}
use talkertive_chat_app.Chat.{FullMessage}
use talkertive_chat_app.Chat.Gateway.{
  ServerEvent, new_message, message_edited, message_deleted, message_read, user_typing,
  room_list_updated,
}
use talkertive_chat_app.ChatPanel.{
  Panel, on_event, on_typing_timeout, fire, advance, last?, includes, without, without_timeout,
  emitting_read, typing_timeout_ms,
}
use talkertive_chat_app.ChatPanel.Happenings.{
  Happening, connected, disconnected, room_joined, heard, typed, debounced, sent_input, timers,
  edit_started, edit_cancelled, edit_submitted, deleted, by_time, happen, run,
}

abbrev covered : String → List (String × ℕ) → Bool
covered u [] = false
covered u ((v, due) ∷ ts) = v == u || covered u ts

-- Whoever is shown as typing has a timeout, which is due three seconds after `t` at the latest.
pub record Pending (t : ℕ) (p : Panel) : Type 0 where
  pub timed :
      (u : String) → includes p.typing_user_ids u ≡ true → covered u p.typing_timeouts ≡ true
  pub due : All (λ x. x.1 ≤ t + typing_timeout_ms) p.typing_timeouts

module _ (room_id : String) where
  includes-without :
      (u v : String) (xs : List String)
      → includes (without v xs) u ≡ (includes xs u && not (v == u))
  includes-without u v [] = refl
  includes-without u v (x ∷ xs) =
      ground (arith, includes-without u v xs, id_iff x v, id_iff x u, id_iff v u)

  covered-without :
      (u v : String) (ts : List (String × ℕ))
      → covered u (without_timeout v ts) ≡ (covered u ts && not (v == u))
  covered-without u v [] = refl
  covered-without u v (x ∷ ts) =
      ground (arith, covered-without u v ts, id_iff x.0 v, id_iff x.0 u, id_iff v u)

  includes-append :
      (u v : String) (xs : List String) → includes (xs ++ v ∷ []) u ≡ (includes xs u || v == u)
  includes-append u v [] = ground arith
  includes-append u v (x ∷ xs) = ground (arith, includes-append u v xs)

  All-without :
      (t : ℕ) (v : String) (ts : List (String × ℕ))
      → All (λ x. x.1 ≤ t) ts
      → All (λ x. x.1 ≤ t) (without_timeout v ts)
  All-without t v [] h = tt
  All-without t v (x ∷ ts) (h, k) = ground (arith, All-without t v ts k)

  Pending-same :
      (t : ℕ) (p p' : Panel)
      → p'.typing_user_ids ≡ p.typing_user_ids
      → p'.typing_timeouts ≡ p.typing_timeouts
      → Pending t p
      → Pending t p'
  Pending-same t p p' ids timeouts h = record {
    timed = λ u i. ground (arith, h.timed u);
    due = rw timeouts h.due;
  }

  Pending-stops : (t : ℕ) (v : String) (p : Panel) → Pending t p → Pending t (on_typing_timeout v p)
  unfolding on_typing_timeout
  Pending-stops t v p h = record {
    timed = λ u i. ground (
      arith,
      includes-without u v p.typing_user_ids,
      covered-without u v p.typing_timeouts,
      h.timed u,
    );
    due = All-without (t + typing_timeout_ms) v p.typing_timeouts h.due;
  }

  Pending-fire :
      (t now : ℕ) (ts : List (String × ℕ)) (p : Panel) → Pending t p → Pending t (fire now ts p)
  Pending-fire t now [] p h = h
  Pending-fire t now ((v, d) ∷ ts) p h =
      Pending-fire t now ts _
        (elim (leb d now) as (λ b. Pending t (if b then on_typing_timeout v p else p)) [
          | true ↦ Pending-stops t v p h
          | false ↦ h
        ])

  Pending-event :
      (t now : ℕ) (e : ServerEvent) (p : Panel)
      → leb now t ≡ true
      → Pending t p
      → Pending t (on_event room_id now e p)
  unfolding on_event on_typing_timeout
  Pending-event t now (new_message m) p b h = Pending-same t p _ (ground arith) (ground arith) h
  Pending-event t now (message_edited m) p b h = Pending-same t p _ refl refl h
  Pending-event t now (message_deleted id r) p b h = Pending-same t p _ refl refl h
  Pending-event t now (message_read u r id) p b h = h
  Pending-event t now (room_list_updated l) p b h = h
  Pending-event t now (user_typing v false) p b h = Pending-stops t v p h
  Pending-event t now (user_typing v true) p b h = record {
    timed = λ u i. ground (
      arith,
      includes-append u v p.typing_user_ids,
      covered-without u v p.typing_timeouts,
      h.timed u,
    );
    due = (ground arith, All-without (t + typing_timeout_ms) v p.typing_timeouts h.due);
  }

  Pending-read :
      (t : ℕ) (m : Option FullMessage) (p : Panel)
      → Pending t p
      → Pending t (emitting_read room_id m p)
  Pending-read t none p h = h
  Pending-read t (some m) p h = Pending-same t p _ (ground arith) (ground arith) h

  happen-Pending :
      (t : ℕ) (x : Happening) (p : Panel)
      → by_time t x ≡ true
      → Pending t p
      → Pending t (happen room_id x p)
  unfolding happen
  happen-Pending t connected p b h = Pending-same t p _ (ground arith) (ground arith) h
  happen-Pending t disconnected p b h = Pending-same t p _ refl refl h
  happen-Pending t (room_joined l) p b h =
      Pending-read t (last? (reverse l)) _ (Pending-same t p _ refl refl h)
  happen-Pending t (heard now e) p b h = Pending-event t now e p b h
  happen-Pending t (typed now text) p b h = Pending-same t p _ (ground arith) (ground arith) h
  happen-Pending t debounced p b h = Pending-same t p _ (ground arith) (ground arith) h
  happen-Pending t sent_input p b h = Pending-same t p _ (ground arith) (ground arith) h
  happen-Pending t (timers now) p b h = Pending-fire t now p.typing_timeouts p h
  happen-Pending t (edit_started m) p b h = Pending-same t p _ refl refl h
  happen-Pending t edit_cancelled p b h = Pending-same t p _ refl refl h
  happen-Pending t edit_submitted p b h = Pending-same t p _ (ground arith) (ground arith) h
  happen-Pending t (deleted id) p b h = Pending-same t p _ (ground arith) (ground arith) h

  run-Pending :
      (t : ℕ) (xs : List Happening) (p : Panel)
      → All (λ x. by_time t x ≡ true) xs
      → Pending t p
      → Pending t (run room_id xs p)
  unfolding run
  run-Pending t [] p b h = h
  run-Pending t (x ∷ xs) p (b, bs) h =
      run-Pending t xs (happen room_id x p) bs (happen-Pending t x p b h)

  fire-includes :
      (now : ℕ) (ts : List (String × ℕ)) (p : Panel) (u : String)
      → All (λ x. x.1 ≤ now) ts
      → (includes p.typing_user_ids u ≡ true → covered u ts ≡ true)
      → includes (fire now ts p).typing_user_ids u ≡ false
  unfolding on_typing_timeout
  fire-includes now [] p u b h = ground arith
  fire-includes now ((v, d) ∷ ts) p u (b, bs) h =
      let due : leb d now ≡ true = ground arith in
      let fired = ap (λ b. fire now ts (if b then on_typing_timeout v p else p)) due in
      ap (λ q. includes q.typing_user_ids u) fired
      ∙ fire-includes now ts (on_typing_timeout v p) u bs
          (λ i. ground (arith, includes-without u v p.typing_user_ids))

  includes-none : (xs : List String) → ((u : String) → includes xs u ≡ false) → xs ≡ []
  includes-none [] h = refl
  includes-none (x ∷ xs) h = absurd (ground (arith, h x, id_iff x x))

  -- No one is shown as typing for ever: whatever has happened to a panel by some time, in whatever
  -- order, once the timers of three seconds later have fired it shows no one as typing.
  pub typing-ends :
      (t : ℕ) (xs : List Happening) (p : Panel)
      → All (λ x. by_time t x ≡ true) xs
      → Pending t p
      → (advance (t + typing_timeout_ms) (run room_id xs p)).typing_user_ids ≡ []
  unfolding advance
  typing-ends t xs p b h =
      let pending = run-Pending t xs p b h in
      let q = run room_id xs p in
      includes-none _ (λ u.
        fire-includes (t + typing_timeout_ms) q.typing_timeouts q u pending.due (pending.timed u))

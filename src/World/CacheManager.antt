-- ===== src/World/CacheManager.antt =====
-- The cache manager over Redis (`CACHE_MANAGER`), which the services only call: get, set with a
-- time to live, and del, with what they promise. An entry may vanish early; it is never served
-- after its time, and never under another key.
use talkertive_chat_app.Base.{ℕ, ◌+◌, ◌<◌, String, ◌≡◌, ◌≢◌, Option, none, some, List}

-- An entry: its key, its value and the time at which it expires.
abbrev pub Entries : Type 0 → Type 0
Entries V = List (String × V × ℕ)

pub record Cache (V : Type 0) : Type 0 where
  -- `get(key)` at a time
  pub get : ℕ → String → Entries V → Option V
  -- `set(key, value, ttl)` at a time
  pub set : ℕ → String → V → ℕ → Entries V → Entries V
  pub del : String → Entries V → Entries V
  pub get-set_self :
      (later now : ℕ) (k : String) (v w : V) (ttl : ℕ) (c : Entries V)
      → get later k (set now k v ttl c) ≡ some w
      → (w ≡ v) × (later < now + ttl)
  pub get-set_ne :
      (later now : ℕ) (j k : String) (v : V) (ttl : ℕ) (c : Entries V) {w : V}
      → j ≢ k
      → get later j (set now k v ttl c) ≡ some w
      → get later j c ≡ some w
  pub get-del_self : (now : ℕ) (k : String) (c : Entries V) → get now k (del k c) ≡ none
  pub get-del_ne :
      (now : ℕ) (j k : String) (c : Entries V) {w : V}
      → get now j (del k c) ≡ some w
      → get now j c ≡ some w
